-- ===== src/Luna/Store/Fresh.antt =====
-- The signals after an update (js/luna/src/index.ts).
use luna_mbt.Js.Entries.{get}
use luna_mbt.Js.Text.{js, split}
use luna_mbt.Luna.Heap.{Value, undefined, ref, Heap}
use luna_mbt.Luna.Store.{
  get_value_at_path, set_value_at_path, Store, key_of, covers, set_signals, Arg, new_value,
  update_at, notify, notified_at,
}
use luna_mbt.Luna.Store.Above.{IsClosed, set_value_at_path_above}
use luna_mbt.Luna.Store.Joined.{
  IsDotless, split-key_of, covers-key_of, covers-extends, covers-key_of_above,
}
use mathlib.Core.Option.{some-injective}
use luna_mbt.Prelude.{
  ◌≡◌, ◌≢◌, ◌⊎◌, ◌<◌, refl, sym, ap, ◌∙◌, subst, inl, inr, Bool, true, Option, none, some, List, [],
  ◌∷◌, ◌++◌, length, arith, Text, text_eq, text_beq_iff, ◌==◌, All, if◌then◌else◌, Bool-cases,
}

abbrev set_signal : (Text → Bool) → Heap → Value → Text → Option Value → Option Value
set_signal test h store k none = none
set_signal test h store k (some v) =
    some (if test k then get_value_at_path h store (split b'.' k) else v)

get-set_signals :
    (test : Text → Bool) (h : Heap) (store : Value) (signals : List (Text × Value)) (k : Text)
    → get (set_signals test h store signals) k ≡ set_signal test h store k (get signals k)
unfolding get set_signals
get-set_signals test h store [] k = refl
get-set_signals test h store ((j, v) ∷ signals) k = elim (Bool-cases (j == k)) [
  | inl same ↦
      let e : j ≡ k = (text_beq_iff j k).0 same in
      rw (same) (ap (λ x. some (if test x then get_value_at_path h store (split b'.' x) else v)) e)
  | inr other ↦ rw other (get-set_signals test h store signals k)
]

-- The heap at the time of the write, and the value that is written
abbrev pub to_write : Store → List Text → Arg → Heap × Value
to_write s path a = new_value s.heap (get_value_at_path s.heap (ref s.store) path) a

notified_parts :
    (s s' : Store) (path : List Text) (o : Option Heap)
    → notified_at s path o ≡ some s'
    → (o ≡ some s'.heap)
      × (s'.store ≡ s.store)
      × (s'.signals ≡ set_signals (covers (key_of path)) s'.heap (ref s.store) s.signals)
notified_parts s s' path none e = ground arith
notified_parts s s' path (some h) e =
    let same = some-injective (notify s (covers (key_of path)) h) s' e in
    let heaps : h ≡ s'.heap = ap (λ x. x.heap) same in
    (
      ap some heaps,
      sym (ap (λ x. x.store) same),
      sym (ap (λ x. x.signals) same)
          ∙ ap (λ x. set_signals (covers (key_of path)) x (ref s.store) s.signals) heaps,
    )

-- The parts of an update at a path that succeeds.
update_at_parts :
    (s s' : Store) (path : List Text) (a : Arg)
    → update_at s path a ≡ some s'
    → (set_value_at_path (to_write s path a).0 (ref s.store) path (to_write s path a).1
        ≡ some s'.heap)
      × (s'.store ≡ s.store)
      × (s'.signals ≡ set_signals (covers (key_of path)) s'.heap (ref s.store) s.signals)
unfolding update_at
update_at_parts s s' path a h =
    notified_parts s s' path
      (set_value_at_path (to_write s path a).0 (ref s.store) path (to_write s path a).1) h

signal_parts :
    (s s' : Store) (path : List Text) (a : Arg) (q : List Text) {v : Value}
    → update_at s path a ≡ some s'
    → get s.signals (key_of q) ≡ some v
    → get s'.signals (key_of q)
      ≡ some (
          if covers (key_of path) (key_of q)
          then get_value_at_path s'.heap (ref s.store) (split b'.' (key_of q))
          else v)
signal_parts s s' path a q h old =
    let parts = update_at_parts s s' path a h in
    ap (λ x. get x (key_of q)) (parts.2)
    ∙ get-set_signals (covers (key_of path)) s'.heap (ref s.store) s.signals (key_of q)
    ∙ ap (set_signal (covers (key_of path)) s'.heap (ref s.store) (key_of q)) old

-- Where the keys of the paths have no dots: after an update at a path that succeeds, a signal whose
-- path is the one of the update or below it has what the store has then at its path, and every other
-- signal has what it had.
pub signals-update_at :
    (s s' : Store) (k : Text) (ks : List Text) (a : Arg) (j : Text) (js : List Text) (v : Value)
    → update_at s (k ∷ ks) a ≡ some s'
    → All IsDotless (k ∷ ks)
    → All IsDotless (j ∷ js)
    → get s.signals (key_of (j ∷ js)) ≡ some v
    → (((r : List Text) × (j ∷ js ≡ (k ∷ ks) ++ r))
        × (get s'.signals (key_of (j ∷ js))
            ≡ some (get_value_at_path s'.heap (ref s'.store) (j ∷ js))))
      ⊎ (((r : List Text) → j ∷ js ≢ (k ∷ ks) ++ r) × (get s'.signals (key_of (j ∷ js)) ≡ some v))
signals-update_at s s' k ks a j js v h plain plain' old =
    let now = signal_parts s s' (k ∷ ks) a (j ∷ js) h old in
    elim (Bool-cases (covers (key_of (k ∷ ks)) (key_of (j ∷ js)))) [
      | inl hit ↦ inl (
        covers-extends k ks j js plain plain' hit,
        rw hit at now
            ∙ ap (λ p. some (get_value_at_path s'.heap (ref s.store) p)) (split-key_of j js plain')
            ∙ ap (λ b. some (get_value_at_path s'.heap (ref b) (j ∷ js)))
                (sym (update_at_parts s s' (k ∷ ks) a h).1),
      )
      | inr miss ↦ inr (
        λ r e.
            let hit : covers (key_of (k ∷ ks)) (key_of (j ∷ js)) ≡ true =
              subst (λ q. covers (key_of (k ∷ ks)) (key_of q) ≡ true) (sym e)
                (covers-key_of k ks r) in
            ground (arith, hit),
        rw miss at now,
      )
    ]

-- Where all objects that are held are there: when an update below a path succeeds, and the store had
-- nothing at the path at the time of the write, the signal of the path keeps to that, though the store
-- has something there then.
pub update_at_above :
    (s s' : Store) (j : Text) (js : List Text) (x : Text) (r : List Text) (a : Arg)
    → update_at s ((j ∷ js) ++ x ∷ r) a ≡ some s'
    → IsClosed (to_write s ((j ∷ js) ++ x ∷ r) a).0
    → s.store < length (to_write s ((j ∷ js) ++ x ∷ r) a).0
    → get_value_at_path (to_write s ((j ∷ js) ++ x ∷ r) a).0 (ref s.store) (j ∷ js) ≡ undefined
    → get s.signals (key_of (j ∷ js)) ≡ some undefined
    → (get s'.signals (key_of (j ∷ js)) ≡ some undefined)
      × (get_value_at_path s'.heap (ref s'.store) (j ∷ js) ≢ undefined)
update_at_above s s' j js x r a h closed inside nothing old =
    let (set, kept, signals) = update_at_parts s s' ((j ∷ js) ++ x ∷ r) a h in
    let (h1, v) = to_write s ((j ∷ js) ++ x ∷ r) a in
    let above = set_value_at_path_above h1 s'.heap s.store j js x r v closed inside nothing set in
    (
      rw (covers-key_of_above j js x r) at (signal_parts s s' ((j ∷ js) ++ x ∷ r) a (j ∷ js) h old),
      λ e. above.1 (ap (λ b. get_value_at_path s'.heap (ref b) (j ∷ js)) (sym kept) ∙ e),
    )
