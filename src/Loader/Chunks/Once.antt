-- ===== src/Loader/Chunks/Once.antt =====
-- No chunk is imported twice at once, nor again after it was loaded.
use luna_mbt.Js.Keys
use luna_mbt.Js.Keys.{
  add-IsDistinct, delete-IsDistinct, includes-add, includes-delete_self, includes-delete_ne,
}
use luna_mbt.Loader.Chunks.{load_chunk, import_resolved, import_rejected}
use luna_mbt.Loader.Chunks.Flight.{
  World, request, resolve, reject, Step, requested, resolved, rejected, IsInitial, Reach, start,
  later,
}
use luna_mbt.Prelude.{
  ℕ, ◌+◌, ◌≡◌, sym, inl, inr, Bool, true, false, ◌||◌, List, [], ◌∷◌, ◌++◌, arith, Text, text_eq,
  text_beq_iff, ◌==◌, includes, IsDistinct, count, count-append, Bool-cases, IsDistinct-snoc,
  includes-snoc, subst, ap,
}

abbrev pub one_if : Bool → ℕ
one_if true = 1
one_if false = 0

-- How often a name is in a log.
abbrev pub times : Text → List Text → ℕ
times name log = count (λ n. n == name) log

-- The pending imports are those in `loading`; each import started has failed, has loaded its chunk
-- or is pending, and none of these twice.
pub record Inv (w : World) : Type 0 where
  pub pending : w.in_flight ≡ w.loader.loading
  pub loading_once : IsDistinct w.loader.loading
  pub loaded_once : IsDistinct w.loader.loaded
  pub apart :
      (name : Text) → includes w.loader.loading name ≡ true → includes w.loader.loaded name ≡ false
  pub counted :
      (name : Text)
      → times name w.started
        ≡ times name w.failed
          + one_if (includes w.loader.loaded name)
          + one_if (includes w.loader.loading name)

Inv-initial : {w : World} → IsInitial w → Inv w
unfolding count includes
Inv-initial h = record {
  pending = ground arith;
  loading_once = rw h.no_loading tt;
  loaded_once = rw h.no_loaded tt;
  apart = λ name e. ground arith;
  counted = λ name. ground arith;
}

pub times-snoc :
    (name n : Text) (log : List Text)
    → times name (log ++ n ∷ []) ≡ times name log + one_if (n == name)
unfolding count
times-snoc name n log = ground (arith, count-append (λ k. k == name) log (n ∷ []))

-- A call for a chunk that is loaded or pending changes nothing.
request_idle :
    (w : World) (name : Text)
    → (includes w.loader.loaded name || includes w.loader.loading name) ≡ true
    → request w name ≡ w
unfolding request load_chunk
request_idle w name h = ground arith

-- Any other call starts an import.
abbrev requesting : World → Text → World
requesting w name = record w {
  loader = record w.loader { loading = Keys.add w.loader.loading name };
  in_flight = w.in_flight ++ name ∷ [];
  started = w.started ++ name ∷ [];
}

request_new :
    (w : World) (name : Text)
    → (includes w.loader.loaded name || includes w.loader.loading name) ≡ false
    → request w name ≡ requesting w name
unfolding request load_chunk
request_new w name h = ground arith

requesting-Inv :
    (w : World) (name : Text)
    → (includes w.loader.loaded name || includes w.loader.loading name) ≡ false
    → Inv w
    → Inv (requesting w name)
unfolding Keys.add
requesting-Inv w name h v = record {
  pending = ground arith;
  loading_once = ground (arith, IsDistinct-snoc w.loader.loading name v.loading_once);
  loaded_once = v.loaded_once;
  apart =
      λ n e. ground (arith, v.apart n, includes-snoc w.loader.loading name n, text_beq_iff name n);
  counted = λ n. ground (
    arith,
    v.counted n,
    times-snoc n name w.started,
    includes-snoc w.loader.loading name n,
    text_beq_iff name n,
  );
}

request-Inv : (w : World) (name : Text) → Inv w → Inv (request w name)
request-Inv w name v =
    elim (Bool-cases (includes w.loader.loaded name || includes w.loader.loading name)) [
      | inl idle ↦ subst Inv (sym (request_idle w name idle)) v
      | inr new ↦ subst Inv (sym (request_new w name new)) (requesting-Inv w name new v)
    ]

resolve-Inv :
    (w : World) (name : Text) → includes w.in_flight name ≡ true → Inv w → Inv (resolve w name)
unfolding resolve import_resolved
resolve-Inv w name h v =
    let was : includes w.loader.loading name ≡ true = ground (arith, v.pending) in
    record {
      pending = ap (λ l. Keys.delete l name) v.pending;
      loading_once = delete-IsDistinct w.loader.loading name v.loading_once;
      loaded_once = add-IsDistinct w.loader.loaded name v.loaded_once;
      apart = λ n e. ground (
        arith,
        v.apart n,
        includes-add w.loader.loaded name n,
        includes-delete_ne w.loader.loading name n,
        includes-delete_self w.loader.loading name v.loading_once,
        text_beq_iff name n,
      );
      counted = λ n. ground (
        arith,
        v.counted n,
        v.apart n,
        includes-add w.loader.loaded name n,
        includes-delete_ne w.loader.loading name n,
        includes-delete_self w.loader.loading name v.loading_once,
        text_beq_iff name n,
      );
    }

reject-Inv :
    (w : World) (name : Text) → includes w.in_flight name ≡ true → Inv w → Inv (reject w name)
unfolding reject import_rejected
reject-Inv w name h v =
    let was : includes w.loader.loading name ≡ true = ground (arith, v.pending) in
    record {
      pending = ap (λ l. Keys.delete l name) v.pending;
      loading_once = delete-IsDistinct w.loader.loading name v.loading_once;
      loaded_once = v.loaded_once;
      apart = λ n e. ground (
        arith,
        v.apart n,
        includes-delete_ne w.loader.loading name n,
        includes-delete_self w.loader.loading name v.loading_once,
        text_beq_iff name n,
      );
      counted = λ n. ground (
        arith,
        v.counted n,
        times-snoc n name w.failed,
        includes-delete_ne w.loader.loading name n,
        includes-delete_self w.loader.loading name v.loading_once,
        text_beq_iff name n,
      );
    }

Step-Inv : {w v : World} → Step w v → Inv w → Inv v
Step-Inv {w} (requested name) h = request-Inv w name h
Step-Inv {w} (resolved name p) h = resolve-Inv w name p h
Step-Inv {w} (rejected name p) h = reject-Inv w name p h

Reach-Inv : {w : World} → Reach w → Inv w
Reach-Inv (start h) = Inv-initial h
Reach-Inv (later r s) = Step-Inv s (Reach-Inv r)

-- In every reachable state, whatever the order of calls and of settling imports, each import of a
-- chunk has failed, is pending, or has loaded the chunk, and at most one is pending or has loaded
-- it: the number of imports started is the number that failed plus one if it is loaded or pending.
pub Reach-times :
    {w : World} (name : Text)
    → Reach w
    → times name w.started
      ≡ times name w.failed
        + one_if (includes w.loader.loaded name || includes w.loader.loading name)
Reach-times {w} name r = let v = Reach-Inv r in ground (arith, v.counted name, v.apart name)
