-- ===== src/Luna/Store/Above.antt =====
-- What a path has after `setValueAtPath` has set something below it (js/luna/src/index.ts).
use luna_mbt.Js.Entries.{get}
use luna_mbt.Luna.Heap.{
  Value, undefined, ref, Heap, Object, object_at, is_nullish, field_of, field_at, get_key,
}
use luna_mbt.Luna.Heap.Objects.{
  object_at-append, object_at_new, object_at-lt, object_at-put_key, get_key-object_at,
  get_key-put_key, get_key-put_key_ref,
}
use luna_mbt.Luna.Store.{get_value_at_path, set_value_at_path}
use luna_mbt.Luna.Store.Written.{Made, set_step, step_cases}
use luna_mbt.Prelude.{
  ℕ, ◌≡◌, ◌≢◌, ◌<◌, sym, ap, ◌∙◌, subst, inl, inr, true, some, Option-cases, List, [], ◌∷◌, ◌++◌,
  length, arith, Text, text_eq,
}

-- What stands in the objects below an address is the same.
abbrev Frame : ℕ → Heap → Heap → Type 0
Frame n h h' = (c : ℕ) → c < n → object_at h' c ≡ object_at h c

bare_key :
    (h : Heap) (a d : ℕ) (o : Object) (k : Text)
    → object_at h a ≡ some o
    → o.fields ≡ []
    → get_key h (ref a) k ≢ ref d
unfolding get_key get
bare_key h a d o k there bare e =
    let held : field_of o k ≡ ref d = ap (λ x. field_at x k) (sym there) ∙ e in
    ground (arith, ap (λ fs. get fs k) bare)

Made-object_at :
    (h h' : Heap) (a : ℕ) (k : Text) (rest : List Text) (v : Value) (m : Made h h' a k rest v)
    → a < length h
    → object_at m.heap (length h) ≡ some m.made
Made-object_at h h' a k rest v m lt =
    object_at-put_key (h ++ m.made ∷ []) m.heap a (length h) k (ref (length h)) m.put
      (λ e. omega arith)
    ∙ object_at_new h m.made

Made-is_nullish :
    (h h' : Heap) (a : ℕ) (k : Text) (rest : List Text) (v : Value) (m : Made h h' a k rest v)
    → a < length h
    → is_nullish (get_key (h ++ m.made ∷ []) (ref a) k) ≡ true
Made-is_nullish h h' a k rest v m lt =
    ap is_nullish (get_key-object_at h (h ++ m.made ∷ []) a k (object_at-append h m.made a lt))
    ∙ m.missing

-- What is set below a new object changes no older one.
Frame-set_value_at_path :
    (h h' : Heap) (a : ℕ) (o : Object) (k : Text) (ks : List Text) (v : Value)
    → object_at h a ≡ some o
    → o.fields ≡ []
    → set_value_at_path h (ref a) (k ∷ ks) v ≡ some h'
    → Frame a h h'
unfolding set_value_at_path
Frame-set_value_at_path h h' a o k [] v there bare e =
    λ c lt. object_at-put_key h h' a c k v e (λ p. omega arith)
Frame-set_value_at_path h h' a o k (j ∷ ks) v there bare e = elim (set_step h h' a k j ks v e) [
  | inl m ↦ λ c lt.
      let inside = object_at-lt h a o there in
      Frame-set_value_at_path m.heap h' (length h) m.made j ks v
        (Made-object_at h h' a k (j ∷ ks) v m inside) m.bare m.then_set c (omega arith)
      ∙ object_at-put_key (h ++ m.made ∷ []) m.heap a c k (ref (length h)) m.put (λ p. omega arith)
      ∙ object_at-append h m.made c (omega arith)
  | inr f ↦ elim (bare_key h a f.next o k there bare f.held) [ ]
]

Frame-below :
    (h h' : Heap) (a : ℕ) (o : Object) (q : List Text) (x : Text) (r : List Text) (v : Value)
    → object_at h a ≡ some o
    → o.fields ≡ []
    → set_value_at_path h (ref a) (q ++ x ∷ r) v ≡ some h'
    → Frame a h h'
Frame-below h h' a o [] x r v there bare e = Frame-set_value_at_path h h' a o x r v there bare e
Frame-below h h' a o (j ∷ q) x r v there bare e =
    Frame-set_value_at_path h h' a o j (q ++ x ∷ r) v there bare e

-- Of a step that makes an object: the older objects hold what they held, and the way leads to it.
Made-Frame :
    (h h' : Heap) (a : ℕ) (k : Text) (q : List Text) (x : Text) (r : List Text) (v : Value)
    (m : Made h h' a k (q ++ x ∷ r) v)
    → a < length h
    → Frame (length h) m.heap h'
Made-Frame h h' a k q x r v m lt =
    Frame-below m.heap h' (length h) m.made q x r v (Made-object_at h h' a k (q ++ x ∷ r) v m lt)
      m.bare m.then_set

Made-get_key :
    (h h' : Heap) (a : ℕ) (k : Text) (q : List Text) (x : Text) (r : List Text) (v : Value)
    (m : Made h h' a k (q ++ x ∷ r) v)
    → a < length h
    → get_key h' (ref a) k ≡ ref (length h)
Made-get_key h h' a k q x r v m lt =
    get_key-object_at m.heap h' a k (Made-Frame h h' a k q x r v m lt a lt)
    ∙ get_key-put_key (h ++ m.made ∷ []) m.heap a k (ref (length h))
        (Made-is_nullish h h' a k (q ++ x ∷ r) v m lt) m.put

value_made :
    (h h' : Heap) (a : ℕ) (o : Object) (q : List Text) (x : Text) (r : List Text) (v : Value)
    → object_at h a ≡ some o
    → o.fields ≡ []
    → set_value_at_path h (ref a) (q ++ x ∷ r) v ≡ some h'
    → get_value_at_path h' (ref a) q ≢ undefined
unfolding get_value_at_path
value_made h h' a o [] x r v there bare e nothing = ground arith
value_made h h' a o (k ∷ q) x r v there bare e nothing = elim (step_cases h h' a k q x r v e) [
  | inl m ↦
      let inside = object_at-lt h a o there in
      value_made m.heap h' (length h) m.made q x r v
        (Made-object_at h h' a k (q ++ x ∷ r) v m inside) m.bare m.then_set
        (subst (λ w. get_value_at_path h' w q ≡ undefined) (Made-get_key h h' a k q x r v m inside)
          nothing)
  | inr f ↦ elim (bare_key h a f.next o k there bare f.held) [ ]
]

-- Every object that is held is there.
abbrev pub IsClosed : Heap → Type 0
IsClosed h = (c d : ℕ) (k : Text) → get_key h (ref c) k ≡ ref d → d < length h

-- Fields that hold objects still hold them.
abbrev pub Keeps : Heap → Heap → Type 0
Keeps h h' = (c d : ℕ) (k : Text) → get_key h (ref c) k ≡ ref d → get_key h' (ref c) k ≡ ref d

held-lt : (h : Heap) (c d : ℕ) (k : Text) → get_key h (ref c) k ≡ ref d → c < length h
unfolding get_key
held-lt h c d k e = elim (Option-cases (object_at h c)) [
  | inl missing ↦ ground arith
  | inr (o, there) ↦ object_at-lt h c o there
]

Made-Keeps :
    (h h' : Heap) (a : ℕ) (k : Text) (q : List Text) (x : Text) (r : List Text) (v : Value)
    (m : Made h h' a k (q ++ x ∷ r) v)
    → a < length h
    → Keeps h h'
Made-Keeps h h' a k q x r v m lt = λ c d j e.
    let inside = held-lt h c d j e in
    get_key-object_at m.heap h' c j (Made-Frame h h' a k q x r v m lt c inside)
    ∙ get_key-put_key_ref (h ++ m.made ∷ []) m.heap a c d k j (ref (length h))
        (Made-is_nullish h h' a k (q ++ x ∷ r) v m lt) m.put
        (get_key-object_at h (h ++ m.made ∷ []) c j (object_at-append h m.made c inside) ∙ e)

-- Where a path has nothing, and something is set below it, the path has something then, and the fields
-- that hold objects still hold them.
pub set_value_at_path_above :
    (h h' : Heap) (a : ℕ) (k : Text) (p : List Text) (x : Text) (r : List Text) (v : Value)
    → IsClosed h
    → a < length h
    → get_value_at_path h (ref a) (k ∷ p) ≡ undefined
    → set_value_at_path h (ref a) (k ∷ (p ++ x ∷ r)) v ≡ some h'
    → Keeps h h' × (get_value_at_path h' (ref a) (k ∷ p) ≢ undefined)
unfolding get_value_at_path
set_value_at_path_above h h' a k [] x r v closed lt nothing e =
    elim (step_cases h h' a k [] x r v e) [
      | inl m ↦ (
        Made-Keeps h h' a k [] x r v m lt,
        λ n. ground (arith, Made-get_key h h' a k [] x r v m lt),
      )
      | inr f ↦ ground (arith, f.held)
    ]
set_value_at_path_above h h' a k (j ∷ p) x r v closed lt nothing e =
    elim (step_cases h h' a k (j ∷ p) x r v e) [
      | inl m ↦ (
        Made-Keeps h h' a k (j ∷ p) x r v m lt,
        λ n.
            value_made m.heap h' (length h) m.made (j ∷ p) x r v
              (Made-object_at h h' a k ((j ∷ p) ++ x ∷ r) v m lt) m.bare m.then_set
              (subst (λ w. get_value_at_path h' w (j ∷ p) ≡ undefined)
                (Made-get_key h h' a k (j ∷ p) x r v m lt) n),
      )
      | inr f ↦
          let (keeps, there) =
            set_value_at_path_above h h' f.next j p x r v closed (closed a f.next k f.held)
              (subst (λ w. get_value_at_path h w (j ∷ p) ≡ undefined) f.held nothing) f.then_set in
          (
            keeps,
            λ n. there (
                subst (λ w. get_value_at_path h' w (j ∷ p) ≡ undefined) (keeps a f.next k f.held)
                  n),
          )
    ]
