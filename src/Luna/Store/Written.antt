-- ===== src/Luna/Store/Written.antt =====
-- What `setValueAtPath` does to the objects (js/luna/src/index.ts).
use luna_mbt.Luna.Heap.{
  Value, undefined, null, flag, string, natural, number, ref, Heap, Object, is_nullish, get_key,
  put_key, char_of, char_at, index_of,
}
use luna_mbt.Luna.Store.{container, set_value_at_path}
use luna_mbt.Js.Text.{js}
use luna_mbt.Prelude.{
  ℕ, zero, suc, ◌≡◌, ◌⊎◌, refl, subst, inl, inr, Bool, true, false, Option, none, some, List, [],
  ◌∷◌, ◌++◌, length, arith, Text, text_eq, ◌==◌, Bool-cases, Option-cases,
}

abbrev is_primitive : Value → Bool
is_primitive (ref a) = false
is_primitive _ = true

char_at-is_primitive : (s : Text) (n : ℕ) → is_primitive (char_at s n) ≡ true
unfolding char_at
char_at-is_primitive [] n = refl
char_at-is_primitive (c ∷ s) zero = refl
char_at-is_primitive (c ∷ s) (suc n) = char_at-is_primitive s n

char_of-is_primitive : (s : Text) (i : Option ℕ) → is_primitive (char_of s i) ≡ true
char_of-is_primitive s none = refl
char_of-is_primitive s (some n) = char_at-is_primitive s n

get_key-is_primitive :
    (h : Heap) (v : Value) (k : Text) → is_primitive v ≡ true → is_primitive (get_key h v k) ≡ true
unfolding get_key
get_key-is_primitive h (ref a) k e = ground arith
get_key-is_primitive h (string s) k e = elim (Bool-cases (k == js "length")) [
  | inl size ↦ rw (size, get_key) refl
  | inr other ↦ rw (other, get_key) (char_of-is_primitive s (index_of k))
]
get_key-is_primitive h undefined k e = refl
get_key-is_primitive h null k e = refl
get_key-is_primitive h (flag b) k e = refl
get_key-is_primitive h (natural n) k e = refl
get_key-is_primitive h (number s) k e = refl

put_key_primitive :
    (h : Heap) (v : Value) (k : Text) (new : Value)
    → is_primitive v ≡ true
    → put_key h v k new ≡ none
unfolding put_key
put_key_primitive h (ref a) k new e = ground arith
put_key_primitive h (string s) k new e = refl
put_key_primitive h undefined k new e = refl
put_key_primitive h null k new e = refl
put_key_primitive h (flag b) k new e = refl
put_key_primitive h (natural n) k new e = refl
put_key_primitive h (number s) k new e = refl

-- Below a primitive nothing is set: it throws.
set_value_at_path_primitive :
    (h : Heap) (v : Value) (k : Text) (ks : List Text) (new : Value)
    → is_primitive v ≡ true
    → set_value_at_path h v (k ∷ ks) new ≡ none
unfolding set_value_at_path
set_value_at_path_primitive h v k [] new e = put_key_primitive h v k new e
set_value_at_path_primitive h v k (j ∷ ks) new e = elim (Bool-cases (is_nullish (get_key h v k))) [
  | inl bare ↦
      rw (bare, set_value_at_path, put_key_primitive (h ++ container j ∷ []) v k (ref (length h)) e)
        refl
  | inr held ↦
      rw (held, set_value_at_path)
        (set_value_at_path_primitive h (get_key h v k) j ks new (get_key-is_primitive h v k e))
]

-- A step on the way that makes a new object.
pub record Made (h h' : Heap) (a : ℕ) (k : Text) (rest : List Text) (v : Value) : Type 0 where
  pub made : Object
  pub bare : made.fields ≡ []
  pub heap : Heap
  pub missing : is_nullish (get_key h (ref a) k) ≡ true
  pub put : put_key (h ++ made ∷ []) (ref a) k (ref (length h)) ≡ some heap
  pub then_set : set_value_at_path heap (ref (length h)) rest v ≡ some h'

-- A step on the way to an object that is there.
pub record Followed (h h' : Heap) (a : ℕ) (k : Text) (rest : List Text) (v : Value) : Type 0 where
  pub next : ℕ
  pub held : get_key h (ref a) k ≡ ref next
  pub then_set : set_value_at_path h (ref next) rest v ≡ some h'

container-fields : (j : Text) → (container j).fields ≡ []
container-fields j = ground arith

primitive_cases : (v : Value) → (is_primitive v ≡ true) ⊎ ((d : ℕ) × (v ≡ ref d))
primitive_cases undefined = inl refl
primitive_cases null = inl refl
primitive_cases (flag b) = inl refl
primitive_cases (string s) = inl refl
primitive_cases (natural n) = inl refl
primitive_cases (number s) = inl refl
primitive_cases (ref d) = inr (d, refl)

pub set_step :
    (h h' : Heap) (a : ℕ) (k j : Text) (ks : List Text) (v : Value)
    → set_value_at_path h (ref a) (k ∷ j ∷ ks) v ≡ some h'
    → Made h h' a k (j ∷ ks) v ⊎ Followed h h' a k (j ∷ ks) v
unfolding set_value_at_path
set_step h h' a k j ks v e = elim (Bool-cases (is_nullish (get_key h (ref a) k))) [
  | inl missing ↦ elim (Option-cases (put_key (h ++ container j ∷ []) (ref a) k (ref (length h)))) [
    | inl thrown ↦ ground arith
    | inr (heap, p) ↦ inl (record {
      made = container j;
      bare = container-fields j;
      heap = heap;
      missing = missing;
      put = p;
      then_set = ground arith;
    })
  ]
  | inr there ↦
      let on : set_value_at_path h (get_key h (ref a) k) (j ∷ ks) v ≡ some h' = ground arith in
      elim (primitive_cases (get_key h (ref a) k)) [
        | inl p ↦ ground (arith, set_value_at_path_primitive h (get_key h (ref a) k) j ks v p)
        | inr (d, p) ↦ inr (record {
          next = d;
          held = p;
          then_set = subst (λ x. set_value_at_path h x (j ∷ ks) v ≡ some h') p on;
        })
      ]
]

-- The step at the beginning of a path that goes on.
pub step_cases :
    (h h' : Heap) (a : ℕ) (k : Text) (q : List Text) (x : Text) (r : List Text) (v : Value)
    → set_value_at_path h (ref a) (k ∷ (q ++ x ∷ r)) v ≡ some h'
    → Made h h' a k (q ++ x ∷ r) v ⊎ Followed h h' a k (q ++ x ∷ r) v
step_cases h h' a k [] x r v e = set_step h h' a k x r v e
step_cases h h' a k (j ∷ q) x r v e = set_step h h' a k j (q ++ x ∷ r) v e
