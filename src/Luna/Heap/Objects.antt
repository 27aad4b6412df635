-- ===== src/Luna/Heap/Objects.antt =====
-- What reading gives after an allocation or a write (js/luna/src/index.ts).
use luna_mbt.Js.Entries.{get-put, get-put_self}
use luna_mbt.Luna.Heap.{
  Value, ref, Heap, Object, object_at, write_at, field_of, field_at, get_key, put_field, put_key,
  is_nullish,
}
use luna_mbt.Prelude.{
  ℕ, zero, suc, ◌≡◌, ◌≢◌, ◌<◌, refl, sym, ap, ◌∙◌, inl, inr, true, some, ◌∷◌, [], ◌++◌, length,
  arith, Text, text_eq, text_beq_iff, nat_beq, nat_beq_iff, Bool-cases, Option-cases,
}

pub object_at-append :
    (h : Heap) (o : Object) (c : ℕ) → c < length h → object_at (h ++ o ∷ []) c ≡ object_at h c
unfolding object_at
object_at-append [] o c h = absurd (omega arith)
object_at-append (p ∷ h) o zero lt = refl
object_at-append (p ∷ h) o (suc c) lt = object_at-append h o c (omega arith)

pub object_at_new : (h : Heap) (o : Object) → object_at (h ++ o ∷ []) (length h) ≡ some o
unfolding object_at
object_at_new [] o = refl
object_at_new (p ∷ h) o = object_at_new h o

pub object_at-lt : (h : Heap) (c : ℕ) (o : Object) → object_at h c ≡ some o → c < length h
unfolding object_at
object_at-lt [] c o e = ground arith
object_at-lt (p ∷ h) zero o e = omega arith
object_at-lt (p ∷ h) (suc c) o e = let lt = object_at-lt h c o e in omega arith

pub object_at-write_at_ne :
    (h : Heap) (a c : ℕ) (o : Object) → a ≢ c → object_at (write_at h a o) c ≡ object_at h c
unfolding object_at write_at
object_at-write_at_ne [] a c o other = refl
object_at-write_at_ne (p ∷ h) zero zero o other = absurd (other refl)
object_at-write_at_ne (p ∷ h) zero (suc c) o other = refl
object_at-write_at_ne (p ∷ h) (suc a) zero o other = refl
object_at-write_at_ne (p ∷ h) (suc a) (suc c) o other =
    object_at-write_at_ne h a c o (λ e. other (ap suc e))

pub object_at-write_at_self :
    (h : Heap) (a : ℕ) (o : Object) → a < length h → object_at (write_at h a o) a ≡ some o
unfolding object_at write_at
object_at-write_at_self [] a o lt = absurd (omega arith)
object_at-write_at_self (p ∷ h) zero o lt = refl
object_at-write_at_self (p ∷ h) (suc a) o lt = object_at-write_at_self h a o (omega arith)

-- The new field where there was none
field_of-put_field :
    (o o' : Object) (k : Text) (v : Value)
    → is_nullish (field_of o k) ≡ true
    → put_field o k v ≡ some o'
    → field_of o' k ≡ v
unfolding put_field
field_of-put_field o o' k v bare h = ground (arith, get-put_self o.fields k v)

-- Fields that hold objects stay where a field is written that held none.
field_of-put_field_ref :
    (o o' : Object) (k j : Text) (v : Value) (d : ℕ)
    → is_nullish (field_of o k) ≡ true
    → put_field o k v ≡ some o'
    → field_of o j ≡ ref d
    → field_of o' j ≡ ref d
unfolding put_field
field_of-put_field_ref o o' k j v d bare h e =
    ground (arith, get-put o.fields k j v, text_beq_iff k j)

-- What a successful write is
pub record Write (h h' : Heap) (a : ℕ) (k : Text) (v : Value) : Type 0 where
  pub before : Object
  pub after_it : Object
  pub there : object_at h a ≡ some before
  pub field : put_field before k v ≡ some after_it
  pub heap : h' ≡ write_at h a after_it

pub put_key-Write :
    (h h' : Heap) (a : ℕ) (k : Text) (v : Value)
    → put_key h (ref a) k v ≡ some h'
    → Write h h' a k v
unfolding put_key
put_key-Write h h' a k v e = elim (Option-cases (object_at h a)) [
  | inl missing ↦ ground arith
  | inr (o, there) ↦ elim (Option-cases (put_field o k v)) [
    | inl thrown ↦ ground arith
    | inr (o', field) ↦ record {
      before = o;
      after_it = o';
      there = there;
      field = field;
      heap = ground arith;
    }
  ]
]

-- A write leaves the other objects.
pub object_at-put_key :
    (h h' : Heap) (a c : ℕ) (k : Text) (v : Value)
    → put_key h (ref a) k v ≡ some h'
    → a ≢ c
    → object_at h' c ≡ object_at h c
object_at-put_key h h' a c k v e other =
    let w = put_key-Write h h' a k v e in
    ap (λ x. object_at x c) w.heap ∙ object_at-write_at_ne h a c w.after_it other

pub get_key-object_at :
    (h h' : Heap) (c : ℕ) (k : Text)
    → object_at h' c ≡ object_at h c
    → get_key h' (ref c) k ≡ get_key h (ref c) k
unfolding get_key
get_key-object_at h h' c k e = ap (λ o. field_at o k) e

pub get_key-put_key :
    (h h' : Heap) (a : ℕ) (k : Text) (v : Value)
    → is_nullish (get_key h (ref a) k) ≡ true
    → put_key h (ref a) k v ≡ some h'
    → get_key h' (ref a) k ≡ v
unfolding get_key
get_key-put_key h h' a k v bare e =
    let w = put_key-Write h h' a k v e in
    let now =
      ap (λ x. object_at x a) w.heap
      ∙ object_at-write_at_self h a w.after_it (object_at-lt h a w.before w.there) in
    ap (λ o. field_at o k) now
    ∙ field_of-put_field w.before w.after_it k v
        (ap (λ o. is_nullish (field_at o k)) (sym w.there) ∙ bare) w.field

pub get_key-put_key_ref :
    (h h' : Heap) (a c d : ℕ) (k j : Text) (v : Value)
    → is_nullish (get_key h (ref a) k) ≡ true
    → put_key h (ref a) k v ≡ some h'
    → get_key h (ref c) j ≡ ref d
    → get_key h' (ref c) j ≡ ref d
unfolding get_key
get_key-put_key_ref h h' a c d k j v bare e old = elim (Bool-cases (nat_beq a c)) [
  | inl same ↦
      let p : a ≡ c = (nat_beq_iff a c).0 same in
      let w = put_key-Write h h' a k v e in
      let now =
        ap (λ x. object_at x a) w.heap
        ∙ object_at-write_at_self h a w.after_it (object_at-lt h a w.before w.there) in
      let held : field_of w.before j ≡ ref d =
        ap (λ o. field_at o j) (sym w.there) ∙ ap (λ x. field_at (object_at h x) j) p ∙ old in
      ap (λ x. field_at (object_at h' x) j) (sym p)
      ∙ ap (λ o. field_at o j) now
      ∙ field_of-put_field_ref w.before w.after_it k j v d
          (ap (λ o. is_nullish (field_at o k)) (sym w.there) ∙ bare) w.field held
  | inr other ↦
      get_key-object_at h h' c j
        (object_at-put_key h h' a c k v e (λ p. ground (arith, nat_beq_iff a c)))
      ∙ old
]
