-- ===== src/Luna/Props/Split.antt =====
-- The parts of split props (js/luna/src/index.ts).
use luna_mbt.Js.Entries.{keys, get, has, put, delete, get-put}
use luna_mbt.Js.Removal.{IsDistinct-keys-delete, get-delete_ne, get-delete_self}
use luna_mbt.Loader.Chunks.Once.{one_if}
use luna_mbt.Luna.Props.{Prop, extract, split_props}
use luna_mbt.Prelude.{
  ◌≡◌, refl, ◌∙◌, inl, inr, Bool, true, false, Option, none, some, List, [], ◌∷◌, arith, Text,
  text_eq, text_beq_iff, ◌==◌, All, All-map, count, IsDistinct, Bool-cases, Option-cases,
}

abbrev is_some : Option Prop → Bool
is_some none = false
is_some (some v) = true

has-get : (m : List (Text × Prop)) (k : Text) → has m k ≡ is_some (get m k)
unfolding has get
has-get [] k = refl
has-get ((j, v) ∷ m) k = ground (arith, has-get m k)

-- The value of a key in one of two objects.
abbrev either : Option Prop → Option Prop → Option Prop
either none o = o
either (some v) o = some v

-- An object is split in two: the second has distinct keys, no key is in both, and each key has the
-- value that it had.
record IsSplit (props a b : List (Text × Prop)) : Type 0 where
  once : IsDistinct (keys b)
  apart : (k : Text) → is_some (get a k) ≡ true → get b k ≡ none
  same : (k : Text) → either (get a k) (get b k) ≡ get props k

extract_one :
    (props a b : List (Text × Prop)) (key : Text) (v : Prop)
    → get b key ≡ some v
    → IsSplit props a b
    → IsSplit props (put a key v) (delete b key)
extract_one props a b key v e h = record {
  once = IsDistinct-keys-delete b key h.once;
  apart = λ k p. elim (Bool-cases (key == k)) [
    | inl same ↦ ground (arith, text_beq_iff key k, get-delete_self b key h.once)
    | inr other ↦ get-delete_ne b key k other ∙ h.apart k (ground (arith, other, get-put a key k v))
  ];
  same = λ k. elim (Bool-cases (key == k)) [
    | inl same ↦ ground (arith, text_beq_iff key k, e, h.same key, h.apart key, get-put a key key v)
    | inr other ↦ rw (get-delete_ne b key k other, get-put a key k v, other) (h.same k)
  ];
}

extract-IsSplit :
    (props a b : List (Text × Prop)) (ks : List Text)
    → IsSplit props a b
    → IsSplit props (extract a b ks).0 (extract a b ks).1
unfolding extract
extract-IsSplit props a b [] h = h
extract-IsSplit props a b (key ∷ ks) h = elim (Option-cases (get b key)) [
  | inl e ↦ rw (e, extract) (extract-IsSplit props a b ks h)
  | inr (v, e) ↦
      rw (e, extract)
        (extract-IsSplit props (put a key v) (delete b key) ks (extract_one props a b key v e h))
]

start-IsSplit : (props : List (Text × Prop)) → IsDistinct (keys props) → IsSplit props [] props
unfolding get
start-IsSplit props h = record { once = h; apart = λ k. cc; same = λ k. refl }

part_get :
    (props a b r : List (Text × Prop)) (k : Text)
    → IsSplit props a b
    → (has r k ≡ true → get r k ≡ get b k)
    → has r k ≡ true
    → get r k ≡ get props k
part_get props a b r k split inner e =
    ground (arith, inner e, has-get r k, split.apart k, split.same k)

-- Of an object of distinct keys, each key that it has is in exactly one of the parts, whatever the
-- lists of keys, and each key of a part has the value that it has in the object.
pub count-split_props :
    (props : List (Text × Prop)) (lists : List (List Text)) (k : Text)
    → IsDistinct (keys props)
    → (count (λ r. has r k) (split_props props lists) ≡ one_if (has props k))
      × All (λ r. has r k ≡ true → get r k ≡ get props k) (split_props props lists)
unfolding split_props count
count-split_props props [] k h = (ground arith, (λ e. refl, tt))
count-split_props props (ks ∷ lists) k h =
    let split = extract-IsSplit props [] props ks (start-IsSplit props h) in
    let a = (extract [] props ks).0 in
    let b = (extract [] props ks).1 in
    let rest = count-split_props b lists k split.once in
    (
      ground
          (arith, rest.0, has-get a k, has-get b k, has-get props k, split.apart k, split.same k),
      (
        λ e. ground (arith, e, has-get a k, split.same k),
        All-map (λ r. has r k ≡ true → get r k ≡ get b k)
            (λ r. has r k ≡ true → get r k ≡ get props k) (λ r. part_get props a b r k split)
            (split_props b lists) (rest.1),
      ),
    )
