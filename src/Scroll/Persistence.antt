-- ===== src/Scroll/Persistence.antt =====
-- What a new manager finds in the session storage that an earlier one wrote.
use luna_mbt.Js.Affix.{starts_with-split, starts_with_append, append_cancel}
use luna_mbt.Js.Entries.{has, delete, get, put, get-put}
use luna_mbt.Js.Text.{is_empty, starts_with}
use luna_mbt.Prelude.{
  ◌≡◌, ◌≢◌, ◌↔◌, refl, ◌∙◌, inl, inr, Bool, true, false, ◌&&◌, Option, none, some, List, [], ◌∷◌,
  ◌++◌, arith, Text, text_eq, text_beq_iff, ◌==◌, if◌then◌else◌, length, drop, drop-length-append,
  filter, All, IsDistinct, includes, beq_self, Bool-cases, Option-cases,
}
use luna_mbt.Scroll.{
  Storage, Codec, Options, ScrollManager, load_key, load_keys, load_from_storage, construct,
  remove_entries, position_of, or_same, remove_entries,
}

-- What the storage standard says of `sessionStorage`, where it is available.
pub record IsStorage {Store : Type 0} (io : Storage Store) : Type 0 where
  pub listing :
      (s : Store)
      → (ks : List Text) × (io.key_list s ≡ some ks)
        × IsDistinct ks
        × ((k : Text) → (includes ks k ≡ true) ↔ (io.get_item s k ≢ none))
  pub get-set :
      (s s' : Store) (k j v : Text)
      → io.set_item s k v ≡ some s'
      → io.get_item s' j ≡ (if k == j then some v else io.get_item s j)
  pub get-remove :
      (s s' : Store) (k j : Text)
      → io.remove_item s k ≡ some s'
      → io.get_item s' j ≡ (if k == j then none else io.get_item s j)

-- A printed position reads back, and is not the empty text.
pub record IsCodec {Position : Type 0} (json : Codec Position) : Type 0 where
  pub inverse : (p : Position) → json.parse (json.stringify p) ≡ some p
  pub filled : (p : Position) → is_empty (json.stringify p) ≡ false

get_empty : {V : Type 0} (path : Text) → get {V = V} [] path ≡ none
unfolding get
get_empty path = refl

append-beq : (p s t : Text) → ((p ++ s) == (p ++ t)) ≡ (s == t)
append-beq p s t = elim (Bool-cases (s == t)) [
  | inl e ↦ rw e (rw ((text_beq_iff s t).0 e) (beq_self (p ++ t)))
  | inr n ↦ ground (arith, text_beq_iff s t, text_beq_iff (p ++ s) (p ++ t), append_cancel p s t)
]

module _ (test : Text → Bool) where
  includes-filter :
      (ks : List Text) (k : Text) → includes (filter test ks) k ≡ (test k && includes ks k)
  unfolding includes filter
  includes-filter [] k = ground arith
  includes-filter (j ∷ ks) k = ground (arith, includes-filter ks k, text_beq_iff j k)

  filter-IsDistinct : (ks : List Text) → IsDistinct ks → IsDistinct (filter test ks)
  unfolding filter
  filter-IsDistinct [] h = tt
  filter-IsDistinct (j ∷ ks) (p, h) = ground (arith, filter-IsDistinct ks h, includes-filter ks j)

  filter-All : (ks : List Text) → All (λ k. test k ≡ true) (filter test ks)
  unfolding filter
  filter-All [] = tt
  filter-All (j ∷ ks) = ground (arith, filter-All ks)

module _ {Store Position : Type 0} (io : Storage Store) (json : Codec Position) where
  -- The position that a stored text stands for.
  abbrev pub stored : Option Text → Option Position
  stored none = none
  stored (some value) = if is_empty value then none else json.parse value

  abbrev either_of : Option Position → Option Position → Option Position
  either_of (some p) old = some p
  either_of none old = old

  abbrev set_found : List (Text × Position) → Text → Option Position → List (Text × Position)
  set_found acc path none = acc
  set_found acc path (some position) = put acc path position

  load_key_found :
      (prefix key : Text) (s : Store) (acc : List (Text × Position))
      → load_key io json prefix s acc key
        ≡ set_found acc (drop (length prefix) key) (stored (io.get_item s key))
  unfolding load_key
  load_key_found prefix key s acc = ground arith

  get-set_found :
      (acc : List (Text × Position)) (r path : Text) (found : Option Position)
      → get (set_found acc r found) path
        ≡ (if r == path then either_of found (get acc path) else get acc path)
  get-set_found acc r path none = ground arith
  get-set_found acc r path (some position) = get-put acc r path position

  load_key_lem :
      (prefix path r : Text) (s : Store) (acc : List (Text × Position))
      → get (load_key io json prefix s acc (prefix ++ r)) path ≡ (
          if r == path
          then either_of (stored (io.get_item s (prefix ++ path))) (get acc path)
          else get acc path)
  load_key_lem prefix path r s acc =
      rw (load_key_found prefix (prefix ++ r) s acc, drop-length-append prefix r)
        (get-set_found acc r path (stored (io.get_item s (prefix ++ r)))
          ∙ elim (Bool-cases (r == path)) [
            | inl e ↦ rw e (rw ((text_beq_iff r path).0 e) refl)
            | inr n ↦ rw n refl
          ])

  load_keys_lem :
      (prefix path : Text) (s : Store) (acc : List (Text × Position)) (ks : List Text)
      → All (λ k. starts_with k prefix ≡ true) ks
      → IsDistinct ks
      → get (load_keys io json prefix s acc ks) path ≡ (
          if includes ks (prefix ++ path)
          then either_of (stored (io.get_item s (prefix ++ path))) (get acc path)
          else get acc path)
  unfolding load_keys includes
  load_keys_lem prefix path s acc [] h d = refl
  load_keys_lem prefix path s acc (k ∷ ks) (p, h) (q, d) =
      let r = drop (length prefix) k in
      ground (
        arith,
        starts_with-split k prefix p,
        load_key_lem prefix path r s acc,
        append-beq prefix r path,
        text_beq_iff k (prefix ++ path),
        load_keys_lem prefix path s (load_key io json prefix s acc k) ks h d,
      )

  -- A manager that starts on a storage has, for each path, the position that is stored under the
  -- path behind the prefix, and nothing where nothing (or no position) is stored.
  pub position_of-construct :
      (o : Options) (s : Store) (path : Text)
      → IsStorage io
      → o.use_storage ≡ true
      → position_of (construct io json o s) path ≡ stored (io.get_item s (o.storage_prefix ++ path))
  unfolding position_of construct load_from_storage
  position_of-construct o s path law used =
      let (ks, listed, distinct, complete) = law.listing s in
      let test : Text → Bool = λ k. starts_with k o.storage_prefix in
      let key = o.storage_prefix ++ path in
      ground (
        arith,
        load_keys_lem o.storage_prefix path s [] (filter test ks) (filter-All test ks)
            (filter-IsDistinct test ks distinct),
        includes-filter test ks key,
        starts_with_append o.storage_prefix path,
        complete key,
        get_empty {V = Position} path,
      )

  -- The storage after one round of the loop of `cleanup`.
  dropped : Text → ScrollManager Store Position → Store
  dropped k m =
      if m.options.use_storage
      then or_same m.storage (io.remove_item m.storage (m.options.storage_prefix ++ k))
      else m.storage

  dropped-get_item :
      (path k : Text) (m : ScrollManager Store Position)
      → IsStorage io
      → (k == path) ≡ false
      → io.get_item (dropped k m) (m.options.storage_prefix ++ path)
        ≡ io.get_item m.storage (m.options.storage_prefix ++ path)
  unfolding dropped
  dropped-get_item path k m law ne =
      let prefix = m.options.storage_prefix in
      elim (Option-cases (io.remove_item m.storage (prefix ++ k))) [
        | inl e ↦ ground arith
        | inr (s', e) ↦ ground (
          arith,
          law.get-remove m.storage s' (prefix ++ k) (prefix ++ path) e,
          append-beq prefix k path,
        )
      ]

  pub remove_entries-get_item :
      (path : Text) (ps : List (Text × Position)) (m : ScrollManager Store Position)
      → IsStorage io
      → has ps path ≡ false
      → io.get_item (remove_entries io json ps m).storage (m.options.storage_prefix ++ path)
        ≡ io.get_item m.storage (m.options.storage_prefix ++ path)
  unfolding remove_entries has dropped
  remove_entries-get_item path [] m law h = refl
  remove_entries-get_item path ((k, p) ∷ ps) m law h =
      remove_entries-get_item path ps
        (record m { positions = delete m.positions k; storage = dropped k m }) law (ground arith)
      ∙ dropped-get_item path k m law (ground arith)
