-- ===== src/Scroll/Reload.antt =====
-- A position survives a reload of the page.
use luna_mbt.Js.Entries.{has, put, put_new, length-put_old}
use luna_mbt.Prelude.{
  zero, suc, ◌+◌, ◌-◌, ◌≤◌, ◌<◌, ◌≡◌, refl, ◌∙◌, inl, inr, true, false, some, List, [], ◌∷◌, ◌++◌,
  arith, Text, text_eq, ltb, length, take, length-append, beq_self, Bool-cases, ℕ, ltb→lt, ap,
}
use luna_mbt.Scroll.{
  Storage, Codec, ScrollManager, construct, cleanup, record_position, save, position_of,
}
use luna_mbt.Scroll.Eviction.{IsBounded}
use luna_mbt.Scroll.Persistence.{IsStorage, IsCodec, position_of-construct, remove_entries-get_item}

module _ {V : Type 0} where
  has-take : (n : ℕ) (m : List (Text × V)) (k : Text) → has m k ≡ false → has (take n m) k ≡ false
  unfolding has
  has-take zero m k h = refl
  has-take (suc n) [] k h = refl
  has-take (suc n) ((j, w) ∷ m) k h = ground (arith, has-take n m k)

  take-append_of_le :
      (n : ℕ) (xs ys : List (Text × V)) → n ≤ length xs → take n (xs ++ ys) ≡ take n xs
  take-append_of_le zero xs ys h = refl
  take-append_of_le (suc n) [] ys h = absurd (omega arith)
  take-append_of_le (suc n) (x ∷ xs) ys h = ap (◌∷◌ x) (take-append_of_le n xs ys (omega arith))

module _ {Store Position : Type 0} (io : Storage Store) (json : Codec Position) where
  -- The path that `save` writes is not among the entries that it then evicts.
  evicted_other :
      (path : Text) (position : Position) (m : ScrollManager Store Position)
      → IsBounded m
      → 0 < m.options.max_entries
      → m.options.max_entries < length (put m.positions path position)
      → has
          (take
            (length (put m.positions path position) - m.options.max_entries)
            (put m.positions path position))
          path
        ≡ false
  evicted_other path position m h room over = elim (Bool-cases (has m.positions path)) [
    | inl old ↦ absurd (omega (arith, length-put_old m.positions path position old, h.fits))
    | inr new ↦
        let grown : length (m.positions ++ (path, position) ∷ []) ≡ length m.positions + 1 =
          omega (arith, length-append m.positions ((path, position) ∷ [])) in
        rw (put_new m.positions path position new, grown)
          (rw
            (take-append_of_le (length m.positions + 1 - m.options.max_entries) m.positions
              ((path, position) ∷ []) (omega arith))
            (has-take (length m.positions + 1 - m.options.max_entries) m.positions path new))
  ]

  save-get_item :
      (path : Text) (position : Position) (m : ScrollManager Store Position) (s' : Store)
      → IsStorage io
      → IsBounded m
      → 0 < m.options.max_entries
      → m.options.use_storage ≡ true
      → io.set_item m.storage (m.options.storage_prefix ++ path) (json.stringify position) ≡ some s'
      → io.get_item (save io json path position m).storage (m.options.storage_prefix ++ path)
        ≡ some (json.stringify position)
  unfolding save cleanup record_position
  save-get_item path position m s' law h room used set =
      let key = m.options.storage_prefix ++ path in
      let kept = put m.positions path position in
      let written : io.get_item s' key ≡ some (json.stringify position) =
        law.get-set m.storage s' key key (json.stringify position) set ∙ rw (beq_self key) in
      let m' = record_position io json path position m in
      let holds : io.get_item m'.storage key ≡ some (json.stringify position) =
        ground (arith, written) in
      elim (Bool-cases (ltb m.options.max_entries (length kept))) [
        | inl over ↦ rw over (
            remove_entries-get_item io json path (take (length kept - m.options.max_entries) kept)
              m' law (evicted_other path position m h room (ltb→lt _ _ over))
            ∙ holds)
        | inr fits ↦ rw fits holds
      ]

  -- For a storage that keeps its laws, a codec that is inverse on positions, and a manager that uses
  -- its storage, has room for an entry and at most as many entries as its bound: if the storage
  -- takes the write, a manager that starts on the storage that a save left, as after a reload, knows
  -- the saved position, also where the save evicted older entries.
  pub save-construct :
      (path : Text) (position : Position) (m : ScrollManager Store Position) (s' : Store)
      → IsStorage io
      → IsCodec json
      → IsBounded m
      → 0 < m.options.max_entries
      → m.options.use_storage ≡ true
      → io.set_item m.storage (m.options.storage_prefix ++ path) (json.stringify position) ≡ some s'
      → position_of (construct io json m.options (save io json path position m).storage) path
        ≡ some position
  save-construct path position m s' law codec h room used set =
      position_of-construct io json m.options (save io json path position m).storage path law used
      ∙ rw (save-get_item path position m s' law h room used set, codec.filled position)
          (codec.inverse position)
