-- ===== src/Scroll/Eviction.antt =====
-- What `save` keeps: the bound on the number of entries, and which entries go.
use luna_mbt.Js.Entries.{
  get, has, put, delete, keys, get-put_self, put_new, length-put_old, keys-put_old, put-IsDistinct,
}
use luna_mbt.Prelude.{
  ℕ, zero, suc, ◌+◌, ◌-◌, ◌≤◌, ◌<◌, ◌≡◌, refl, ap, ◌∙◌, inl, inr, true, false, some, List, [], ◌∷◌,
  ◌++◌, arith, Text, text_eq, if◌then◌else◌, length, take, drop, length-append, length-drop,
  drop-append_of_le, IsDistinct, beq_self, Bool-cases,
}
use luna_mbt.Scroll.{
  Storage, Codec, ScrollManager, remove_entries, cleanup, record_position, save, position_of,
}

-- Within the bound, and no path twice.
pub record IsBounded {Store Position : Type 0} (m : ScrollManager Store Position) : Type 0 where
  pub fits : length m.positions ≤ m.options.max_entries
  pub distinct : IsDistinct (keys m.positions)

module _ {V : Type 0} where
  keys-drop : (n : ℕ) (m : List (Text × V)) → keys (drop n m) ≡ drop n (keys m)
  keys-drop zero m = refl
  keys-drop (suc n) [] = refl
  keys-drop (suc n) ((k, v) ∷ m) = keys-drop n m

  keys-append : (m n : List (Text × V)) → keys (m ++ n) ≡ keys m ++ keys n
  keys-append [] n = refl
  keys-append ((k, v) ∷ m) n = ap (◌∷◌ k) (keys-append m n)

  delete_head : (k : Text) (v : V) (m : List (Text × V)) → delete ((k, v) ∷ m) k ≡ m
  unfolding delete
  delete_head k v m = ground (arith, beq_self k)

  get_last :
      (m : List (Text × V)) (k : Text) (v : V) → has m k ≡ false → get (m ++ (k, v) ∷ []) k ≡ some v
  unfolding get has
  get_last [] k v h = ground (arith, beq_self k)
  get_last ((j, w) ∷ m) k v h = ground (arith, get_last m k v)

module _ {V : Type 0} where
  has-drop : (n : ℕ) (m : List (Text × V)) (k : Text) → has m k ≡ false → has (drop n m) k ≡ false
  unfolding has
  has-drop zero m k h = h
  has-drop (suc n) [] k h = refl
  has-drop (suc n) ((j, w) ∷ m) k h = has-drop n m k (ground arith)

drop-IsDistinct : (n : ℕ) (xs : List Text) → IsDistinct xs → IsDistinct (drop n xs)
drop-IsDistinct zero xs h = h
drop-IsDistinct (suc n) [] h = tt
drop-IsDistinct (suc n) (x ∷ xs) h = drop-IsDistinct n xs h.1

module _ {V : Type 0} where
  -- The last `n` entries.
  unfoldable pub newest : ℕ → List (Text × V) → List (Text × V)
  newest n m = drop (length m - n) m

  newest_all : (n : ℕ) (m : List (Text × V)) → length m ≤ n → newest n m ≡ m
  unfolding newest
  newest_all n m h = let e : length m - n ≡ 0 = omega arith in rw e

  length-newest : (n : ℕ) (m : List (Text × V)) → length (newest n m) ≤ n
  unfolding newest
  length-newest n m = omega (arith, length-drop (length m - n) m)

  newest-IsDistinct :
      (n : ℕ) (m : List (Text × V)) → IsDistinct (keys m) → IsDistinct (keys (newest n m))
  unfolding newest
  newest-IsDistinct n m h =
      rw (keys-drop (length m - n) m) (drop-IsDistinct (length m - n) (keys m) h)

  newest-snoc :
      (n : ℕ) (m : List (Text × V)) (e : Text × V)
      → 0 < n
      → newest n (m ++ e ∷ []) ≡ drop (length m + 1 - n) m ++ e ∷ []
  unfolding newest
  newest-snoc n m e h =
      let same : length (m ++ e ∷ []) ≡ length m + 1 = omega (arith, length-append m (e ∷ [])) in
      rw same (drop-append_of_le (length m + 1 - n) m (e ∷ []) (omega arith))

module _ {Store Position : Type 0} (io : Storage Store) (json : Codec Position) where
  remove_entries_lem :
      (n : ℕ) (ps : List (Text × Position)) (m : ScrollManager Store Position)
      → m.positions ≡ ps
      → ((remove_entries io json (take n ps) m).positions ≡ drop n ps)
        × ((remove_entries io json (take n ps) m).options ≡ m.options)
  unfolding remove_entries
  remove_entries_lem zero ps m e = (e, refl)
  remove_entries_lem (suc n) [] m e = (e, refl)
  remove_entries_lem (suc n) ((k, v) ∷ ps) m e =
      remove_entries_lem n ps _ (rw e (delete_head k v ps))

  cleanup_lem :
      (m : ScrollManager Store Position)
      → ((cleanup io json m).positions ≡ newest m.options.max_entries m.positions)
        × ((cleanup io json m).options ≡ m.options)
  unfolding cleanup newest
  cleanup_lem m = remove_entries_lem _ m.positions m refl

  record_position_lem :
      (path : Text) (position : Position) (m : ScrollManager Store Position)
      → ((record_position io json path position m).positions ≡ put m.positions path position)
        × ((record_position io json path position m).options ≡ m.options)
  unfolding record_position
  record_position_lem path position m = (refl, refl)

  -- After saving, the positions are the map with the new one set, cut to the newest entries that
  -- the options allow, and the options are unchanged.
  pub save_lem :
      (path : Text) (position : Position) (m : ScrollManager Store Position)
      → ((save io json path position m).positions
          ≡ newest m.options.max_entries (put m.positions path position))
        × ((save io json path position m).options ≡ m.options)
  unfolding save
  save_lem path position m =
      let m' = record_position io json path position m in
      let set = record_position_lem path position m in
      ground (
        arith,
        set,
        cleanup_lem m',
        newest_all m.options.max_entries (put m.positions path position),
      )

  -- Whatever the state before, a save leaves at most `maxEntries` positions.
  length-save :
      (path : Text) (position : Position) (m : ScrollManager Store Position)
      → length (save io json path position m).positions ≤ m.options.max_entries
  length-save path position m =
      rw (save_lem path position m).0
        (length-newest m.options.max_entries (put m.positions path position))

  -- Saving keeps the number of positions within `maxEntries` and their paths distinct.
  save-IsBounded :
      (path : Text) (position : Position) (m : ScrollManager Store Position)
      → IsBounded m
      → IsBounded (save io json path position m)
  save-IsBounded path position m h =
      let after = save_lem path position m in
      record {
        fits = rw (after.1) (length-save path position m);
        distinct = rw (after.0) (
            newest-IsDistinct m.options.max_entries (put m.positions path position)
              (put-IsDistinct m.positions path position h.distinct));
      }

  save_old :
      (path : Text) (position : Position) (m : ScrollManager Store Position)
      → IsBounded m
      → has m.positions path ≡ true
      → (save io json path position m).positions ≡ put m.positions path position
  save_old path position m h old =
      (save_lem path position m).0
      ∙ newest_all m.options.max_entries (put m.positions path position)
          (omega (arith, length-put_old m.positions path position old, h.fits))

  save_new :
      (path : Text) (position : Position) (m : ScrollManager Store Position)
      → 0 < m.options.max_entries
      → has m.positions path ≡ false
      → (save io json path position m).positions
        ≡ drop (length m.positions + 1 - m.options.max_entries) m.positions ++ (path, position) ∷ []
  save_new path position m room new =
      (save_lem path position m).0
      ∙ rw (put_new m.positions path position new)
          (newest-snoc m.options.max_entries m.positions (path, position) room)

  -- With room for an entry, a saved position can be read back at once, also where the save threw
  -- old entries away.
  position_of-save :
      (path : Text) (position : Position) (m : ScrollManager Store Position)
      → IsBounded m
      → 0 < m.options.max_entries
      → position_of (save io json path position m) path ≡ some position
  unfolding position_of
  position_of-save path position m h room = elim (Bool-cases (has m.positions path)) [
    | inl old ↦ rw (save_old path position m h old) (get-put_self m.positions path position)
    | inr new ↦ rw (save_new path position m room new) (
        get_last (drop (length m.positions + 1 - m.options.max_entries) m.positions) path position
          (has-drop (length m.positions + 1 - m.options.max_entries) m.positions path new))
  ]

  -- First in, first out: a path that is saved again keeps its place; a new one goes last, and when
  -- there is no room for it the oldest path goes.
  pub keys-save :
      (path : Text) (position : Position) (m : ScrollManager Store Position)
      → IsBounded m
      → 0 < m.options.max_entries
      → keys (save io json path position m).positions ≡ (
          if has m.positions path
          then keys m.positions
          else drop (length m.positions + 1 - m.options.max_entries) (keys m.positions)
            ++ path ∷ [])
  keys-save path position m h room = elim (Bool-cases (has m.positions path)) [
    | inl old ↦
        rw (save_old path position m h old, old) (keys-put_old m.positions path position old)
    | inr new ↦
        rw (save_new path position m room new, new)
          (keys-append (drop (length m.positions + 1 - m.options.max_entries) m.positions) _
            ∙ rw (keys-drop (length m.positions + 1 - m.options.max_entries) m.positions))
  ]
