-- ===== src/Js/Entries.antt =====
-- `Map`: a list of entries in insertion order. `set` of a present key keeps its place.
use luna_mbt.Prelude.{
  suc, ◌≡◌, ◌≢◌, refl, ap, Bool, true, false, ◌||◌, Option, none, some, List, [], ◌∷◌, ◌++◌, arith,
  Eq, ◌==◌, if◌then◌else◌, length, includes, IsDistinct, beq_self, beq_comm,
}

module _ {ℓ κ} {K : Type ℓ} {V : Type κ} where
  abbrev pub keys : List (K × V) → List K
  keys [] = []
  keys ((k, v) ∷ m) = k ∷ keys m

  pub length-keys : (m : List (K × V)) → length (keys m) ≡ length m
  length-keys [] = refl
  length-keys ((k, v) ∷ m) = ap suc (length-keys m)

module _ {ℓ κ} {K : Type ℓ} {V : Type κ} ⦃e : Eq K⦄ where
  -- `m.get(k)`; also `o[k]` for a record used as a dictionary
  unfoldable pub get : List (K × V) → K → Option V
  get [] k = none
  get ((j, v) ∷ m) k = if j == k then some v else get m k

  -- `m.has(k)`
  unfoldable pub has : List (K × V) → K → Bool
  has [] k = false
  has ((j, v) ∷ m) k = (j == k) || has m k

  -- `m.set(k, v)`
  unfoldable pub put : List (K × V) → K → V → List (K × V)
  put [] k v = (k, v) ∷ []
  put ((j, w) ∷ m) k v = if j == k then (j, v) ∷ m else (j, w) ∷ put m k v

  -- `m.delete(k)`
  unfoldable pub delete : List (K × V) → K → List (K × V)
  delete [] k = []
  delete ((j, w) ∷ m) k = if j == k then m else (j, w) ∷ delete m k

  pub get-put :
      (m : List (K × V)) (k j : K) (v : V)
      → get (put m k v) j ≡ (if k == j then some v else get m j)
  unfolding get put
  get-put [] k j v = refl
  get-put ((i, w) ∷ m) k j v =
      ground (arith, e.beq_iff k j, e.beq_iff i k, e.beq_iff i j, get-put m k j v)

  pub get-put_self : (m : List (K × V)) (k : K) (v : V) → get (put m k v) k ≡ some v
  get-put_self m k v = ground (arith, get-put m k k v, beq_self k)

  pub includes-keys : (m : List (K × V)) (k : K) → includes (keys m) k ≡ has m k
  unfolding includes has
  includes-keys [] k = refl
  includes-keys ((j, v) ∷ m) k = ground (arith, includes-keys m k)

  pub get-eq-none : (m : List (K × V)) (k : K) → has m k ≡ false → get m k ≡ none
  unfolding get has
  get-eq-none [] k h = refl
  get-eq-none ((j, v) ∷ m) k h = ground (arith, get-eq-none m k)

  pub get_of_has : (m : List (K × V)) (k : K) → has m k ≡ true → get m k ≢ none
  unfolding get has
  get_of_has [] k h = cc
  get_of_has ((j, v) ∷ m) k h = ground (arith, get_of_has m k)

  pub has-put : (m : List (K × V)) (k j : K) (v : V) → has (put m k v) j ≡ ((k == j) || has m j)
  unfolding has put
  has-put [] k j v = refl
  has-put ((i, w) ∷ m) k j v =
      ground (arith, e.beq_iff k j, e.beq_iff i k, e.beq_iff i j, has-put m k j v)

  -- A new key goes last; the size grows by one.
  pub put_new : (m : List (K × V)) (k : K) (v : V) → has m k ≡ false → put m k v ≡ m ++ (k, v) ∷ []
  unfolding has put
  put_new [] k v h = refl
  put_new ((i, w) ∷ m) k v h = ground (arith, put_new m k v)

  pub keys-put_old : (m : List (K × V)) (k : K) (v : V) → has m k ≡ true → keys (put m k v) ≡ keys m
  unfolding has put
  keys-put_old [] k v h = cc
  keys-put_old ((i, w) ∷ m) k v h = ground (arith, keys-put_old m k v)

  pub length-put_old :
      (m : List (K × V)) (k : K) (v : V) → has m k ≡ true → length (put m k v) ≡ length m
  unfolding has put
  length-put_old [] k v h = cc
  length-put_old ((i, w) ∷ m) k v h = ground (arith, length-put_old m k v)

  pub includes-keys-put_ne :
      (m : List (K × V)) (k j : K) (v : V)
      → (k == j) ≡ false
      → includes (keys (put m k v)) j ≡ includes (keys m) j
  unfolding put includes
  includes-keys-put_ne [] k j v h = ground arith
  includes-keys-put_ne ((i, w) ∷ m) k j v h = ground (arith, includes-keys-put_ne m k j v)

  -- `set` keeps the keys distinct.
  pub put-IsDistinct :
      (m : List (K × V)) (k : K) (v : V) → IsDistinct (keys m) → IsDistinct (keys (put m k v))
  unfolding put includes
  put-IsDistinct [] k v h = (refl, tt)
  put-IsDistinct ((i, w) ∷ m) k v h =
      ground (arith, includes-keys-put_ne m k i v, put-IsDistinct m k v, beq_comm i k)
