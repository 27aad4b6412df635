-- ===== src/Js/Removal.antt =====
-- `Map.prototype.delete`, and `removeAttribute`.
use luna_mbt.Js.Entries.{keys, get, has, delete, includes-keys, get-eq-none}
use luna_mbt.Js.Keys
use luna_mbt.Js.Keys.{includes-delete_ne, includes-delete_self, delete-IsDistinct}
use luna_mbt.Prelude.{◌≡◌, refl, true, false, none, List, [], ◌∷◌, arith, Eq, ◌==◌, IsDistinct}

module _ {ℓ κ} {K : Type ℓ} {V : Type κ} ⦃e : Eq K⦄ where
  pub keys-delete : (m : List (K × V)) (k : K) → keys (delete m k) ≡ Keys.delete (keys m) k
  unfolding delete Keys.delete
  keys-delete [] k = refl
  keys-delete ((j, v) ∷ m) k = ground (arith, keys-delete m k)

  pub IsDistinct-keys-delete :
      (m : List (K × V)) (k : K) → IsDistinct (keys m) → IsDistinct (keys (delete m k))
  IsDistinct-keys-delete m k h = rw (keys-delete m k) (delete-IsDistinct (keys m) k h)

  pub has-delete :
      (m : List (K × V)) (k j : K)
      → IsDistinct (keys m)
      → has (delete m k) j ≡ true
      → ((k == j) ≡ false) × (has m j ≡ true)
  has-delete m k j h p = ground (
    arith,
    includes-keys (delete m k) j,
    includes-keys m j,
    keys-delete m k,
    includes-delete_ne (keys m) k j,
    includes-delete_self (keys m) k h,
    e.beq_iff k j,
  )

  pub has-delete_ne : (m : List (K × V)) (k j : K) → (k == j) ≡ false → has (delete m k) j ≡ has m j
  has-delete_ne m k j h = ground (
    arith,
    includes-keys (delete m k) j,
    includes-keys m j,
    keys-delete m k,
    includes-delete_ne (keys m) k j,
  )

  pub has-delete_self :
      (m : List (K × V)) (k : K) → IsDistinct (keys m) → has (delete m k) k ≡ false
  has-delete_self m k h =
      ground
        (arith, includes-keys (delete m k) k, keys-delete m k, includes-delete_self (keys m) k h)

  pub get-delete_ne : (m : List (K × V)) (k j : K) → (k == j) ≡ false → get (delete m k) j ≡ get m j
  unfolding get delete
  get-delete_ne [] k j h = refl
  get-delete_ne ((i, v) ∷ m) k j h =
      ground (arith, e.beq_iff k j, e.beq_iff i k, e.beq_iff i j, get-delete_ne m k j)

  pub get-delete_self : (m : List (K × V)) (k : K) → IsDistinct (keys m) → get (delete m k) k ≡ none
  get-delete_self m k h = get-eq-none (delete m k) k (has-delete_self m k h)
