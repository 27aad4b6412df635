-- ===== src/Prelude/Members.antt =====
-- Membership by an equality instance, and lists without repetition.
use mathlib.Core.Bool.{Bool, true, false, ◌||◌}
use mathlib.Core.List.{List, [], ◌∷◌, ◌++◌}
use mathlib.Core.Path.{◌≡◌, refl}
use native.Mathlib.Omega.{arith}
use luna_mbt.Prelude.Tests.{Eq, ◌==◌}

module _ {ℓ} {A : Type ℓ} ⦃e : Eq A⦄ where
  -- `Array.prototype.includes`, `Set.prototype.has`
  unfoldable pub includes : List A → A → Bool
  includes [] a = false
  includes (x ∷ xs) a = (x == a) || includes xs a

  -- No element twice.
  abbrev pub IsDistinct : List A → Type 0
  IsDistinct [] = Unit
  IsDistinct (x ∷ xs) = (includes xs x ≡ false) × IsDistinct xs

  pub includes-append :
      (xs ys : List A) (a : A) → includes (xs ++ ys) a ≡ (includes xs a || includes ys a)
  unfolding includes
  includes-append [] ys a = refl
  includes-append (x ∷ xs) ys a = ground (arith, includes-append xs ys a)

  pub includes-snoc :
      (xs : List A) (b a : A) → includes (xs ++ b ∷ []) a ≡ (includes xs a || (b == a))
  unfolding includes
  includes-snoc [] b a = ground arith
  includes-snoc (x ∷ xs) b a = ground (arith, includes-snoc xs b a)

  pub beq_self : (a : A) → (a == a) ≡ true
  beq_self a = (e.beq_iff a a).1 refl

  pub beq_comm : (a b : A) → (a == b) ≡ (b == a)
  beq_comm a b = ground (arith, e.beq_iff a b, e.beq_iff b a)

  pub IsDistinct-snoc :
      (xs : List A) (b : A) → IsDistinct xs → includes xs b ≡ false → IsDistinct (xs ++ b ∷ [])
  unfolding includes
  IsDistinct-snoc [] b h n = (refl, tt)
  IsDistinct-snoc (x ∷ xs) b (p, h) n =
      (ground (arith, includes-snoc xs b x, beq_comm x b), IsDistinct-snoc xs b h (ground arith))
