-- ===== src/Js/Keys.antt =====
-- `Set`: a list without repetition, in insertion order.
use luna_mbt.Prelude.{
  ◌≡◌, refl, false, ◌||◌, List, [], ◌∷◌, ◌++◌, arith, Eq, ◌==◌, if◌then◌else◌, includes, IsDistinct,
  IsDistinct-snoc, includes-snoc,
}

module _ {ℓ} {A : Type ℓ} ⦃e : Eq A⦄ where
  -- `s.add(a)`
  unfoldable pub add : List A → A → List A
  add s a = if includes s a then s else s ++ a ∷ []

  -- `s.delete(a)`
  unfoldable pub delete : List A → A → List A
  delete [] a = []
  delete (x ∷ s) a = if x == a then s else x ∷ delete s a

  pub includes-add : (s : List A) (a b : A) → includes (add s a) b ≡ (includes s b || (a == b))
  unfolding add
  includes-add s a b = ground (arith, includes-snoc s a b, e.beq_iff a b)

  pub add-IsDistinct : (s : List A) (a : A) → IsDistinct s → IsDistinct (add s a)
  unfolding add
  add-IsDistinct s a h = ground (arith, IsDistinct-snoc s a h)

  pub includes-delete_ne :
      (s : List A) (a b : A) → (a == b) ≡ false → includes (delete s a) b ≡ includes s b
  unfolding delete includes
  includes-delete_ne [] a b h = refl
  includes-delete_ne (x ∷ s) a b h =
      ground (arith, includes-delete_ne s a b, e.beq_iff x a, e.beq_iff x b, e.beq_iff a b)

  pub includes-delete_self : (s : List A) (a : A) → IsDistinct s → includes (delete s a) a ≡ false
  unfolding delete includes
  includes-delete_self [] a h = refl
  includes-delete_self (x ∷ s) a (p, h) = ground (arith, includes-delete_self s a h, e.beq_iff x a)

  includes-delete_le :
      (s : List A) (a b : A) → includes s b ≡ false → includes (delete s a) b ≡ false
  unfolding delete includes
  includes-delete_le [] a b h = refl
  includes-delete_le (x ∷ s) a b h = ground (arith, includes-delete_le s a b)

  pub delete-IsDistinct : (s : List A) (a : A) → IsDistinct s → IsDistinct (delete s a)
  unfolding delete
  delete-IsDistinct [] a h = tt
  delete-IsDistinct (x ∷ s) a (p, h) =
      ground (arith, delete-IsDistinct s a h, includes-delete_le s a x p)
