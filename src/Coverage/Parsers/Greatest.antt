-- ===== src/Coverage/Parsers/Greatest.antt =====
-- The greatest number of a set, as `Math.max` of scripts/lib/cov-reporter finds it.
use luna_mbt.Coverage.Merge.{higher}
use luna_mbt.Prelude.{
  ℕ, ◌⊎◌, ◌≤◌, subst, inl, inr, Option, none, some, arith, text_eq, nat_eq, Bool-cases, leb, leb→le,
}

-- The greatest of the numbers of which `P` holds, or none where it holds of none.
abbrev pub IsGreatest : (ℕ → Type 0) → Option ℕ → Type 0
IsGreatest P none = (c : ℕ) → ¬ P c
IsGreatest P (some m) = P m × ((c : ℕ) → P c → c ≤ m)

pub IsGreatest-higher :
    (P Q R : ℕ → Type 0) (a b : Option ℕ)
    → IsGreatest P a
    → IsGreatest Q b
    → ((c : ℕ) → P c → R c)
    → ((c : ℕ) → Q c → R c)
    → ((c : ℕ) → R c → P c ⊎ Q c)
    → IsGreatest R (higher a b)
IsGreatest-higher P Q R none none h k f g s = λ c r. elim (s c r) [ inl p ↦ h c p | inr q ↦ k c q ]
IsGreatest-higher P Q R none (some b) h (k, l) f g s =
    (g b k, λ c r. elim (s c r) [ inl p ↦ elim (h c p) [ ] | inr q ↦ l c q ])
IsGreatest-higher P Q R (some a) none (h, i) k f g s =
    (f a h, λ c r. elim (s c r) [ inl p ↦ i c p | inr q ↦ elim (k c q) [ ] ])
IsGreatest-higher P Q R (some a) (some b) (h, i) (k, l) f g s = (
  elim (Bool-cases (leb a b)) [
    | inl le ↦ let d = leb→le a b le in subst R (omega arith) (g b k)
    | inr gt ↦ let d : b ≤ a = ground arith in subst R (omega arith) (f a h)
  ],
  λ c r. elim (s c r) [
    | inl p ↦ let d = i c p in omega arith
    | inr q ↦ let d = l c q in omega arith
  ],
)

pub IsGreatest-iff :
    (P R : ℕ → Type 0) (a : Option ℕ)
    → IsGreatest P a
    → ((c : ℕ) → P c → R c)
    → ((c : ℕ) → R c → P c)
    → IsGreatest R a
IsGreatest-iff P R none h f g = λ c r. h c (g c r)
IsGreatest-iff P R (some m) (h, i) f g = (f m h, λ c r. i c (g c r))
