-- ===== src/Luna/Jsx/Style.antt =====
-- The CSS properties of the keys of a style object (js/luna/src/jsx-runtime.ts).
use luna_mbt.Luna.Jsx.{is_upper, lower_unit, dashed, css_key}
use luna_mbt.Prelude.{
  ℕ, ◌≡◌, ◌-◌, refl, ap, ◌∙◌, inl, inr, Bool, true, false, [], ◌∷◌, arith, Text, All, nat_beq,
  if◌then◌else◌, Bool-cases,
}

-- The key of a CSS property; the flag says that a hyphen comes before.
unfoldable pub camel_from : Bool → Text → Text
camel_from p [] = []
camel_from true (c ∷ s) = (c - 32) ∷ camel_from false s
camel_from false (c ∷ s) =
    let after = camel_from true s in
    let same = camel_from false s in if nat_beq c b'-' then after else c ∷ same

camel_plain :
    (c : ℕ) (s : Text) → nat_beq c b'-' ≡ false → camel_from false (c ∷ s) ≡ c ∷ camel_from false s
unfolding camel_from
camel_plain c s h = rw h refl

-- The CSS property of a key without hyphens gives the key back, where each letter after a hyphen is
-- raised and the hyphens are dropped: keys that differ give properties that differ.
pub camel_from-css_key :
    (key : Text) → All (λ c. nat_beq c b'-' ≡ false) key → camel_from false (css_key key) ≡ key
unfolding camel_from css_key dashed
camel_from-css_key [] h = refl
camel_from-css_key (c ∷ s) h = elim (Bool-cases (is_upper c)) [
  | inl upper ↦ rw upper (
      ap (λ x. x ∷ camel_from false (css_key s)) (ground (arith, upper))
      ∙ ap (λ t. c ∷ t) (camel_from-css_key s (h.1)))
  | inr other ↦
      let same : lower_unit c ≡ c = ground (arith, other) in
      rw other (
        ap (λ d. camel_from false (d ∷ css_key s)) same
        ∙ camel_plain c (css_key s) (h.0)
        ∙ ap (λ t. c ∷ t) (camel_from-css_key s (h.1)))
]
