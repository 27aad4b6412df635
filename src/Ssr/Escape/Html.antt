-- ===== src/Ssr/Escape/Html.antt =====
-- The chained replacements act as one table over code units, so no output holds markup.
use luna_mbt.Js.Text.{js, replace_char}
use luna_mbt.Prelude.{
  ℕ, ◌≡◌, ◌≢◌, refl, sym, ap₂, ◌∙◌, [], ◌∷◌, ◌++◌, append_assoc, arith, Text, nat_beq,
  if◌then◌else◌, All, All-append,
}
use luna_mbt.Ssr.Escape.{escape_attr, escape_html}

-- One pass over the text with a table.
unfoldable pub spell : (ℕ → Text) → Text → Text
spell table [] = []
spell table (c ∷ s) = table c ++ spell table s

pub replace_char-append :
    (c : ℕ) (rep s t : Text)
    → replace_char c rep (s ++ t) ≡ replace_char c rep s ++ replace_char c rep t
unfolding replace_char
replace_char-append c rep [] t = refl
replace_char-append c rep (a ∷ s) t =
    rw (replace_char-append c rep s t)
      (sym (append_assoc (if nat_beq a c then rep else a ∷ []) _ _))

-- What each code unit becomes: the table of HTML's character references.
abbrev pub html_reference : ℕ → Text
html_reference c =
    if nat_beq c b'&'
    then js "&amp;"
    else if nat_beq c b'<'
    then js "&lt;"
    else if nat_beq c b'>'
    then js "&gt;"
    else if nat_beq c b'"'
    then js "&quot;"
    else if nat_beq c b'\''
    then js "&#39;"
    else c ∷ []

abbrev pub attr_reference : ℕ → Text
attr_reference c =
    if nat_beq c b'&'
    then js "&amp;"
    else if nat_beq c b'"'
    then js "&quot;"
    else if nat_beq c b'<'
    then js "&lt;"
    else if nat_beq c b'>'
    then js "&gt;"
    else c ∷ []

escape_html-append : (s t : Text) → escape_html (s ++ t) ≡ escape_html s ++ escape_html t
unfolding escape_html
escape_html-append s t = simp replace_char-append

escape_attr-append : (s t : Text) → escape_attr (s ++ t) ≡ escape_attr s ++ escape_attr t
unfolding escape_attr
escape_attr-append s t = simp replace_char-append

escape_html_one : (c : ℕ) → escape_html (c ∷ []) ≡ html_reference c
unfolding escape_html replace_char
escape_html_one c = ground arith

escape_attr_one : (c : ℕ) → escape_attr (c ∷ []) ≡ attr_reference c
unfolding escape_attr replace_char
escape_attr_one c = ground arith

-- Escaping HTML by five replacements in turn is one pass with the table of references: no
-- replacement acts on what an earlier one wrote.
pub escape_html-spell : (s : Text) → escape_html s ≡ spell html_reference s
unfolding spell
escape_html-spell [] = unfold escape_html replace_char in refl
escape_html-spell (c ∷ s) =
    escape_html-append (c ∷ []) s ∙ ap₂ ◌++◌ (escape_html_one c) (escape_html-spell s)

-- The same of the four replacements for attribute values, in their other order.
escape_attr-spell : (s : Text) → escape_attr s ≡ spell attr_reference s
unfolding spell
escape_attr-spell [] = unfold escape_attr replace_char in refl
escape_attr-spell (c ∷ s) =
    escape_attr-append (c ∷ []) s ∙ ap₂ ◌++◌ (escape_attr_one c) (escape_attr-spell s)

spell-All :
    (P : ℕ → Type 0) (table : ℕ → Text)
    → ((c : ℕ) → All P (table c))
    → (s : Text) → All P (spell table s)
unfolding spell
spell-All P table h [] = tt
spell-All P table h (c ∷ s) = All-append P (table c) (spell table s) (h c) (spell-All P table h s)

-- A code unit that can stand in a double-quoted attribute value without ending it, and that
-- opens or closes no tag.
abbrev pub IsQuotable : ℕ → Type 0
IsQuotable c = (c ≢ b'"') × (c ≢ b'<') × (c ≢ b'>')

attr_reference-IsQuotable : (c : ℕ) → All IsQuotable (attr_reference c)
attr_reference-IsQuotable c = ground arith

-- Whatever the text, its attribute escape has no quotation mark and no angle bracket.
escape_attr-IsQuotable : (s : Text) → All IsQuotable (escape_attr s)
escape_attr-IsQuotable s =
    rw (escape_attr-spell s) (spell-All IsQuotable attr_reference attr_reference-IsQuotable s)
