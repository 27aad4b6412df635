-- ===== src/Js/Text.antt =====
-- Strings: `startsWith`, `endsWith`, `includes`, `slice`, `split`, `join`, and `replace` with a
-- global pattern that is a fixed text.
use Prim.Native.Char.{code}
use Prim.Native.String.{String}
use luna_mbt.Prelude.{
  ℕ, zero, suc, ◌-◌, Bool, true, false, ◌&&◌, ◌||◌, List, [], ◌∷◌, ◌++◌, Text, nat_beq, leb,
  if◌then◌else◌, length, drop,
}

-- The code units of a literal (all literals of the sources are in the basic plane).
abbrev pub js : String → Text
js String.[] = []
js (String.◌∷◌ c s) = code c ∷ js s

-- `s.startsWith(t)`
unfoldable pub starts_with : Text → Text → Bool
starts_with s [] = true
starts_with [] (b ∷ t) = false
starts_with (a ∷ s) (b ∷ t) = nat_beq a b && starts_with s t

-- `s.includes(t)`
unfoldable pub contains : Text → Text → Bool
unfolding starts_with
contains [] t = starts_with [] t
contains (a ∷ s) t = starts_with (a ∷ s) t || contains s t

-- `s.endsWith(t)`
unfoldable pub ends_with : Text → Text → Bool
unfolding starts_with
ends_with s t = leb (length t) (length s) && starts_with (drop (length s - length t) s) t

-- `s === ""`, the falsy string
abbrev pub is_empty : Text → Bool
is_empty [] = true
is_empty (c ∷ s) = false

-- `s.replace(/c/g, rep)` for a pattern of one code unit
unfoldable pub replace_char : ℕ → Text → Text → Text
replace_char c rep [] = []
replace_char c rep (a ∷ s) = (if nat_beq a c then rep else a ∷ []) ++ replace_char c rep s

-- `s.replace(/pat/g, rep)` for a longer fixed pattern; the number counts the code units of the
-- current match that are still to be passed over.
unfoldable pub replace_from : Text → Text → ℕ → Text → Text
unfolding starts_with
replace_from pat rep (suc k) [] = []
replace_from pat rep zero [] = []
replace_from pat rep (suc k) (a ∷ s) = replace_from pat rep k s
replace_from pat rep zero (a ∷ s) =
    let found = replace_from pat rep (length pat - 1) s in
    let missed = replace_from pat rep zero s in
    if starts_with (a ∷ s) pat then rep ++ found else a ∷ missed

unfoldable pub replace_text : Text → Text → Text → Text
unfolding replace_from
replace_text pat rep s = replace_from pat rep 0 s

-- The first part of `s.split(c)`, and the others.
unfoldable pub split_from : ℕ → Text → Text → List Text
split_from c cur [] = cur ∷ []
split_from c cur (a ∷ s) =
    let next = cur ∷ split_from c [] s in
    let same = split_from c (cur ++ a ∷ []) s in if nat_beq a c then next else same

-- `s.split(c)` at one code unit
unfoldable pub split : ℕ → Text → List Text
unfolding split_from
split c s = split_from c [] s

-- `xs.join(sep)`
unfoldable pub join : Text → List Text → Text
join sep [] = []
join sep (x ∷ []) = x
join sep (x ∷ y ∷ xs) = x ++ (sep ++ join sep (y ∷ xs))
