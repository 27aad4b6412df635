-- ===== src/Ssr/Parts/Markers.antt =====
-- Which markers `hydratePartsFromElement` finds (js/wcssr/src/parts.ts).
use luna_mbt.Js.Entries.{put}
use luna_mbt.Js.Text.{js, starts_with}
use luna_mbt.Prelude.{
  ℕ, suc, ◌≡◌, ◌-◌, refl, true, false, List, [], ◌∷◌, ◌++◌, arith, Text, text_eq, nat_beq,
  nat_beq_iff, length, length-append, take, append-nil,
}
use luna_mbt.Ssr.Parts.{Node, text, comment, element, string, Part, marker_name, hydrate_parts}

-- The data of the two markers of a name.
abbrev pub start_data : Text → Text
start_data name = js "{{" ++ (name ++ js "}}")

abbrev pub end_data : Text → Text
end_data name = js "/{{" ++ (name ++ js "}}")

take-append : (xs ys : Text) → take (length xs) (xs ++ ys) ≡ xs
take-append [] ys = refl
take-append (x ∷ xs) ys = ground (arith, take-append xs ys)

marker_name-start_data : (name : Text) → marker_name (start_data name) ≡ name
unfolding marker_name
marker_name-start_data name =
    let e : length (start_data name) - 2 ≡ suc (suc (length name)) =
      omega (arith, length-append name (js "}}")) in
    rw (e, marker_name) (take-append name (js "}}"))

-- The list does not begin with a comment.
abbrev pub StartsPlain : List Node → Type 0
StartsPlain [] = Unit
StartsPlain (comment m u ∷ cs) = ⊥
StartsPlain (text t ∷ cs) = Unit
StartsPlain (element a ∷ cs) = Unit

abbrev pub found_part : ℕ → ℕ → Text → Part
found_part s e t = record {
  from_markers = true;
  start_marker = s;
  end_marker = e;
  value = string t;
  committed = string t;
}

-- A pair of markers with one text between them is a part with this text as its value.
pub hydrate_parts-text :
    (parts : List (Text × Part)) (s e : ℕ) (name t : Text) (rest : List Node)
    → hydrate_parts parts (comment s (start_data name) ∷ text t ∷ comment e (end_data name) ∷ rest)
      ≡ hydrate_parts (put parts name (found_part s e t)) rest
unfolding hydrate_parts starts_with
hydrate_parts-text parts s e name t rest =
    rw (marker_name-start_data name, (nat_beq_iff e e).1 refl, append-nil t) refl

hydrate_parts_plain :
    (parts : List (Text × Part)) (s e : ℕ) (name : Text) (rest : List Node)
    → StartsPlain rest
    → hydrate_parts parts (comment s (start_data name) ∷ comment e (end_data name) ∷ rest)
      ≡ hydrate_parts parts rest
unfolding hydrate_parts starts_with
hydrate_parts_plain parts s e name [] h = refl
hydrate_parts_plain parts s e name (comment m u ∷ rest) h = absurd h
hydrate_parts_plain parts s e name (text t ∷ rest) h = refl
hydrate_parts_plain parts s e name (element a ∷ rest) h = refl

-- A pair of markers with nothing between them, as `parseTemplate` writes it, gives no part where no
-- comment follows; where one follows that is another node than the end marker, the part has that
-- comment for its end marker, and its own end marker between the two.
pub hydrate_parts-empty :
    (parts : List (Text × Part)) (s e m : ℕ) (name u : Text) (rest : List Node)
    → nat_beq e m ≡ false
    → (StartsPlain rest
        → hydrate_parts parts (comment s (start_data name) ∷ comment e (end_data name) ∷ rest)
          ≡ hydrate_parts parts rest)
      × (hydrate_parts parts
            (comment s (start_data name) ∷ comment e (end_data name) ∷ comment m u ∷ rest)
          ≡ hydrate_parts (put parts name (found_part s m [])) (comment m u ∷ rest))
unfolding hydrate_parts starts_with
hydrate_parts-empty parts s e m name u rest other = (
  hydrate_parts_plain parts s e name rest,
  rw (marker_name-start_data name, other, (nat_beq_iff m m).1 refl) refl,
)
