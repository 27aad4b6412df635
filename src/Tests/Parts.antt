-- ===== src/Tests/Parts.antt =====
-- Parts of js/wcssr/src/parts.ts.
use luna_mbt.Js.Text.{js}
use luna_mbt.Prelude.{
  ℕ, ◌≡◌, refl, Bool, true, false, Option, none, some, List, [], ◌∷◌, ◌++◌, Text, text_eq,
}
use luna_mbt.Ssr.Parts.{
  Node, text, comment, element, Value, undefined, flag, string, array, Part, nodes_of, commit,
  hydrate_parts,
}
use luna_mbt.Ssr.Parts.Attribute.{sets, commits, attribute_part, Slot, Call, local_name, prefix}
use luna_mbt.Ssr.Parts.Commit.{commit-append}
use luna_mbt.Ssr.Parts.Markers.{start_data, end_data, found_part, StartsPlain, hydrate_parts-empty}

abbrev print_array : List Node → Text
print_array ns = []

abbrev two_items : Part
two_items = record {
  from_markers = false;
  start_marker = 1;
  end_marker = 2;
  value = array 9 (element 5 ∷ text (js "b") ∷ []);
  committed = string (js "a");
}

commit_example :
    (commit print_array two_items
        (element 4 ∷ comment 1 [] ∷ text (js "a") ∷ comment 2 [] ∷ element 6 ∷ [])
      ≡ some (
        element 4 ∷ comment 1 [] ∷ element 5 ∷ text (js "b") ∷ comment 2 [] ∷ element 6 ∷ [],
        record two_items { committed = two_items.value },
      ))
    × (commit print_array
          (record two_items { committed = two_items.value })
          (element 4 ∷ comment 1 [] ∷ element 5 ∷ text (js "b") ∷ comment 2 [] ∷ element 6 ∷ [])
        ≡ some (
          element 4 ∷ comment 1 [] ∷ element 5 ∷ text (js "b") ∷ comment 2 [] ∷ element 6 ∷ [],
          record two_items { committed = two_items.value },
        ))
unfolding luna_mbt.Ssr.Parts.same_value luna_mbt.Prelude.any
commit_example =
    commit-append print_array two_items (element 4 ∷ []) (text (js "a") ∷ []) (element 6 ∷ []) [] []
      refl refl refl refl (refl, refl, (refl, refl, tt))

empty_example :
    (StartsPlain (text (js "x") ∷ [])
      → hydrate_parts []
          (comment 1 (start_data (js "n")) ∷ comment 2 (end_data (js "n")) ∷ text (js "x") ∷ [])
        ≡ hydrate_parts [] (text (js "x") ∷ []))
    × (hydrate_parts [] (
          comment 1 (start_data (js "n"))
          ∷ comment 2 (end_data (js "n"))
          ∷ comment 3 (js "c")
          ∷ text (js "x")
          ∷ [])
        ≡ hydrate_parts
            (luna_mbt.Js.Entries.put [] (js "n") (found_part 1 3 []))
            (comment 3 (js "c") ∷ text (js "x") ∷ []))
empty_example = hydrate_parts-empty [] 1 2 3 (js "n") (js "c") (text (js "x") ∷ []) refl

abbrev print_object : Value → Text
print_object v = []

abbrev hidden_part : Slot
hidden_part = attribute_part print_object (js "hidden") ((js "hidden", []) ∷ [])

abbrev new_values : List (Call print_object)
new_values = sets (flag false) ∷ commits ∷ sets (flag true) ∷ []

names_of_colon :
    (local_name (js "xlink:href") ≡ js "href") × (prefix (js "xlink:href") ≡ some (js "xlink"))
unfolding local_name prefix
names_of_colon = (refl, refl)
