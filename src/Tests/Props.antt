-- ===== src/Tests/Props.antt =====
-- Props of js/luna/src/index.ts that are merged and split.
use luna_mbt.Js.Entries.{get, has}
use luna_mbt.Js.Text.{js}
use luna_mbt.Loader.Chunks.Once.{one_if}
use luna_mbt.Luna.Props.{Prop, null, text, function, object, merge_props, split_props}
use luna_mbt.Luna.Props.Merged.{merge_props_functions}
use luna_mbt.Luna.Props.Split.{count-split_props}
use luna_mbt.Prelude.{
  ◌≡◌, refl, true, Option, none, some, List, [], ◌∷◌, Text, text_eq, arith, All, count,
}

abbrev print : Prop → Text
print v = js "?"

abbrev button : Option (List (Text × Prop))
button = some ((js "onClick", function (1 ∷ [])) ∷ (js "id", text (js "a")) ∷ [])

abbrev override : Option (List (Text × Prop))
override = some ((js "id", text (js "b")) ∷ (js "onClick", function (2 ∷ [])) ∷ [])

merged_example :
    get (merge_props print (button ∷ none ∷ override ∷ [])) (js "onClick")
    ≡ some (function (1 ∷ 2 ∷ []))
unfolding luna_mbt.Prelude.includes luna_mbt.Prelude.text_beq luna_mbt.Js.Text.starts_with
    luna_mbt.Luna.Props.Merged.values_of get
merged_example =
    merge_props_functions print (button ∷ none ∷ override ∷ []) (js "onClick") (function (1 ∷ []))
      (function (2 ∷ []) ∷ []) (ground arith, (tt, (ground arith, tt))) refl refl (refl, (refl, tt))

split_example :
    (count
        (λ r. has r (js "id"))
        (split_props ((js "id", text (js "a")) ∷ (js "x", null) ∷ []) ((js "id" ∷ []) ∷ []))
      ≡ one_if (has ((js "id", text (js "a")) ∷ (js "x", null) ∷ []) (js "id")))
    × All
        (λ r.
          has r (js "id") ≡ true
          → get r (js "id") ≡ get ((js "id", text (js "a")) ∷ (js "x", null) ∷ []) (js "id"))
        (split_props ((js "id", text (js "a")) ∷ (js "x", null) ∷ []) ((js "id" ∷ []) ∷ []))
unfolding luna_mbt.Prelude.includes luna_mbt.Prelude.text_beq
split_example =
    count-split_props ((js "id", text (js "a")) ∷ (js "x", null) ∷ []) ((js "id" ∷ []) ∷ [])
      (js "id") (ground arith)
