-- ===== src/Luna/Jsx.antt =====
-- The conversion of JSX props in js/luna/src/jsx-runtime.ts. `print` is `String`, and lower case is
-- that of the letters from A to Z.
pub mod Style
use luna_mbt.Js.Text.{js, join, starts_with}
use luna_mbt.Luna.Props.{Prop, text, function, object, is_function, functions_of}
use luna_mbt.Prelude.{
  ℕ, ◌+◌, Bool, true, false, ◌&&◌, Option, none, some, List, [], ◌∷◌, ◌++◌, map, drop, Text,
  text_eq, ◌==◌, leb, if◌then◌else◌,
}

-- `AttrValue`
pub data AttrValue : Type 0 where
  static : Text → AttrValue
  dynamic handler : List ℕ → AttrValue

abbrev pub is_upper : ℕ → Bool
is_upper c = leb b'A' c && leb c b'Z'

abbrev pub lower_unit : ℕ → ℕ
lower_unit c = if is_upper c then c + 32 else c

-- `s.toLowerCase()`
abbrev pub to_lower_case : Text → Text
to_lower_case s = map lower_unit s

-- `key.replace(/([A-Z])/g, "-$1")`
unfoldable pub dashed : Text → Text
dashed [] = []
dashed (c ∷ s) = if is_upper c then b'-' ∷ c ∷ dashed s else c ∷ dashed s

unfoldable pub css_key : Text → Text
unfolding dashed
css_key key = to_lower_case (dashed key)

abbrev pub declarations : List (Text × Text) → List Text
declarations [] = []
declarations ((key, value) ∷ style) = (css_key key ++ (js ": " ++ value)) ∷ declarations style

-- `styleToString`
unfoldable pub style_to_string : Prop → Text
unfolding css_key
style_to_string (text s) = s
style_to_string (object style) = join (js "; ") (declarations style)
style_to_string _ = []

module _ (print : Prop → Text) where
  abbrev pub attr_name : Text → Text
  attr_name key = if key == js "className" then js "class" else key

  -- A prop; `children` is none.
  unfoldable pub convert_prop : Text → Prop → Option (Text × AttrValue)
  unfolding style_to_string
  convert_prop key value =
      if key == js "children"
      then none
      else if key == js "style"
      then some (key, static (style_to_string value))
      else if key == js "ref" && is_function value
      then some (js "__ref", handler (functions_of value))
      else if starts_with key (js "on") && is_function value
      then some (to_lower_case (drop 2 key), handler (functions_of value))
      else if is_function value
      then some (attr_name key, dynamic (functions_of value))
      else some (attr_name key, static (print value))

  abbrev added : Option (Text × AttrValue) → List (Text × AttrValue) → List (Text × AttrValue)
  added none attrs = attrs
  added (some a) attrs = a ∷ attrs

  -- `convertProps`
  unfoldable pub convert_props : List (Text × Prop) → List (Text × AttrValue)
  unfolding convert_prop
  convert_props [] = []
  convert_props ((key, value) ∷ props) = added (convert_prop key value) (convert_props props)
