-- ===== src/Ssr/Parts/Attribute.antt =====
-- `NodePart`, `AttributePart` (without namespaces), `PropertyPart` and the names of an attribute, of
-- js/wcssr/src/parts.ts.
use luna_mbt.Js.Entries.{keys, get, put, delete}
use luna_mbt.Prelude.{
  ℕ, ◌≡◌, true, false, Option, none, some, List, [], ◌∷◌, Text, text_eq, nat_beq, IsDistinct,
  if◌then◌else◌,
}
use luna_mbt.Ssr.Parts.{
  Node, Value, undefined, null, flag, string, number, node, array, fragment, same_value, printed,
}

-- What a part has of its own, whatever it stands for.
pub record Slot : Type 0 where
  pub value : Value
  pub committed : Value

abbrev pub filled : Value → Slot
filled v = record { value = v; committed = v }

module _ (print_object : Value → Text) where
  -- `String(value)`
  abbrev pub to_string : Value → Text
  to_string (node a) = print_object (node a)
  to_string (array a ns) = print_object (array a ns)
  to_string (fragment a ns) = print_object (fragment a ns)
  to_string v = printed v

  -- `String(value ?? "")`
  abbrev pub text_or_empty : Value → Text
  text_or_empty undefined = []
  text_or_empty null = []
  text_or_empty v = to_string v

  -- `NodePart.commit`, on the text of the node.
  unfoldable pub commit_node : Slot → Text → Text × Slot
  unfolding same_value
  commit_node p content =
      if same_value p.value p.committed
      then (content, p)
      else (text_or_empty p.value, filled p.value)

  -- `AttributePart`: what an attribute is for a value, if it is there.
  abbrev pub attribute_for : Value → Option Text
  attribute_for undefined = none
  attribute_for null = none
  attribute_for (flag false) = none
  attribute_for (flag true) = some []
  attribute_for v = some (to_string v)

  abbrev pub write : List (Text × Text) → Text → Option Text → List (Text × Text)
  write attributes name none = delete attributes name
  write attributes name (some s) = put attributes name s

  -- `AttributePart.commit`
  unfoldable pub commit_attribute : Text → Slot → List (Text × Text) → List (Text × Text) × Slot
  unfolding same_value
  commit_attribute name p attributes =
      if same_value p.value p.committed
      then (attributes, p)
      else (write attributes name (attribute_for p.value), filled p.value)

  -- The constructor of `AttributePart`
  abbrev pub read : Option Text → Value
  read none = null
  read (some s) = string s

  unfoldable pub attribute_part : Text → List (Text × Text) → Slot
  attribute_part name attributes = filled (read (get attributes name))

  -- `PropertyPart.commit`, on the property of the element.
  unfoldable pub commit_property : Slot → Value → Value × Slot
  unfolding same_value
  commit_property p property =
      if same_value p.value p.committed then (property, p) else (p.value, filled p.value)

  -- The calls on a part: new values, and commits.
  pub data Call : Type 0 where
    sets : Value → Call
    commits : Call

  unfoldable pub run : Text → Slot → List (Text × Text) → List Call → List (Text × Text) × Slot
  unfolding commit_attribute
  run name p attributes [] = (attributes, p)
  run name p attributes (sets v ∷ calls) = run name (record p { value = v }) attributes calls
  run name p attributes (commits ∷ calls) =
      let (attributes', p') = commit_attribute name p attributes in run name p' attributes' calls

  -- What stands in the attribute while the part shows a value.
  pub data Shows : Value → Option Text → Type 0 where
    of_undefined : Shows undefined none
    of_null : Shows null none
    of_false : Shows (flag false) none
    of_true : Shows (flag true) (some [])
    of_string : (s : Text) → Shows (string s) (some s)
    of_number : (s : Text) → Shows (number s) (some s)
    of_node : (a : ℕ) → Shows (node a) (some (print_object (node a)))
    of_array : (a : ℕ) (ns : List Node) → Shows (array a ns) (some (print_object (array a ns)))
    of_fragment :
        (a : ℕ) (ns : List Node) → Shows (fragment a ns) (some (print_object (fragment a ns)))

  -- The attribute is what it is for the value committed last.
  pub record IsReflected (name : Text) (p : Slot) (attributes : List (Text × Text)) : Type 0 where
    pub once : IsDistinct (keys attributes)
    pub reflects : get attributes name ≡ attribute_for p.committed

-- `localName` and `prefix`, the parts of the name before and behind its first colon.
unfoldable pub split_name : Text → Option (Text × Text)
split_name [] = none
split_name (c ∷ s) =
    if nat_beq c b':'
    then some ([], s)
    else elim (split_name s) [ none ↦ none | some (before, after) ↦ some (c ∷ before, after) ]

unfoldable pub local_name : Text → Text
unfolding split_name
local_name name = elim (split_name name) [ none ↦ name | some (before, after) ↦ after ]

unfoldable pub prefix : Text → Option Text
unfolding split_name
prefix name = elim (split_name name) [ none ↦ none | some (before, after) ↦ some before ]
