-- ===== src/Luna/Props.antt =====
-- `mergeProps` and `splitProps` of js/luna/src/index.ts, on objects of distinct keys. A function is
-- the list of the given functions that a call of it calls, in order. Arrays are not modelled.
pub mod Merged
pub mod Split
use luna_mbt.Js.Entries.{get, has, put, delete}
use luna_mbt.Js.Text.{js, is_empty, starts_with}
use luna_mbt.Prelude.{
  ℕ, Bool, true, false, not, ◌&&◌, ◌||◌, Option, none, some, List, [], ◌∷◌, ◌++◌, Text, text_eq,
  ◌==◌, nat_beq, if◌then◌else◌,
}

pub data Prop : Type 0 where
  undefined null : Prop
  flag : Bool → Prop
  number : ℕ → Prop
  text : Text → Prop
  function : List ℕ → Prop
  object : List (Text × Text) → Prop

abbrev pub is_function : Prop → Bool
is_function (function fs) = true
is_function _ = false

-- `typeof value === "object"`, true of null
abbrev pub is_object : Prop → Bool
is_object (object o) = true
is_object null = true
is_object _ = false

abbrev pub is_truthy : Prop → Bool
is_truthy undefined = false
is_truthy null = false
is_truthy (flag b) = b
is_truthy (number n) = not (nat_beq n 0)
is_truthy (text s) = not (is_empty s)
is_truthy _ = true

abbrev pub functions_of : Prop → List ℕ
functions_of (function fs) = fs
functions_of _ = []

abbrev pub fields_of : Prop → List (Text × Text)
fields_of (object o) = o
fields_of _ = []

-- `{ ...a, ...b }`
unfoldable pub spread : List (Text × Text) → List (Text × Text) → List (Text × Text)
spread a [] = a
spread a ((k, v) ∷ b) = spread (put a k v) b

-- `result[key]`
abbrev pub or_undefined : Option Prop → Prop
or_undefined none = undefined
or_undefined (some v) = v

abbrev pub is_handler : Text → Bool
is_handler key = starts_with key (js "on") || key == js "ref"

abbrev pub is_class : Text → Bool
is_class key = key == js "class" || key == js "className"

module _ (print : Prop → Text) where
  -- What a key has after a value for it, from what it had.
  unfoldable pub merge_prop : Text → Prop → Prop → Prop
  unfolding spread
  merge_prop key existing value =
      if is_handler key && is_function value
      then function (functions_of existing ++ functions_of value)
      else if is_class key
      then (if is_truthy existing then text (print existing ++ (js " " ++ print value)) else value)
      else if key == js "style" && (is_object value && is_object existing)
      then object (spread (fields_of existing) (fields_of value))
      else value

  -- The loop over the keys of a source.
  unfoldable pub merge_source : List (Text × Prop) → List (Text × Prop) → List (Text × Prop)
  unfolding merge_prop
  merge_source result [] = result
  merge_source result ((key, value) ∷ source) =
      merge_source (put result key (merge_prop key (or_undefined (get result key)) value)) source

  unfoldable pub merge_sources :
      List (Text × Prop) → List (Option (List (Text × Prop))) → List (Text × Prop)
  unfolding merge_source
  merge_sources result [] = result
  merge_sources result (none ∷ sources) = merge_sources result sources
  merge_sources result (some source ∷ sources) = merge_sources (merge_source result source) sources

  -- `mergeProps`; a source that is null or undefined is `none`
  unfoldable pub merge_props : List (Option (List (Text × Prop))) → List (Text × Prop)
  unfolding merge_sources
  merge_props sources = merge_sources [] sources

-- The loop over one list of keys: what is extracted, and what remains.
unfoldable pub extract :
    List (Text × Prop) → List (Text × Prop) → List Text → List (Text × Prop) × List (Text × Prop)
extract extracted remaining [] = (extracted, remaining)
extract extracted remaining (key ∷ keys) = elim (get remaining key) [
  | none ↦ extract extracted remaining keys
  | some v ↦ extract (put extracted key v) (delete remaining key) keys
]

-- `splitProps`
unfoldable pub split_props : List (Text × Prop) → List (List Text) → List (List (Text × Prop))
unfolding extract
split_props props [] = props ∷ []
split_props props (keys ∷ lists) =
    (extract [] props keys).0 ∷ split_props (extract [] props keys).1 lists
