-- ===== src/Island.antt =====
-- The island loader, js/loader/src/loader.ts and lib.ts. A hydration is three steps: up to the first
-- `await`; what follows `parseState`; what follows the import. The document (`text_of`, the text of
-- the element with an id) and `JSON.parse` are parameters, `none` where they give null or throw.
pub mod Hmr
pub mod Component
pub mod Once
pub mod Update
use luna_mbt.Js.Entries.{get, put}
use luna_mbt.Js.Keys
use luna_mbt.Js.Text.{js, is_empty}
use luna_mbt.Prelude.{
  ℕ, ◌+◌, Bool, true, false, not, ◌&&◌, Option, none, some, List, [], ◌∷◌, ◌++◌, Text, text_eq,
  ◌==◌, nat_beq, nat_eq, drop, if◌then◌else◌, includes,
}

-- An element with its `luna:` attributes.
pub record Element : Type 0 where
  pub id : Option Text
  pub url : Option Text
  pub state : Option Text
  pub export_name : Option Text
  pub trigger : Option Text

-- `s[0] === c`
abbrev pub first_is : Text → ℕ → Bool
first_is [] c = false
first_is (a ∷ s) c = nat_beq a c

-- What `setupTrigger` does: it hydrates now, or when something happens, or never.
pub data Setup : Type 0 where
  now when_ready when_idle when_visible never : Setup
  when_media : Text → Setup

-- `setupTrigger`, while the document is loading or not, and with the media queries that match.
unfoldable pub setup_trigger : Text → Bool → (Text → Bool) → Setup
setup_trigger trigger is_loading matches =
    if trigger == js "load"
    then (if is_loading then when_ready else now)
    else if trigger == js "idle"
    then when_idle
    else if first_is trigger b'v'
    then when_visible
    else if first_is trigger b'm'
    then (if matches (drop 6 trigger) then now else when_media (drop 6 trigger))
    else never

-- An attribute's value or the empty text, which is as good as none.
abbrev pub attr : Option Text → Text
attr none = []
attr (some s) = s

unfoldable pub setup : Element → Bool → (Text → Bool) → Setup
unfolding setup_trigger
setup el is_loading matches =
    setup_trigger (elim el.trigger [ none ↦ js "load" | some t ↦ t ]) is_loading matches

-- What `parseState` ends in: an exception, or a value that may be undefined.
pub data Parsed (Json : Type 0) : Type 0 where
  throws : Parsed Json
  value : Option Json → Parsed Json

-- A call of a module's function: the export, the state, the id, and whether it is a rerender.
pub record Call (Json : Type 0) : Type 0 where
  pub url : Text
  pub export_name : Text
  pub state : Option Json
  pub id : Text
  pub is_rerender : Bool

-- The loader: the map `S`, the set `loaded`, and logs of the first hydrations that were begun, of
-- the ids that were unloaded, and of the calls.
pub record Loader (Json : Type 0) : Type 0 where
  pub states : List (Text × Option Json)
  pub loaded : List Text
  pub begun : List Text
  pub unloaded : List Text
  pub calls : List (Call Json)

-- The function of the module that is called: the named one, or `hydrate`, or `default`.
abbrev pub function_of : Text → List Text → Option Text
function_of name exports =
    if not (is_empty name)
    then (if includes exports name then some name else none)
    else if includes exports (js "hydrate")
    then some (js "hydrate")
    else if includes exports (js "default")
    then some (js "default")
    else none

module _ {Json : Type 0} where
  module _ (parse : Text → Option Json) (text_of : Text → Option Text) where
    abbrev or_null : Option Text → Text
    or_null none = js "null"
    or_null (some s) = s

    abbrev parsed_ref : Option Json → Parsed Json
    parsed_ref none = throws
    parsed_ref (some v) = value (some v)

    -- `parseState`
    unfoldable pub parse_state : Element → Parsed Json
    parse_state el = elim (attr el.state) [
      | [] ↦ value none
      | c ∷ rest ↦
          if nat_beq c b'#'
          then parsed_ref (parse (or_null (text_of rest)))
          else value (parse (c ∷ rest))
    ]

  -- `hydrate` up to the first `await`; the flag says whether it goes on.
  unfoldable pub hydrate : Loader Json → Element → Bool → Loader Json × Bool
  hydrate l el is_rerender =
      if is_empty (attr el.id)
      then (l, false)
      else if not is_rerender && includes l.loaded (attr el.id)
      then (l, false)
      else (
        record l {
          loaded = Keys.add l.loaded (attr el.id);
          begun = if is_rerender then l.begun else l.begun ++ attr el.id ∷ [];
        },
        not (is_empty (attr el.url)),
      )

  -- What follows `parseState`; the flag says whether the module is imported.
  unfoldable pub state_parsed : Loader Json → Text → Parsed Json → Loader Json × Bool
  state_parsed l id throws = (l, false)
  state_parsed l id (value v) = (record l { states = put l.states id v }, true)

  -- `S[id]`
  abbrev pub state_of : Loader Json → Text → Option Json
  state_of l id = elim (get l.states id) [ none ↦ none | some v ↦ v ]

  -- What follows the import of a module with these exports.
  unfoldable pub imported : Loader Json → Element → Bool → List Text → Loader Json
  imported l el is_rerender exports = elim (function_of (attr el.export_name) exports) [
    | none ↦ l
    | some name ↦ record l {
      calls =
          l.calls
          ++ record {
            url = attr el.url;
            export_name = name;
            state = state_of l (attr el.id);
            id = attr el.id;
            is_rerender = is_rerender;
          }
            ∷ [];
    }
  ]

  -- `unload`, and its result
  unfoldable pub unload : Loader Json → Text → Loader Json × Bool
  unload l id = (
    record l {
      loaded = Keys.delete l.loaded id;
      unloaded = if includes l.loaded id then l.unloaded ++ id ∷ [] else l.unloaded;
    },
    includes l.loaded id,
  )

  -- `unloadAll`, over the elements inside the root
  unfoldable pub unload_all : Loader Json → List Element → Loader Json
  unfolding unload
  unload_all l [] = l
  unload_all l (el ∷ els) =
      unload_all (if is_empty (attr el.id) then l else (unload l (attr el.id)).0) els

  -- `clear`
  unfoldable pub clear : Loader Json → Loader Json
  clear l = record l { loaded = []; unloaded = l.unloaded ++ l.loaded }
