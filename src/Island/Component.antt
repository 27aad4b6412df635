-- ===== src/Island/Component.antt =====
-- The loader of web components, js/loader/src/wc-loader.ts.
use luna_mbt.Island.{attr, first_is}
use luna_mbt.Js.Entries.{put}
use luna_mbt.Js.Keys
use luna_mbt.Js.Text.{is_empty}
use luna_mbt.Prelude.{
  Bool, true, false, Option, none, some, List, [], ◌∷◌, ◌++◌, Text, text_eq, drop, if◌then◌else◌,
  includes,
}
use luna_mbt.Ssr.Escape.{unescape_state}

-- An element with its tag name in lower case and its `luna:wc-` attributes.
pub record Host : Type 0 where
  pub name : Text
  pub url : Option Text
  pub state : Option Text

-- The map `S`, the set `loaded`, and a log of the calls.
pub record Components (Json : Type 0) : Type 0 where
  pub states : List (Text × Json)
  pub loaded : List Text
  pub calls : List (Text × Json)

module _ {Json : Type 0} (parse : Text → Option Json) (text_of : Text → Option Text)
    (empty : Json) where
  abbrev or_empty : Option Json → Json
  or_empty none = empty
  or_empty (some v) = v

  -- `parseState`; `empty` is `{}`
  unfoldable pub parse_state : Host → Json
  parse_state el =
      if is_empty (attr el.state)
      then empty
      else if first_is (attr el.state) b'#'
      then (if is_empty (attr (text_of (drop 1 (attr el.state))))
          then empty
          else or_empty (parse (attr (text_of (drop 1 (attr el.state))))))
      else or_empty (parse (unescape_state (attr el.state)))

  -- `hydrate` up to the first `await`; the flag says whether it goes on.
  unfoldable pub hydrate : Components Json → Host → Components Json × Bool
  hydrate c el =
      if includes c.loaded el.name
      then (c, false)
      else if is_empty (attr el.url)
      then (c, false)
      else (record c { loaded = Keys.add c.loaded el.name }, true)

  -- What follows, up to the import.
  unfoldable pub keep_state : Components Json → Host → Components Json
  unfolding parse_state
  keep_state c el = record c { states = put c.states el.name (parse_state el) }

  -- What follows the import of a module that has a function `hydrate` or `default`, or has none; a
  -- failed import is only reported.
  unfoldable pub imported : Components Json → Host → Json → Bool → Components Json
  imported c el state has_function =
      if has_function then record c { calls = c.calls ++ (el.name, state) ∷ [] } else c
