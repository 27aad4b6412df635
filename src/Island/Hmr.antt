-- ===== src/Island/Hmr.antt =====
-- The client of hot reloading, js/loader/src/hmr-client.ts: what a message does to the page. The page
-- is its islands in document order; elements without an id are none.
use luna_mbt.Island.{Element, Loader, attr, state_of, hydrate, unload}
use luna_mbt.Js.Entries.{put}
use luna_mbt.Js.Text.{js, is_empty}
use luna_mbt.Prelude.{
  Bool, true, false, not, Option, none, some, List, [], ◌∷◌, ◌++◌, map, filter, Text, text_eq, ◌==◌,
  nat_beq, if◌then◌else◌,
}

-- The messages of the server. `none` for the islands is a missing list.
pub data Message : Type 0 where
  connected full_reload : Message
  update : Option (List Text) → Text → Message
  error : Option Text → Message

-- What else a message does: it updates islands, scans the page, reloads it, or shows an error.
pub data Reaction : Type 0 where
  ignores scans reloads : Reaction
  updates : List Text → Text → Reaction
  shows_error : Text → Reaction

-- `onmessage`; `none` is a message that is no JSON. The flag says whether the overlay is hidden.
unfoldable pub on_message : Option Message → Reaction × Bool
on_message none = (ignores, false)
on_message (some connected) = (ignores, false)
on_message (some full_reload) = (reloads, false)
on_message (some (update none timestamp)) = (scans, true)
on_message (some (update (some []) timestamp)) = (scans, true)
on_message (some (update (some (id ∷ ids)) timestamp)) = (updates (id ∷ ids) timestamp, true)
on_message (some (error none)) = (ignores, true)
on_message (some (error (some text))) =
    if is_empty text then (ignores, true) else (shows_error text, true)

-- `s.split("?")[0]`
unfoldable pub before_query : Text → Text
before_query [] = []
before_query (c ∷ s) = if nat_beq c b'?' then [] else c ∷ before_query s

-- The URL with the time of the update.
unfoldable pub bust : Text → Text → Text
unfolding before_query
bust timestamp url = before_query url ++ (js "?t=" ++ timestamp)

-- `document.querySelector` by the id: the first island that has it.
unfoldable pub find_island : List Element → Text → Option Element
find_island [] id = none
find_island (el ∷ els) id = if attr el.id == id then some el else find_island els id

abbrev pub bust_element : Text → Element → Element
bust_element timestamp el =
    if is_empty (attr el.url) then el else record el { url = some (bust timestamp (attr el.url)) }

-- The page, where the first island with the id has its URL changed.
unfoldable pub bust_island : List Element → Text → Text → List Element
bust_island [] id timestamp = []
bust_island (el ∷ els) id timestamp =
    if attr el.id == id then bust_element timestamp el ∷ els else el ∷ bust_island els id timestamp

abbrev star_alone : List Text → Bool
star_alone [] = false
star_alone (id ∷ []) = id == js "*"
star_alone (id ∷ other ∷ ids) = false

-- `islands`, or the ids of the page if it is the star alone.
unfoldable pub target_islands : List Text → List Element → List Text
target_islands islands page =
    if star_alone islands
    then filter (λ id. not (is_empty id)) (map (λ (el : Element). attr el.id) page)
    else islands

module _ {Json : Type 0} where
  -- Step 4 of `handleUpdate`: the state that was there is put back.
  abbrev pub restored : Loader Json → Text → Option Json → Loader Json
  restored l id none = l
  restored l id (some v) = record l { states = put l.states id (some v) }

  -- One round of the loop of `handleUpdate`, up to the `await` of `hydrate`, for the element that
  -- was found: the page, the loader, and the element that is hydrated, with what `hydrate` says.
  abbrev pub updated :
      List Element
      → Loader Json
      → Text
      → Text
      → Option Element
      → List Element × Loader Json × Option (Element × Bool)
  updated page l id timestamp none = (page, l, none)
  updated page l id timestamp (some el) =
      let el' = bust_element timestamp el in
      let (l', on) = hydrate (restored (unload l id).0 id (state_of l id)) el' false in
      (bust_island page id timestamp, l', some (el', on))

  unfoldable pub update_island :
      List Element
      → Loader Json
      → Text
      → Text
      → List Element × Loader Json × Option (Element × Bool)
  unfolding find_island bust_island hydrate unload
  update_island page l id timestamp = updated page l id timestamp (find_island page id)
