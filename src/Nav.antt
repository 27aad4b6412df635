-- ===== src/Nav.antt =====
-- The client of js/loader/src/sol-nav.ts. A navigation is two steps: up to the `await` of the fetch,
-- and what follows its response. The parser of HTML is a parameter. Outlets hold no outlets, and all
-- are inside of `#app` where the page has it. Updates of the document are taken not to throw.
pub mod Outlets
pub mod Shown
pub mod Stale
pub mod Flight
pub mod Backed
use luna_mbt.Js.Entries.{get, has, put, delete}
use luna_mbt.Js.Text.{js, is_empty, starts_with}
use luna_mbt.Prelude.{
  Bool, true, false, not, ◌&&◌, ◌||◌, Option, none, some, List, [], ◌∷◌, ◌++◌, Text, text_eq, ◌==◌,
  if◌then◌else◌,
}
use luna_mbt.Router.{given}

-- What the HTML of a response holds: its templates for outlets, its template for the title, the
-- contents of its `#app` with the outlets that are in them, and its title.
pub record Html : Type 0 where
  pub templates : List (Text × Text)
  pub title_template : Option Text
  pub app : Option (Text × List (Text × Text))
  pub title : Option Text

-- The calls of the loaders, and those of the window.
pub data Call : Type 0 where
  unloads_outlet : Text → Call
  unloads_app scans rerenders scans_components scrolls_up : Call
  loads : Text → Call

-- The window: the contents of the outlets by their names, those of `#app`, the title, the history
-- entries up to the current one, which is the first, and a log of the calls. The contents of `#app`
-- are as they were set last, before the outlets in them were filled.
pub record Window : Type 0 where
  pub outlets : List (Text × Text)
  pub app : Option Text
  pub title : Text
  pub history : List Text
  pub calls : List Call

-- The variables of the client.
pub record Nav : Type 0 where
  pub cache : List (Text × Text)
  pub is_navigating : Bool

abbrev pub set_title : Window → Option Text → Window
set_title w none = w
set_title w (some title) = record w { title = title }

-- A template of a fragment: the first outlet with its name is filled, if there is one.
abbrev pub fill_outlet : Window → Text → Text → Window
fill_outlet w name html =
    if has w.outlets name
    then record w { outlets = put w.outlets name html; calls = w.calls ++ unloads_outlet name ∷ [] }
    else w

unfoldable pub fill_outlets : Window → List (Text × Text) → Window
fill_outlets w [] = w
fill_outlets w ((name, html) ∷ templates) = fill_outlets (fill_outlet w name html) templates

abbrev pub fill_app : Window → Option (Text × List (Text × Text)) → Option Text → Window
fill_app w (some (html, outlets)) (some old) = record w {
  outlets = outlets;
  app = some html;
  calls = w.calls ++ unloads_app ∷ [];
}
fill_app w html old = w

abbrev pub has_any : List (Text × Text) → Bool
has_any [] = false
has_any (t ∷ ts) = true

-- The document's part of `updateDOM`
unfoldable pub show : Window → Html → Window
unfolding fill_outlets
show w h =
    if has_any h.templates
    then set_title (fill_outlets w h.templates) h.title_template
    else set_title (fill_app w h.app w.app) h.title

abbrev pub drop_first : List Text → List Text
drop_first [] = []
drop_first (url ∷ urls) = urls

-- `replaceState` or `pushState`, and `scrollTo`
unfoldable pub move : Window → Text → Bool → Window
move w url replace = record w {
  history = url ∷ (if replace then drop_first w.history else w.history);
  calls = w.calls ++ scrolls_up ∷ [];
}

-- What the fetch gives: it throws, or its text, whatever the status, and whether its header says
-- that this is a fragment.
pub data Response : Type 0 where
  refused : Response
  page : Text → Bool → Response

abbrev pub cached_in : List (Text × Text) → Text → Text → Bool → List (Text × Text)
cached_in cache url html is_fragment = if is_fragment then put cache url html else cache

module _ (parse : Text → Html) where
  -- `updateDOM`
  unfoldable pub update_dom : Window → Text → Bool → Window
  unfolding show
  update_dom w html is_rerender =
      let shown = show w (parse html) in
      record shown {
        calls = shown.calls ++ ((if is_rerender then rerenders else scans) ∷ scans_components ∷ []);
      }

  abbrev pub shown_first : Window → Text → Bool → Option Text → Window
  shown_first w url replace none = w
  shown_first w url replace (some html) = move (update_dom w html false) url replace

  -- `navigate` up to the fetch, with the contents that were found in the cache; nothing if a
  -- navigation is under way.
  unfoldable pub begin : Nav → Window → Text → Bool → Option (Nav × Window × Option Text)
  unfolding update_dom move
  begin n w url replace =
      let cached = given (get n.cache url) in
      if n.is_navigating
      then none
      else some (record n { is_navigating = true }, shown_first w url replace cached, cached)

  abbrev pub shown_last : Window → Text → Bool → Option Text → Text → Window
  shown_last w url replace (some cached) html = if html == cached then w else update_dom w html true
  shown_last w url replace none html = move (update_dom w html false) url replace

  -- What follows the response, where `cached` is what `begin` found.
  unfoldable pub settle : Nav → Window → Text → Bool → Option Text → Response → Nav × Window
  unfolding update_dom move
  settle n w url replace cached refused =
      (record n { is_navigating = false }, record w { calls = w.calls ++ loads url ∷ [] })
  settle n w url replace cached (page html is_fragment) = (
    record { cache = cached_in n.cache url html is_fragment; is_navigating = false },
    shown_last w url replace cached html,
  )

-- `prefetch`: whether it fetches, and what follows the response.
unfoldable pub prefetch : Nav → Text → Bool
prefetch n url = not (has n.cache url)

unfoldable pub prefetched : Nav → Text → Text → Nav
prefetched n url html = record n { cache = put n.cache url html }

-- The callback of the timers
unfoldable pub expire : Nav → Text → Nav
expire n url = record n { cache = delete n.cache url }

-- The link that a click or a hover finds.
pub record Link : Type 0 where
  pub href : Option Text
  pub has_replace : Bool

abbrev pub is_external : Text → Bool
is_external href = starts_with href (js "http") || starts_with href (js "//")

abbrev pub click_on : Option Text → Bool → Bool → Option (Text × Bool)
click_on none has_replace modified = none
click_on (some href) has_replace modified =
    if is_external href then none else if modified then none else some (href, has_replace)

-- The click handler: the arguments of `navigate`, after `preventDefault`.
unfoldable pub handle_click : Option Link → Bool → Option (Text × Bool)
handle_click none modified = none
handle_click (some link) modified = click_on (given link.href) link.has_replace modified

abbrev pub hover_on : Option Text → Option Text
hover_on none = none
hover_on (some href) = if is_external href then none else some href

-- The hover handler: the URL that is prefetched.
unfoldable pub handle_hover : Option Link → Option Text
handle_hover none = none
handle_hover (some link) = hover_on (given link.href)

-- The handler of `popstate`, where the state of the entry is missing or says whether it is the
-- client's own.
unfoldable pub handle_popstate : Option Bool → Text → Option (Text × Bool)
handle_popstate none location = some (location, true)
handle_popstate (some is_own) location = if is_own then some (location, true) else none
