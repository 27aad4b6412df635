-- ===== src/Router/Hybrid.antt =====
-- `HybridRouter` of js/loader/src/router/hybrid.ts. A navigation is two steps: up to the `await` of
-- the fetch, and what follows its response. `updateDOM` is taken not to throw; its argument is what
-- the page shows.
pub mod Flight
pub mod Positions
use luna_mbt.Js.Entries.{get, put, delete}
use luna_mbt.Js.Keys
use luna_mbt.Js.Text.{is_empty, js}
use luna_mbt.Prelude.{
  ℕ, ◌≡◌, ◌*◌, Bool, true, false, not, ◌&&◌, Option, none, some, List, [], ◌∷◌, ◌++◌, Text, text_eq,
  ◌==◌, if◌then◌else◌, includes,
}
use luna_mbt.Router.{given}
use luna_mbt.Router.Spa.{NavigateEvent, or_else}

-- `HybridRouterOptions`
pub record HybridRouterOptions : Type 0 where
  pub container_selector : Option Text
  pub fragment_header : Option Text
  pub cache_ttl : Option ℕ
  pub scroll_restoration : Option Bool

pub record HybridRouter (Position : Type 0) : Type 0 where
  pub container_selector : Text
  pub fragment_header : Text
  pub cache_ttl : ℕ
  pub scroll_restoration : Bool
  pub cache : List (Text × Text)
  pub scroll_positions : List (Text × Position)
  pub is_navigating : Bool
  pub subscribed : Bool

-- What the fetch gives: it throws or has no ok status, or its text, and whether its header says
-- that this is a fragment.
pub data Response : Type 0 where
  refused : Response
  page : Text → Bool → Response

-- What a settled fetch does to the page: it is left by a full load, or new contents are shown, if
-- any, and the window is scrolled, if at all.
pub data Finish (Position : Type 0) : Type 0 where
  loads : Text → Finish Position
  swaps : Option Text → Option Position → Finish Position

-- `!cachedHtml || html !== cachedHtml`
abbrev pub fresh : Option Text → Text → Option Text
fresh none html = some html
fresh (some cached) html = if html == cached then none else some html

module _ {Position : Type 0} where
  unfoldable pub construct : HybridRouterOptions → HybridRouter Position
  construct o = record {
    container_selector = or_else o.container_selector (js "#app");
    fragment_header = or_else o.fragment_header (js "X-Luna-Fragment");
    cache_ttl = or_else o.cache_ttl (5 * 60 * 1000);
    scroll_restoration = or_else o.scroll_restoration true;
    cache = [];
    scroll_positions = [];
    is_navigating = false;
    subscribed = false;
  }

  unfoldable pub start : HybridRouter Position → HybridRouter Position
  start r = record r { subscribed = true }

  unfoldable pub stop : HybridRouter Position → HybridRouter Position
  stop r = record r { subscribed = false }

  unfoldable pub clear_cache : HybridRouter Position → HybridRouter Position
  clear_cache r = record r { cache = [] }

  -- `handleNavigate` up to the fetch, at the address `pathname` and with the window scrolled to
  -- `window`: the contents shown at once from the cache, or nothing if a navigation is under way.
  unfoldable pub begin :
      HybridRouter Position
      → NavigateEvent
      → Text
      → Position
      → Option (HybridRouter Position × Option Text)
  begin r e pathname window =
      let saved =
        if r.scroll_restoration && not e.is_pop_state
        then put r.scroll_positions pathname window
        else r.scroll_positions in
      if r.is_navigating
      then none
      else some
          (record r { is_navigating = true; scroll_positions = saved }, given (get r.cache e.path))

  -- The callback of the timer that `cacheResponse` sets.
  unfoldable pub expire : HybridRouter Position → Text → HybridRouter Position
  expire r path = record r { cache = delete r.cache path }

  abbrev pub cached_in : HybridRouter Position → Text → Response → HybridRouter Position
  cached_in r path refused = r
  cached_in r path (page html is_fragment) =
      if is_fragment then record r { cache = put r.cache path html } else r

  module _ (origin : Position) where
    abbrev scroll_of : HybridRouter Position → NavigateEvent → Option Position
    scroll_of r e =
        if not r.scroll_restoration
        then none
        else if e.is_pop_state
        then get r.scroll_positions e.path
        else some origin

    -- What follows the response, where `cached` is what `begin` found in the cache.
    unfoldable pub settle :
        HybridRouter Position
        → NavigateEvent
        → Option Text
        → Response
        → HybridRouter Position × Finish Position
    settle r e cached refused = (record r { is_navigating = false }, loads e.path)
    settle r e cached (page html is_fragment) = (
      record (cached_in r e.path (page html is_fragment)) { is_navigating = false },
      swaps (fresh cached html) (scroll_of r e),
    )
