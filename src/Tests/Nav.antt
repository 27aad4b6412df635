-- ===== src/Tests/Nav.antt =====
-- Navigations of js/loader/src/sol-nav.ts.
use luna_mbt.Js.Entries.{get}
use luna_mbt.Js.Text.{js}
use luna_mbt.Nav.{Html, Window, Nav, page, begin, handle_click, handle_popstate}
use luna_mbt.Nav.Backed.{IsBacked, Reach-IsBacked}
use luna_mbt.Nav.Flight as NavFlight
use luna_mbt.Nav.Flight.{
  Session, Flight, navigate, respond, navigated, responded, hovered, arrived, timed_out,
}
use luna_mbt.Nav.Stale.{SameView, visit, visit_cached}
use luna_mbt.Prelude.{
  ◌≡◌, refl, Bool, true, false, Option, none, some, List, [], ◌∷◌, Text, text_eq, arith,
}

-- Each response is a fragment that fills the outlet `main` with itself.
abbrev parse : Text → Html
parse html = record {
  templates = (js "main", html) ∷ [];
  title_template = none;
  app = none;
  title = none;
}

abbrev home : Window
home = record {
  outlets = (js "main", js "home") ∷ (js "side", js "menu") ∷ [];
  app = none;
  title = js "T";
  history = js "/" ∷ [];
  calls = [];
}

abbrev client : Nav
client = record { cache = (js "/a", js "old") ∷ []; is_navigating = false }

visit_example :
    SameView
      (visit parse client home (js "/a") false (page (js "new") true))
      (visit parse (record client { cache = [] }) home (js "/a") false (page (js "new") true))
unfolding luna_mbt.Prelude.text_beq get
visit_example =
    visit_cached parse client home (js "/a") false (js "old") (js "new") true refl refl refl
      (record { same_kind = refl; names = λ j e. e; app = λ e. e; title = λ e. e })

abbrev session : Session
session = record {
  nav = record { cache = []; is_navigating = false };
  window = home;
  flights = [];
  prefetches = [];
  timers = [];
  served = [];
}

abbrev flight : Flight
flight = record { url = js "/a"; replace = false; cached = none }

cache_example :
    IsBacked parse
      (respond parse (navigate parse session (js "/a") false) flight [] (page (js "new") true))
unfolding navigate begin get
cache_example = Reach-IsBacked parse (
    NavFlight.later
      (NavFlight.later
        (NavFlight.start (record { idle = refl; no_cache = refl; no_flights = refl }))
        (navigated (js "/a") false))
      (responded [] [] flight (page (js "new") true) refl))

-- A `popstate` during a navigation asks for a navigation that is not begun.
popstate_dropped :
    (handle_popstate (some true) (js "/b") ≡ some (js "/b", true))
    × (begin parse (record client { is_navigating = true }) home (js "/b") true ≡ none)
unfolding handle_popstate begin
popstate_dropped = (refl, refl)

-- A path of the site that starts with the letters of a scheme is left to the browser.
link_skipped :
    handle_click (some (record { href = some (js "httpd.html"); has_replace = false })) false ≡ none
unfolding handle_click luna_mbt.Js.Text.starts_with
link_skipped = refl
