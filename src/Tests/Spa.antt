-- ===== src/Tests/Spa.antt =====
-- A `SpaRouter` (js/loader/src/router/spa.ts) with two routes and a fallback.
use luna_mbt.Js.Text.{js, is_empty}
use luna_mbt.Prelude.{
  ℕ, ◌≡◌, ◌↔◌, refl, Bool, true, false, ◌||◌, Option, none, some, List, [], ◌∷◌, ◌++◌, Text,
  text_eq, ◌==◌, any, arith,
}
use luna_mbt.Router.Spa.{
  SpaRouteConfig, SpaRouter, NavigateEvent, Outcome, rendering, redirecting, unmatched, completed,
  scrolled_to, construct, routes, path_to_regex, matches, extract_params, outcome, handle_navigate,
  settle, create_spa_router, stop,
}
use luna_mbt.Router.Spa.First.{IsFirst, outcome-IsFirst}
use luna_mbt.Router.Spa.Restore.{here, settle-handle_navigate}

-- What the regular expressions of plain paths match.
abbrev test : Text → Text → Bool
test pattern path = pattern == b'^' ∷ (path ++ js "/?$")

abbrev groups_of : Text → Text → Option (List (Text × Option Text))
groups_of pattern path = none

abbrev home : SpaRouteConfig
home = record { path = js "/app"; render = js "home"; pattern = none }

abbrev about : SpaRouteConfig
about = record { path = js "/app/about"; render = js "about"; pattern = none }

regex_plain : path_to_regex (js "/app") ≡ js "^/app/?$"
unfolding path_to_regex luna_mbt.Js.Text.ends_with any
regex_plain = refl

regex_named : path_to_regex (js "/app/:id/*") ≡ js "^/app/(?<id>[^/]+)/.*$"
unfolding path_to_regex luna_mbt.Js.Text.ends_with any
regex_named = refl

regex_escaped : path_to_regex (js "/a.b:1") ≡ js "^/a\\.b:1/?$"
unfolding path_to_regex luna_mbt.Js.Text.ends_with any
regex_escaped = refl

abbrev begun : SpaRouter ℕ × Outcome
unfolding create_spa_router
begun =
    create_spa_router test groups_of 0 none (home ∷ about ∷ [])
      (record {
        container_selector = none;
        scroll_restoration = none;
        fallback_path = some (js "/app");
      })
      (js "/app") 0

abbrev go : Text → Bool → NavigateEvent
go path pop = record { path = path; is_pop_state = pop }

outcome_example :
    ((config : SpaRouteConfig) (params : List (Text × Text))
      → (outcome test groups_of (begun.0) (js "/app/about") ≡ rendering config params)
        ↔ IsFirst test groups_of (begun.0.route_configs) (js "/app/about") config
          × (params ≡ extract_params test groups_of config (js "/app/about")))
    × ((to : Text)
        → (outcome test groups_of (begun.0) (js "/app/about") ≡ redirecting to)
          ↔ (any (matches test groups_of (js "/app/about")) (begun.0.route_configs) ≡ false)
            × (begun.0.fallback_path ≡ some to)
            × (is_empty to ≡ false))
outcome_example = outcome-IsFirst test groups_of (begun.0) (js "/app/about")

redirect_missing : outcome test groups_of (begun.0) (js "/app/none") ≡ redirecting (js "/app")
unfolding outcome begun luna_mbt.Router.Spa.route luna_mbt.Prelude.text_beq path_to_regex
    luna_mbt.Js.Text.ends_with any
redirect_missing = refl

restore_example :
    settle test groups_of 0
      ((handle_navigate test groups_of 0
        ((handle_navigate test groups_of 0 (begun.0) (go (js "/app/about") false) 250).0)
        (go (js "/app") true)
        40).0)
      (go (js "/app") true)
      []
      true
    ≡ completed (js "/app") [] ∷ scrolled_to 250 ∷ []
unfolding begun luna_mbt.Router.Spa.route
restore_example =
    settle-handle_navigate test groups_of 0 (begun.0) (go (js "/app/about") false) 250
      (go (js "/app") true) 40 [] refl refl refl (λ e. cc) here refl refl
