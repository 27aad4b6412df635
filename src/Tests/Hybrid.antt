-- ===== src/Tests/Hybrid.antt =====
-- Navigations of a `HybridRouter` (js/loader/src/router/hybrid.ts), with positions as numbers.
use luna_mbt.Js.Entries.{get}
use luna_mbt.Js.Text.{js}
use luna_mbt.Prelude.{
  ℕ, ◌≡◌, ◌≢◌, refl, Bool, true, false, arith, Option, none, some, List, [], ◌∷◌, ◌++◌, Text,
  text_eq,
}
use luna_mbt.Router.Hybrid.{HybridRouter, page, construct, start, expire, settle}
use luna_mbt.Router.Hybrid.Positions.{IsLost, visit-go_back}
use luna_mbt.Router.Navigation.{Boot, event_of, navigate_loaded, go_back}
use luna_mbt.Loader.Manifest.{RouteMatch, SegmentManifest, new_loader}
use luna_mbt.Loader.Routes.{RegexResult}
use luna_mbt.Router.Spa.{NavigateEvent}

abbrev fresh_router : HybridRouter ℕ
fresh_router = record {
  container_selector = js "#app";
  fragment_header = js "X-Luna-Fragment";
  cache_ttl = 300000;
  scroll_restoration = true;
  cache = [];
  scroll_positions = [];
  is_navigating = false;
  subscribed = true;
}

construct_default :
    start (
      construct (record {
        container_selector = none;
        fragment_header = none;
        cache_ttl = none;
        scroll_restoration = none;
      }))
    ≡ fresh_router
unfolding construct start
construct_default = refl

abbrev push : Text → NavigateEvent
push path = record { path = path; is_pop_state = false }

abbrev match_of : Text → RouteMatch
match_of chunk = record { chunks = chunk ∷ []; params = []; segment = none; is_spa = none }

abbrev boot : Boot
boot = record {
  loader = new_loader;
  handlers = 1 ∷ [];
  current_match = none;
  history = (js "/a", match_of (js "a")) ∷ [];
  notified = [];
  full_loads = [];
}

abbrev pathname : Text → Text
pathname path = path

abbrev no_regex : Text → Text → RegexResult
no_regex pattern path = RegexResult.no_match

abbrev no_segment : Text → Text → Option SegmentManifest
no_segment segment url = none

abbrev never : ℕ → Bool
never h = false

abbrev left : Boot
left = navigate_loaded never boot (js "/b") false (match_of (js "b"))

positions_example :
    IsLost pathname 0 fresh_router left
      (go_back no_regex no_segment pathname never left 1)
      (event_of (js "/b") (match_of (js "b")) false)
      (event_of (js "/a") (match_of (js "a")) true)
      70
      0
      (page (js "second") true)
      (page (js "first") false)
unfolding luna_mbt.Js.Entries.get luna_mbt.Prelude.text_beq navigate_loaded
    luna_mbt.Router.Navigation.notify_handlers luna_mbt.Router.Navigation.calls_of go_back
    luna_mbt.Router.Navigation.handle_pop_state luna_mbt.Router.Navigation.pop_state_loaded
positions_example =
    visit-go_back pathname 0 no_regex no_segment never boot fresh_router (js "/b") (js "/a")
      (match_of (js "b")) (match_of (js "a")) [] 1 1 (event_of (js "/b") (match_of (js "b")) false)
      (event_of (js "/a") (match_of (js "a")) true) [] [] 70 0 (js "second") (js "first") true false
      refl (λ e. ground arith) refl refl refl refl refl

-- The timer of an earlier response removes the entry that a later response has replaced.
early_expiry :
    get
      (expire
        ((settle 0
          ((settle 0 fresh_router (push (js "/b")) none (page (js "old") true)).0)
          (push (js "/b"))
          (some (js "old"))
          (page (js "new") true)).0)
        (js "/b")).cache
      (js "/b")
    ≡ none
unfolding settle expire luna_mbt.Js.Entries.get luna_mbt.Js.Entries.put luna_mbt.Js.Entries.delete
    luna_mbt.Prelude.text_beq
early_expiry = refl
