-- ===== src/Router/Spa/Restore.antt =====
-- Going back in `SpaRouter` (js/loader/src/router/spa.ts).
use luna_mbt.Js.Entries.{get, get-put, get-put_self}
use luna_mbt.Js.Text.{is_empty}
use luna_mbt.Prelude.{
  ◌≡◌, ◌≢◌, refl, Bool, true, false, Option, some, List, [], ◌∷◌, arith, Text, text_eq,
  text_beq_iff,
}
use luna_mbt.Router.Spa.{
  SpaRouteConfig, SpaRouter, NavigateEvent, completed, scrolled_to, route, handle_navigate, settle,
}

module _ (test : Text → Text → Bool) (groups_of : Text → Text → Option (List (Text × Option Text)))
    {Position : Type 0} (origin : Position) where
  -- Navigations to other paths than `path`, and registrations, in any number.
  pub data Elsewhere (path : Text) (r : SpaRouter Position) : SpaRouter Position → Type 0 where
    here : Elsewhere path r r
    navigated :
        {s : SpaRouter Position} (e : NavigateEvent) (window : Position)
        → Elsewhere path r s
        → e.path ≢ path
        → Elsewhere path r ((handle_navigate test groups_of origin s e window).0)
    registered :
        {s : SpaRouter Position} (config : SpaRouteConfig)
        → Elsewhere path r s
        → Elsewhere path r (route s config)

  -- The position of `path` is kept, and the page is another one.
  record Keeps (path : Text) (at : Position) (r : SpaRouter Position) : Type 0 where
    kept : get r.scroll_positions path ≡ some at
    left : r.current_path ≢ path
    restores : r.scroll_restoration ≡ true

  navigate-Keeps :
      (path : Text) (at : Position) (r : SpaRouter Position) (e : NavigateEvent) (window : Position)
      → Keeps path at r
      → e.path ≢ path
      → Keeps path at ((handle_navigate test groups_of origin r e window).0)
  unfolding handle_navigate
  navigate-Keeps path at r e window k other = record {
    kept = ground (
      arith,
      k.kept,
      k.left,
      get-put r.scroll_positions r.current_path path window,
      text_beq_iff r.current_path path,
    );
    left = other;
    restores = k.restores;
  }

  Elsewhere-Keeps :
      (path : Text) (at : Position) {r s : SpaRouter Position}
      → Keeps path at r
      → Elsewhere path r s
      → Keeps path at s
  unfolding route
  Elsewhere-Keeps path at k here = k
  Elsewhere-Keeps path at k (navigated e window steps other) =
      navigate-Keeps path at _ e window (Elsewhere-Keeps path at k steps) other
  Elsewhere-Keeps path at k (registered config steps) =
      let before = Elsewhere-Keeps path at k steps in
      record { kept = before.kept; left = before.left; restores = before.restores }

  leave-Keeps :
      (r : SpaRouter Position) (e : NavigateEvent) (window : Position)
      → r.scroll_restoration ≡ true
      → is_empty r.current_path ≡ false
      → e.is_pop_state ≡ false
      → e.path ≢ r.current_path
      → Keeps r.current_path window ((handle_navigate test groups_of origin r e window).0)
  unfolding handle_navigate
  leave-Keeps r e window on page push other = record {
    kept = ground (arith, get-put_self r.scroll_positions r.current_path window);
    left = other;
    restores = on;
  }

  -- With scroll restoration on, let a page with a non-empty path be left by a navigation that is no
  -- popstate, from a window scrolled to `window`, and let any navigations to other paths and any
  -- registrations follow. A popstate to the page then scrolls to `window` when its render function
  -- succeeds before another navigation.
  pub settle-handle_navigate :
      (r : SpaRouter Position) (e : NavigateEvent) (window : Position) {s : SpaRouter Position}
      (back : NavigateEvent) (window' : Position) (params : List (Text × Text))
      → r.scroll_restoration ≡ true
      → is_empty r.current_path ≡ false
      → e.is_pop_state ≡ false
      → e.path ≢ r.current_path
      → Elsewhere r.current_path ((handle_navigate test groups_of origin r e window).0) s
      → back.is_pop_state ≡ true
      → back.path ≡ r.current_path
      → settle test groups_of origin
          ((handle_navigate test groups_of origin s back window').0)
          back
          params
          true
        ≡ completed r.current_path params ∷ scrolled_to window ∷ []
  unfolding handle_navigate settle
  settle-handle_navigate r e window back window' params on page push other steps pop same =
      let k =
        Elsewhere-Keeps r.current_path window (leave-Keeps r e window on page push other) steps in
      rw (pop, same, k.restores, k.kept) refl
