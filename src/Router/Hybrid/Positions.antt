-- ===== src/Router/Hybrid/Positions.antt =====
-- What `HybridRouter` does with scroll positions when `MinimalRouter` calls it
-- (js/loader/src/router/hybrid.ts, js/loader/src/boot/router.ts).
use luna_mbt.Js.Entries.{get, put, get-put}
use luna_mbt.Loader.Manifest.{RouteMatch, SegmentManifest}
use luna_mbt.Loader.Routes.{RegexResult}
use luna_mbt.Prelude.{
  ℕ, ◌≡◌, ◌≢◌, refl, sym, ap, ◌∙◌, Bool, true, false, Option, none, some, List, [], ◌∷◌, ◌++◌,
  length, drop, drop-length-append, arith, Text, text_eq, text_beq_iff,
}
use luna_mbt.Router.Hybrid.{HybridRouter, Response, page, Finish, swaps, begin, settle, fresh}
use luna_mbt.Router.{given}
use luna_mbt.Router.Navigation.{
  Event, Boot, event_of, calls_of, notify_handlers, navigate_loaded, handle_pop_state,
  pop_state_loaded, go_back,
}
use luna_mbt.Router.Spa.{NavigateEvent}

abbrev told : Event → NavigateEvent
told e = record { path = e.path; is_pop_state = e.is_pop_state }

-- The first handler of a loop of calls gets its event.
first_call :
    (throws : ℕ → Bool) (hs : List ℕ) (e e' : Event) (h : ℕ) (calls : List (ℕ × Event))
    → calls_of throws hs e ≡ (h, e') ∷ calls
    → e' ≡ e
unfolding calls_of
first_call throws [] e e' h calls k = ground arith
first_call throws (g ∷ hs) e e' h calls k = cc

same_tail : (xs ys zs : List (ℕ × Event)) → xs ++ ys ≡ xs ++ zs → ys ≡ zs
same_tail xs ys zs e =
    sym (drop-length-append xs ys) ∙ ap (drop (length xs)) e ∙ drop-length-append xs zs

module _ {Position : Type 0} (pathname_of : Text → Text) (origin : Position) where
  -- `window.location.pathname`, where the history has entries
  abbrev pub pathname_at : Boot → Text
  pathname_at b = elim b.history [ [] ↦ [] | (path, m) ∷ older ↦ pathname_of path ]

  -- The whole of `handleNavigate`, called with an event by the boot router in the state `b`, with the
  -- window scrolled to `window`; nothing if a navigation is under way.
  unfoldable pub visit :
      HybridRouter Position
      → Boot
      → Event
      → Position
      → Response
      → Option (HybridRouter Position × Finish Position)
  unfolding begin settle
  visit r b e window response = elim (begin r (told e) (pathname_at b) window) [
    | none ↦ none
    | some (s, cached) ↦ some (settle origin s (told e) cached response)
  ]

  -- That the navigation is settled, and so is the way back, which does not scroll the window.
  pub record IsLost (r : HybridRouter Position) (b b' : Boot) (e e' : Event)
      (window later : Position) (response response' : Response) : Type 0 where
    pub between : HybridRouter Position
    pub last : HybridRouter Position
    pub finish : Finish Position
    pub shown : Option Text
    pub there : visit r b e window response ≡ some (between, finish)
    pub back : visit between b' e' later response' ≡ some (last, swaps shown none)

  -- A settled visit of an idle router leaves it idle, with the positions that it began with and, where
  -- it is no popstate, the window's under the address.
  visit_page :
      (r : HybridRouter Position) (b : Boot) (e : Event) (window : Position) (html : Text)
      (is_fragment : Bool)
      → r.is_navigating ≡ false
      → r.scroll_restoration ≡ true
      → e.is_pop_state ≡ false
      → (s : HybridRouter Position) × (finish : Finish Position) × (visit r b e window
            (page html is_fragment)
          ≡ some (s, finish))
        × (s.is_navigating ≡ false)
        × (s.scroll_restoration ≡ true)
        × (s.scroll_positions ≡ put r.scroll_positions (pathname_at b) window)
  unfolding visit begin settle
  visit_page r b e window html is_fragment idle on pushed =
      let begun = record r {
        is_navigating = true;
        scroll_positions = put r.scroll_positions (pathname_at b) window;
      } in
      let cached = given (get r.cache e.path) in
      let result = settle origin begun (told e) cached (page html is_fragment) in
      (result.0, result.1, ground arith, refl, ground arith, ground arith)

  visit_back :
      (r : HybridRouter Position) (b : Boot) (e : Event) (window : Position) (html : Text)
      (is_fragment : Bool)
      → r.is_navigating ≡ false
      → r.scroll_restoration ≡ true
      → e.is_pop_state ≡ true
      → get r.scroll_positions e.path ≡ none
      → (s : HybridRouter Position) × (shown : Option Text) × (visit r b e window
            (page html is_fragment)
          ≡ some (s, swaps shown none))
  unfolding visit begin settle
  visit_back r b e window html is_fragment idle on popped lost =
      let begun = record r { is_navigating = true } in
      let cached = given (get r.cache e.path) in
      (
        (settle origin begun (told e) cached (page html is_fragment)).0,
        fresh cached html,
        ground arith,
      )

  module _ (exec : Text → Text → RegexResult) (load : Text → Text → Option SegmentManifest)
      (throws : ℕ → Bool) where
    go_back_once :
        (b : Boot) (path old : Text) (m m0 : RouteMatch) (older : List (Text × RouteMatch))
        → b.history ≡ (path, m) ∷ (old, m0) ∷ older
        → (go_back exec load pathname_of throws b 1).notified
          ≡ b.notified ++ calls_of throws b.handlers (event_of (pathname_of old) m0 true)
    unfolding go_back handle_pop_state pop_state_loaded notify_handlers
    go_back_once b path old m m0 older on = rw (on, go_back) refl

    -- Where the current entry of the history is `old`, and a navigation to an address of another
    -- pathname pushes its own: when an idle hybrid router with scroll restoration on, which has no
    -- position of the pathname of `old`, handles the event of this navigation and then, once the page
    -- has settled, the event of going back by one entry, and this page settles too, the window is not
    -- scrolled, wherever it was when `old` was left. Both events are those that the boot router gives
    -- to its first handler, and both pages arrive.
    pub visit-go_back :
        (b : Boot) (r : HybridRouter Position) (path old : Text) (m m0 : RouteMatch)
        (older : List (Text × RouteMatch)) (handler handler' : ℕ) (e e' : Event)
        (calls calls' : List (ℕ × Event)) (window later : Position) (html html' : Text)
        (is_fragment is_fragment' : Bool)
        → b.history ≡ (old, m0) ∷ older
        → pathname_of path ≢ pathname_of old
        → r.is_navigating ≡ false
        → r.scroll_restoration ≡ true
        → get r.scroll_positions (pathname_of old) ≡ none
        → (navigate_loaded throws b path false m).notified ≡ b.notified ++ (handler, e) ∷ calls
        → (go_back exec load pathname_of throws (navigate_loaded throws b path false m) 1).notified
          ≡ (navigate_loaded throws b path false m).notified ++ (handler', e') ∷ calls'
        → let left = navigate_loaded throws b path false m in
          IsLost r left
            (go_back exec load pathname_of throws left 1)
            e
            e'
            window
            later
            (page html is_fragment)
            (page html' is_fragment')
    unfolding navigate_loaded notify_handlers
    visit-go_back b r path old m m0 older handler handler' e e' calls calls' window later html html'
          is_fragment is_fragment' on apart idle restores unknown there back =
        let left = navigate_loaded throws b path false m in
        let pushed = first_call throws b.handlers (event_of path m false) e handler calls (
          same_tail b.notified (calls_of throws b.handlers (event_of path m false))
            ((handler, e) ∷ calls) there) in
        let popped =
          first_call throws b.handlers (event_of (pathname_of old) m0 true) e' handler' calls' (
            same_tail left.notified
              (calls_of throws b.handlers (event_of (pathname_of old) m0 true))
              ((handler', e') ∷ calls')
              (sym (go_back_once left path old m m0 older (ap (λ h. (path, m) ∷ h) on)) ∙ back)) in
        let (s, finish, first, quiet, still, kept) =
          visit_page r left e window html is_fragment idle restores
            (ap (λ x. x.is_pop_state) pushed) in
        let missing : get s.scroll_positions e'.path ≡ none =
          ap (λ x. get s.scroll_positions x.path) popped
          ∙ ap (λ ps. get ps (pathname_of old)) kept
          ∙ get-put r.scroll_positions (pathname_of path) (pathname_of old) window
          ∙ ground (arith, text_beq_iff (pathname_of path) (pathname_of old)) in
        let (t, shown, second) =
          visit_back s (go_back exec load pathname_of throws left 1) e' later html' is_fragment'
            quiet still (ap (λ x. x.is_pop_state) popped) missing in
        record {
          between = s;
          last = t;
          finish = finish;
          shown = shown;
          there = first;
          back = second;
        }
