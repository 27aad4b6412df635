-- ===== src/Router/Navigation.antt =====
-- `navigate`, `popstate` and the handlers of `MinimalRouter` in js/loader/src/boot/router.ts. Each is
-- cut at its awaits: what follows the match, and what follows the loading of the chunks. The match
-- is the loader's; a handler is a number, and `throws` says which of them reject.
pub mod Entry
use luna_mbt.Js.Keys
use luna_mbt.Loader.Chunks.{load_chunks, missing_chunks, load_for_path}
use luna_mbt.Loader.Chunks as Chunks
use luna_mbt.Loader.Segments.{prefetch_segment}
use luna_mbt.Js.Text.{is_empty}
use luna_mbt.Loader.Manifest.{RouteMatch, SegmentManifest, SegmentRef, ChunkLoader}
use luna_mbt.Loader.Routes.{RegexResult, get_segment_info, match_path, extract_first_segment}
use luna_mbt.Prelude.{
  ℕ, Bool, true, false, not, ◌&&◌, Option, none, some, List, [], ◌∷◌, ◌++◌, Text, text_eq, nat_eq,
  if◌then◌else◌, drop,
}
use luna_mbt.Router.{is_spa}

-- `NavigateEvent`
pub record Event : Type 0 where
  pub path : Text
  pub params : List (Text × Text)
  pub segment : Option Text
  pub is_spa : Option Bool
  pub is_pop_state : Bool

-- The router with the loader that it uses, the history entries up to the current one, which is the
-- first, and logs of the calls of handlers and of the pages that the browser loads itself.
pub record Boot : Type 0 where
  pub loader : ChunkLoader
  pub handlers : List ℕ
  pub current_match : Option RouteMatch
  pub history : List (Text × RouteMatch)
  pub notified : List (ℕ × Event)
  pub full_loads : List Text

abbrev pub event_of : Text → RouteMatch → Bool → Event
event_of path m is_pop_state = record {
  path = path;
  params = m.params;
  segment = m.segment;
  is_spa = m.is_spa;
  is_pop_state = is_pop_state;
}

-- `onNavigate`, and the function that it returns
unfoldable pub on_navigate : Boot → ℕ → Boot
on_navigate b handler = record b { handlers = Keys.add b.handlers handler }

unfoldable pub off_navigate : Boot → ℕ → Boot
off_navigate b handler = record b { handlers = Keys.delete b.handlers handler }

-- The loop of `notifyHandlers`, which a handler that rejects ends.
unfoldable pub calls_of : (ℕ → Bool) → List ℕ → Event → List (ℕ × Event)
calls_of throws [] e = []
calls_of throws (h ∷ hs) e =
    let rest = calls_of throws hs e in (h, e) ∷ (if throws h then [] else rest)

unfoldable pub notify_handlers : (ℕ → Bool) → Boot → Event → Boot
unfolding calls_of
notify_handlers throws b e = record b { notified = b.notified ++ calls_of throws b.handlers e }

-- `navigate` after the match: the chunks for which it waits, if there is a match.
unfoldable pub navigate_matched : Boot → Text → Option RouteMatch → Boot × Option (List Text)
navigate_matched b path none = (record b { full_loads = b.full_loads ++ path ∷ [] }, none)
navigate_matched b path (some m) =
    let missing = missing_chunks b.loader m.chunks in
    let (urls, l) = load_chunks b.loader missing in
    (record b { current_match = some m; loader = l }, some missing)

abbrev pub drop_first : List (Text × RouteMatch) → List (Text × RouteMatch)
drop_first [] = []
drop_first (e ∷ es) = es

-- `navigate` after its chunks have loaded
unfoldable pub navigate_loaded : (ℕ → Bool) → Boot → Text → Bool → RouteMatch → Boot
unfolding notify_handlers
navigate_loaded throws b path replace m =
    notify_handlers throws
      (record b { history = (path, m) ∷ (if replace then drop_first b.history else b.history) })
      (event_of path m false)

abbrev pub or_resolved : Option RouteMatch → Option RouteMatch → Option RouteMatch
or_resolved none resolved = resolved
or_resolved (some m) resolved = some m

module _ (exec : Text → Text → RegexResult) (load : Text → Text → Option SegmentManifest) where
  unfoldable pub navigate : Boot → Text → Boot × Option (List Text)
  unfolding navigate_matched
  navigate b path = navigate_matched b path (match_path exec load b.loader path)

  abbrev popped : Boot → Text → Option RouteMatch → Boot × Option (List Text)
  popped b path none = (record b { full_loads = b.full_loads ++ path ∷ [] }, none)
  popped b path (some m) =
      let (missing, urls, l) = load_for_path exec load b.loader path in
      (record b { current_match = some m; loader = l }, some missing)

  -- `handlePopState` at the address `path`, with the match that the history entry holds, if any, up
  -- to the loading of the chunks.
  unfoldable pub handle_pop_state : Boot → Text → Option RouteMatch → Boot × Option (List Text)
  handle_pop_state b path state =
      popped b path (or_resolved state (match_path exec load b.loader path))

-- `handlePopState` after its chunks have loaded
unfoldable pub pop_state_loaded : (ℕ → Bool) → Boot → Text → RouteMatch → Boot
unfolding notify_handlers
pop_state_loaded throws b path m = notify_handlers throws b (event_of path m true)

-- What the browser does when the user goes back by `n` entries: it makes the entry the current one,
-- whose address has a pathname, and hands its state to the handler of `popstate`, whose chunks load.
module _ (exec : Text → Text → RegexResult) (load : Text → Text → Option SegmentManifest)
    (pathname_of : Text → Text) where
  unfoldable pub go_back : (ℕ → Bool) → Boot → ℕ → Boot
  unfolding handle_pop_state pop_state_loaded
  go_back throws b n = elim (drop n b.history) [
    | [] ↦ b
    | (path, m) ∷ older ↦
        let (b', missing) =
          handle_pop_state exec load (record b { history = (path, m) ∷ older }) (pathname_of path)
            (some m) in
        pop_state_loaded throws b' (pathname_of path) m
  ]

-- `getParams`
unfoldable pub get_params : Boot → List (Text × Text)
get_params b = elim b.current_match [ none ↦ [] | some m ↦ m.params ]

abbrev or_false : Option Bool → Bool
or_false none = false
or_false (some b) = b

-- `isSpaRoute`
unfoldable pub is_spa_route : Boot → Bool
is_spa_route b = elim b.current_match [ none ↦ false | some m ↦ or_false m.is_spa ]

-- `shouldUseSpaFallback`
unfoldable pub should_use_spa_fallback : Boot → Text → Bool
should_use_spa_fallback b path = is_spa (get_segment_info b.loader path)

abbrev prefetched_segment : Boot → Text → Bool → Option Text × Boot
prefetched_segment b segment has_info =
    if has_info && not (is_empty segment)
    then (let (url, l) = prefetch_segment b.loader segment in (url, record b { loader = l }))
    else (none, b)

abbrev is_there : Option SegmentRef → Bool
is_there none = false
is_there (some r) = true

-- `prefetch`: the links that are added, the segment manifest that is fetched, if one is, and the
-- router.
unfoldable pub prefetch : Boot → Text → List Text × Option Text × Boot
prefetch b path =
    let (segment, b') =
      prefetched_segment b (extract_first_segment path)
        (is_there (get_segment_info b.loader path)) in
    (Chunks.prefetch b.loader path, segment, b')
