-- ===== src/Router/Hybrid/Flight.antt =====
-- The fetches and the cache timers of `HybridRouter` (js/loader/src/router/hybrid.ts).
use luna_mbt.Js.Entries.{keys, get, has, has-put, put-IsDistinct}
use luna_mbt.Js.Keys
use luna_mbt.Js.Removal.{IsDistinct-keys-delete, has-delete}
use luna_mbt.Js.Keys.{includes-delete_ne, includes-delete_self, delete-IsDistinct}
use luna_mbt.Loader.Chunks.Once.{one_if}
use luna_mbt.Prelude.{
  ◌≡◌, inl, inr, refl, true, false, Option, none, some, List, [], ◌∷◌, ◌++◌, arith, Text, text_eq,
  length, length-append, append-nil, includes, includes-snoc, IsDistinct, Bool-cases, if◌then◌else◌,
}
use luna_mbt.Router.Hybrid.{
  HybridRouter, Response, refused, page, begin, settle, expire, clear_cache,
}
use luna_mbt.Router.{given}
use luna_mbt.Router.Spa.{NavigateEvent}

-- The router, the navigations that wait for their fetch, and the paths of the timers that are due.
pub record Session (Position : Type 0) : Type 0 where
  pub router : HybridRouter Position
  pub flights : List (NavigateEvent × Option Text)
  pub timers : List Text

-- The timer that a response sets.
abbrev pub timers_of : Text → Response → List Text
timers_of path refused = []
timers_of path (page html is_fragment) = if is_fragment then path ∷ [] else []

module _ {Position : Type 0} where
  abbrev pub begun :
      Session Position
      → NavigateEvent
      → Option (HybridRouter Position × Option Text)
      → Session Position
  begun s e none = s
  begun s e (some (r, cached)) = record s { router = r; flights = s.flights ++ (e, cached) ∷ [] }

  unfoldable pub navigate : Session Position → NavigateEvent → Text → Position → Session Position
  navigate s e pathname window = begun s e (begin s.router e pathname window)

  module _ (origin : Position) where
    unfoldable pub respond :
        Session Position
        → NavigateEvent
        → Option Text
        → List (NavigateEvent × Option Text)
        → Response
        → Session Position
    respond s e cached others response = record {
      router = (settle origin s.router e cached response).0;
      flights = others;
      timers = s.timers ++ timers_of e.path response;
    }

    unfoldable pub time_out : Session Position → Text → Session Position
    time_out s path = record s { router = expire s.router path; timers = Keys.delete s.timers path }

    pub data Step (s : Session Position) : Session Position → Type 0 where
      navigated :
          (e : NavigateEvent) (pathname : Text) (window : Position)
          → Step s (navigate s e pathname window)
      responded :
          (before after : List (NavigateEvent × Option Text)) (e : NavigateEvent)
          (cached : Option Text) (response : Response)
          → s.flights ≡ before ++ (e, cached) ∷ after
          → Step s (respond s e cached (before ++ after) response)
      timed_out : (path : Text) → includes s.timers path ≡ true → Step s (time_out s path)
      cleared : Step s (record s { router = clear_cache s.router })

    -- A router that has done nothing yet.
    pub record IsInitial (s : Session Position) : Type 0 where
      pub idle : s.router.is_navigating ≡ false
      pub no_cache : s.router.cache ≡ []
      pub no_flights : s.flights ≡ []

    pub data Reach : Session Position → Type 0 where
      start : {s : Session Position} → IsInitial s → Reach s
      later : {s t : Session Position} → Reach s → Step s t → Reach t

    -- One fetch at most is under way, exactly while the flag is set, and every cached page has a
    -- timer that removes it.
    pub record IsSound (s : Session Position) : Type 0 where
      pub one_flight : length s.flights ≡ one_if s.router.is_navigating
      pub once : IsDistinct (keys s.router.cache)
      pub timed : (path : Text) → has s.router.cache path ≡ true → includes s.timers path ≡ true

    initial-IsSound : {s : Session Position} → IsInitial s → IsSound s
    unfolding has
    initial-IsSound h = record {
      one_flight = rw (h.no_flights, h.idle) refl;
      once = rw h.no_cache tt;
      timed = λ path e. ground (arith, h.no_cache);
    }

    navigate-IsSound :
        (s : Session Position) (e : NavigateEvent) (pathname : Text) (window : Position)
        → IsSound s
        → IsSound (navigate s e pathname window)
    unfolding navigate begin
    navigate-IsSound s e pathname window h = elim (Bool-cases s.router.is_navigating) [
      | inl busy ↦ record {
        one_flight = ground (arith, h.one_flight);
        once = ground (arith, h.once);
        timed = λ path p. ground (arith, h.timed path);
      }
      | inr idle ↦ record {
        one_flight = ground (
          arith,
          h.one_flight,
          length-append s.flights ((e, given (get s.router.cache e.path)) ∷ []),
        );
        once = ground (arith, h.once);
        timed = λ path p. ground (arith, h.timed path);
      }
    ]

    respond-IsSound :
        (s : Session Position) (before after : List (NavigateEvent × Option Text))
        (e : NavigateEvent) (cached : Option Text) (response : Response)
        → s.flights ≡ before ++ (e, cached) ∷ after
        → IsSound s
        → IsSound (respond s e cached (before ++ after) response)
    unfolding respond settle
    respond-IsSound s before after e cached refused split h = record {
      one_flight = ground (
        arith,
        h.one_flight,
        split,
        length-append before ((e, cached) ∷ after),
        length-append before after,
      );
      once = h.once;
      timed = λ path p. ground (arith, h.timed path, append-nil s.timers);
    }
    respond-IsSound s before after e cached (page html is_fragment) split h = record {
      one_flight = ground (
        arith,
        h.one_flight,
        split,
        length-append before ((e, cached) ∷ after),
        length-append before after,
      );
      once = ground (arith, h.once, put-IsDistinct s.router.cache e.path html);
      timed = λ path p. ground (
        arith,
        h.timed path,
        has-put s.router.cache e.path path html,
        append-nil s.timers,
        includes-snoc s.timers e.path path,
      );
    }

  module _ (origin : Position) where
    time_out-IsSound :
        (s : Session Position) (path : Text)
        → IsSound origin s
        → IsSound origin (time_out origin s path)
    unfolding time_out expire
    time_out-IsSound s path h = record {
      one_flight = h.one_flight;
      once = IsDistinct-keys-delete s.router.cache path h.once;
      timed = λ other p.
          let (apart, there) = has-delete s.router.cache path other h.once p in
          ground (arith, apart, h.timed other there, includes-delete_ne s.timers path other apart);
    }

    clear-IsSound :
        (s : Session Position)
        → IsSound origin s
        → IsSound origin (record s { router = clear_cache s.router })
    unfolding clear_cache has
    clear-IsSound s h = record { one_flight = h.one_flight; once = tt; timed = λ path p. cc }

    -- In every session, from a router that has done nothing, of navigations, responses in any
    -- order, timers and calls of clearCache, one fetch at most is under way, exactly while the flag
    -- is set, no path is cached twice, and each cached path has a timer due that removes it.
    Reach-IsSound : {s : Session Position} → Reach origin s → IsSound origin s
    Reach-IsSound (start h) = initial-IsSound origin h
    Reach-IsSound (later r (navigated e pathname window)) =
        navigate-IsSound origin _ e pathname window (Reach-IsSound r)
    Reach-IsSound (later r (responded before after e cached response split)) =
        respond-IsSound origin _ before after e cached response split (Reach-IsSound r)
    Reach-IsSound (later r (timed_out path due)) = time_out-IsSound _ path (Reach-IsSound r)
    Reach-IsSound (later r cleared) = clear-IsSound _ (Reach-IsSound r)
