-- ===== src/Nav/Backed.antt =====
-- Which pages are cached, in the sessions of js/loader/src/sol-nav.ts.
use luna_mbt.Js.Entries.{keys, get, has, put, get-put, has-put, put-IsDistinct}
use luna_mbt.Js.Keys.{includes-delete_ne}
use luna_mbt.Js.Removal.{IsDistinct-keys-delete, has-delete, get-delete_ne, get-delete_self}
use luna_mbt.Loader.Chunks.Once.{one_if}
use luna_mbt.Nav.Flight.{
  Flight, Session, was_served, was_served_snoc, navigate, respond, hover, arrive, time_out,
  IsInitial, Reach, start, later, navigated, responded, hovered, arrived, failed, timed_out,
}
use luna_mbt.Nav.{Html, Response, refused, page, begin, settle, prefetch, prefetched, expire}
use luna_mbt.Prelude.{
  ◌≡◌, sym, ◌∙◌, inl, inr, refl, Bool, true, false, some, List, [], ◌∷◌, ◌++◌, arith, Text, text_eq,
  text_beq_iff, ◌==◌, length, length-append, append-nil, includes, includes-snoc, IsDistinct,
  Bool-cases,
}
use luna_mbt.Router.{given}

module _ (parse : Text → Html) where
  -- One navigation at most waits, exactly while the flag is set, and a cached page is a response to
  -- its URL, and has a timer that removes it.
  pub record IsBacked (s : Session) : Type 0 where
    pub one_flight : length s.flights ≡ one_if s.nav.is_navigating
    pub once : IsDistinct (keys s.nav.cache)
    pub backed :
        (url html : Text) → get s.nav.cache url ≡ some html → was_served s.served url html ≡ true
    pub timed : (url : Text) → has s.nav.cache url ≡ true → includes s.timers url ≡ true

  initial-IsBacked : {s : Session} → IsInitial parse s → IsBacked s
  unfolding has get
  initial-IsBacked h = record {
    one_flight = rw (h.no_flights, h.idle) refl;
    once = rw h.no_cache tt;
    backed = λ url html e. ground (arith, h.no_cache);
    timed = λ url e. ground (arith, h.no_cache);
  }

  navigate-IsBacked :
      (s : Session) (url : Text) (replace : Bool)
      → IsBacked s
      → IsBacked (navigate parse s url replace)
  unfolding navigate begin
  navigate-IsBacked s url replace h = elim (Bool-cases s.nav.is_navigating) [
    | inl busy ↦ record {
      one_flight = ground (arith, h.one_flight);
      once = ground (arith, h.once);
      backed = λ other html p. ground (arith, h.backed other html);
      timed = λ other p. ground (arith, h.timed other);
    }
    | inr idle ↦ rw idle (record {
      one_flight =
          length-append s.flights
            (record { url = url; replace = replace; cached = given (get s.nav.cache url) } ∷ [])
          ∙ ground (arith, h.one_flight);
      once = h.once;
      backed = h.backed;
      timed = h.timed;
    })
  ]

  -- A response is cached with a timer.
  stored :
      (s : Session) (url html : Text)
      → IsBacked s
      → IsDistinct (keys (put s.nav.cache url html))
        × ((other page : Text)
            → get (put s.nav.cache url html) other ≡ some page
            → was_served (s.served ++ (url, html) ∷ []) other page ≡ true)
        × ((other : Text)
            → has (put s.nav.cache url html) other ≡ true
            → includes (s.timers ++ url ∷ []) other ≡ true)
  stored s url html h = (
    put-IsDistinct s.nav.cache url html h.once,
    λ other page e. ground (
      arith,
      get-put s.nav.cache url other html,
      was_served_snoc s.served url html other page,
      h.backed other page,
      text_beq_iff html page,
    ),
    λ other e. ground (
      arith,
      has-put s.nav.cache url other html,
      includes-snoc s.timers url other,
      h.timed other,
    ),
  )

  flights_left :
      (s : Session) (before after : List Flight) (f : Flight)
      → s.flights ≡ before ++ f ∷ after
      → IsBacked s
      → length (before ++ after) ≡ 0
  flights_left s before after f split h =
      ground
        (arith, h.one_flight, split, length-append before (f ∷ after), length-append before after)

  respond-IsBacked :
      (s : Session) (before after : List Flight) (f : Flight) (response : Response)
      → s.flights ≡ before ++ f ∷ after
      → IsBacked s
      → IsBacked (respond parse s f (before ++ after) response)
  unfolding respond settle
  respond-IsBacked s before after f refused split h = record {
    one_flight = flights_left s before after f split h;
    once = h.once;
    backed = λ url html e. ground (arith, h.backed url html e, append-nil s.served);
    timed = λ url e. ground (arith, h.timed url e, append-nil s.timers);
  }
  respond-IsBacked s before after f (page html true) split h =
      let kept = stored s f.url html h in
      record {
        one_flight = flights_left s before after f split h;
        once = kept.0;
        backed = kept.1;
        timed = kept.2;
      }
  respond-IsBacked s before after f (page html false) split h = record {
    one_flight = flights_left s before after f split h;
    once = h.once;
    backed = λ url other e.
        ground (arith, h.backed url other e, was_served_snoc s.served f.url html url other);
    timed = λ url e. ground (arith, h.timed url e, append-nil s.timers);
  }

  hover-IsBacked : (s : Session) (url : Text) → IsBacked s → IsBacked (hover parse s url)
  unfolding hover
  hover-IsBacked s url h = elim (Bool-cases (prefetch s.nav url)) [
    | inl new ↦
        rw new
          (record { one_flight = h.one_flight; once = h.once; backed = h.backed; timed = h.timed })
    | inr old ↦ rw old h
  ]

  arrive-IsBacked :
      (s : Session) (url html : Text) → IsBacked s → IsBacked (arrive parse s url html)
  unfolding arrive prefetched
  arrive-IsBacked s url html h =
      let kept = stored s url html h in
      record { one_flight = h.one_flight; once = kept.0; backed = kept.1; timed = kept.2 }

  time_out-IsBacked : (s : Session) (url : Text) → IsBacked s → IsBacked (time_out parse s url)
  unfolding time_out expire
  time_out-IsBacked s url h = record {
    one_flight = h.one_flight;
    once = IsDistinct-keys-delete s.nav.cache url h.once;
    backed = λ other html e. elim (Bool-cases (url == other)) [
      | inl same ↦ ground (arith, text_beq_iff url other, get-delete_self s.nav.cache url h.once)
      | inr apart ↦ h.backed other html (sym (get-delete_ne s.nav.cache url other apart) ∙ e)
    ];
    timed = λ other p.
        let (apart, there) = has-delete s.nav.cache url other h.once p in
        ground (arith, apart, h.timed other there, includes-delete_ne s.timers url other apart);
  }

  -- In every session, from a client that has done nothing, of navigations, prefetches, responses in
  -- any order, failures and timers, one navigation at most waits, exactly while the flag is set; no
  -- URL is cached twice; and each cached page is a response that the server gave for its URL, and
  -- has a timer due that removes it.
  pub Reach-IsBacked : {s : Session} → Reach parse s → IsBacked s
  Reach-IsBacked (start h) = initial-IsBacked h
  Reach-IsBacked (later r (navigated url replace)) =
      navigate-IsBacked _ url replace (Reach-IsBacked r)
  Reach-IsBacked (later r (responded before after f response split)) =
      respond-IsBacked _ before after f response split (Reach-IsBacked r)
  Reach-IsBacked (later r (hovered url)) = hover-IsBacked _ url (Reach-IsBacked r)
  Reach-IsBacked (later r (arrived url html waits)) = arrive-IsBacked _ url html (Reach-IsBacked r)
  Reach-IsBacked (later r (failed url waits)) =
      let h = Reach-IsBacked r in
      record { one_flight = h.one_flight; once = h.once; backed = h.backed; timed = h.timed }
  Reach-IsBacked (later r (timed_out url due)) = time_out-IsBacked _ url (Reach-IsBacked r)
