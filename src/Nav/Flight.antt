-- ===== src/Nav/Flight.antt =====
-- The fetches, the cache and its timers of js/loader/src/sol-nav.ts.
use luna_mbt.Js.Keys
use luna_mbt.Js.Keys.{includes-delete_ne, includes-delete_self, delete-IsDistinct}
use luna_mbt.Nav.{
  Html, Window, Nav, Response, refused, page, begin, settle, prefetch, prefetched, expire,
}
use luna_mbt.Prelude.{
  ◌≡◌, Bool, true, false, ◌&&◌, ◌||◌, Option, none, some, List, [], ◌∷◌, ◌++◌, arith, Text, text_eq,
  ◌==◌, includes, any, if◌then◌else◌,
}

-- A navigation that waits for its fetch.
pub record Flight : Type 0 where
  pub url : Text
  pub replace : Bool
  pub cached : Option Text

-- The client and its window, the navigations and the prefetches that wait, the timers that are due,
-- and a log of the responses.
pub record Session : Type 0 where
  pub nav : Nav
  pub window : Window
  pub flights : List Flight
  pub prefetches : List Text
  pub timers : List Text
  pub served : List (Text × Text)

abbrev pub was_served : List (Text × Text) → Text → Text → Bool
was_served served url html = any (λ (p : Text × Text). p.0 == url && p.1 == html) served

pub was_served_snoc :
    (served : List (Text × Text)) (a b url html : Text)
    → was_served (served ++ (a, b) ∷ []) url html
      ≡ (was_served served url html || (a == url && b == html))
unfolding any
was_served_snoc [] a b url html = ground arith
was_served_snoc ((c, d) ∷ served) a b url html = ground (arith, was_served_snoc served a b url html)

abbrev pub cached_url : Text → Response → List Text
cached_url url refused = []
cached_url url (page html is_fragment) = if is_fragment then url ∷ [] else []

abbrev pub answer : Text → Response → List (Text × Text)
answer url refused = []
answer url (page html is_fragment) = (url, html) ∷ []

module _ (parse : Text → Html) where
  abbrev pub begun : Session → Text → Bool → Option (Nav × Window × Option Text) → Session
  begun s url replace none = s
  begun s url replace (some (n, w, cached)) = record s {
    nav = n;
    window = w;
    flights = s.flights ++ record { url = url; replace = replace; cached = cached } ∷ [];
  }

  unfoldable pub navigate : Session → Text → Bool → Session
  navigate s url replace = begun s url replace (begin parse s.nav s.window url replace)

  unfoldable pub respond : Session → Flight → List Flight → Response → Session
  respond s f others response =
      let settled = settle parse s.nav s.window f.url f.replace f.cached response in
      record s {
        nav = settled.0;
        window = settled.1;
        flights = others;
        timers = s.timers ++ cached_url f.url response;
        served = s.served ++ answer f.url response;
      }

  unfoldable pub hover : Session → Text → Session
  hover s url = if prefetch s.nav url then record s { prefetches = url ∷ s.prefetches } else s

  unfoldable pub arrive : Session → Text → Text → Session
  arrive s url html = record s {
    nav = prefetched s.nav url html;
    prefetches = Keys.delete s.prefetches url;
    timers = s.timers ++ url ∷ [];
    served = s.served ++ (url, html) ∷ [];
  }

  unfoldable pub time_out : Session → Text → Session
  time_out s url = record s { nav = expire s.nav url; timers = Keys.delete s.timers url }

  pub data Step (s : Session) : Session → Type 0 where
    navigated : (url : Text) (replace : Bool) → Step s (navigate s url replace)
    responded :
        (before after : List Flight) (f : Flight) (response : Response)
        → s.flights ≡ before ++ f ∷ after
        → Step s (respond s f (before ++ after) response)
    hovered : (url : Text) → Step s (hover s url)
    arrived : (url html : Text) → includes s.prefetches url ≡ true → Step s (arrive s url html)
    failed :
        (url : Text)
        → includes s.prefetches url ≡ true
        → Step s (record s { prefetches = Keys.delete s.prefetches url })
    timed_out : (url : Text) → includes s.timers url ≡ true → Step s (time_out s url)

  -- A client that has done nothing yet.
  pub record IsInitial (s : Session) : Type 0 where
    pub idle : s.nav.is_navigating ≡ false
    pub no_cache : s.nav.cache ≡ []
    pub no_flights : s.flights ≡ []

  pub data Reach : Session → Type 0 where
    start : {s : Session} → IsInitial s → Reach s
    later : {s t : Session} → Reach s → Step s t → Reach t
