-- ===== src/Crawler/Visit.antt =====
-- A page of the crawl from its opening to its result: `crawlPageWithExistingPage`, `extractLinks` and
-- `crawlPage` of js/playwright-chaos/src/crawler.ts.
use luna_mbt.Crawler.Page.{Session, PageEvent, handle_events}
use luna_mbt.Crawler.Page.PageEvent.{
  console_error, console_warning, page_error, request_failed, rejection, request, attempt,
}
use luna_mbt.Crawler.State.{Platform, Crawler, is_external_url, create_recovery_info}
use luna_mbt.Crawler.Types.{
  ErrorType, PageError, PerformanceMetrics, Status, PageResult, QueueEntry, DeadLinkInfo,
  CrawlerOptions,
}
use luna_mbt.Js.Text.{js, is_empty, starts_with, contains}
use luna_mbt.Prelude.{
  ℕ, ◌+◌, Bool, true, false, not, ◌&&◌, ◌||◌, Option, none, some, List, [], ◌∷◌, ◌++◌, Text, nat_eq,
  text_eq, ◌==◌, if◌then◌else◌, length, filter, ltb, leb,
}

-- How a page ends: loaded, with its status, the links of its document and its metrics, or by a
-- throw.
pub data Outcome : Type 0 where
  loaded : Option ℕ → List Text → PerformanceMetrics → Outcome
  thrown : Bool → Text → Option Text → ℕ → Outcome

-- What the browser does with a page: the events until it ends, the time it took, how it ends, and
-- the events of the navigation back, with the clock and the status as text at the recovery.
pub record Visit : Type 0 where
  pub events : List PageEvent
  pub load_time : ℕ
  pub outcome : Outcome
  pub recovering : List PageEvent
  pub recovered_at : ℕ
  pub status_text : Text

-- The error that the `catch` adds.
abbrev thrown_error : Text → Text → Option Text → ℕ → PageError
thrown_error url message stack now = record {
  type = ErrorType.exception;
  message = message;
  url = some url;
  stack = stack;
  timestamp = now;
}

abbrev pub begin : Crawler → Session
begin s = record { crawler = s; errors = []; warnings = []; actions_performed = 0; attempts = 0 }

-- `extractLinks`, from the `href`s of the document's anchors.
unfoldable pub extract_links : Platform → Crawler → List Text → List Text
extract_links w s hrefs =
    filter (λ link. not (is_external_url w s link))
      (filter
        (λ href.
          not (is_empty href)
          && (not (starts_with href (js "javascript:")) && not (starts_with href (js "mailto:"))))
        hrefs)

-- The result that `crawlPageWithExistingPage` makes; `blocked` is `originalBlockedCount`.
unfoldable pub page_result : Platform → CrawlerOptions → Text → ℕ → Session → Visit → PageResult
page_result w o url blocked m v = elim v.outcome [
  | loaded status links metrics ↦ record {
    url = url;
    status = Status.success;
    status_code = status;
    load_time = v.load_time;
    errors = m.errors;
    warnings = m.warnings;
    metrics = some metrics;
    links = extract_links w m.crawler links;
    screenshot = if o.screenshots then some (w.screenshot_filename url) else none;
    blocked_navigations = if ltb blocked m.crawler.blocked_external_count then some [] else none;
    recovery = none;
    discovery_method = none;
    source_url = none;
    source_element = none;
  }
  | thrown is_error message stack now ↦ record {
    url = url;
    status = if is_error && contains message (js "Timeout") then Status.timeout else Status.error;
    status_code = none;
    load_time = v.load_time;
    errors = m.errors ++ thrown_error url message stack now ∷ [];
    warnings = m.warnings;
    metrics = none;
    links = [];
    screenshot = none;
    blocked_navigations = none;
    recovery = none;
    discovery_method = none;
    source_url = none;
    source_element = none;
  }
]

-- `crawlPageWithExistingPage`
unfoldable pub crawl_existing_page :
    Platform → CrawlerOptions → Crawler → Text → Visit → PageResult × Session
crawl_existing_page w o s url v =
    let m = handle_events w o url (begin s) v.events in
    (page_result w o url s.blocked_external_count m v, m)

-- The status code of a dead page: 404 or at least 500.
unfoldable pub dead_code : CrawlerOptions → PageResult → Option ℕ
dead_code o r = elim r.status_code [
  | none ↦ none
  | some c ↦
      if o.enable_recovery && (not (c == 0) && ((c == 404) || leb 500 c)) then some c else none
]

abbrev is_success : Status → Bool
is_success Status.success = true
is_success Status.error = false
is_success Status.timeout = false
is_success Status.recovered = false

abbrev pub is_ok : PageResult → Bool
is_ok r = is_success r.status && (elim r.status_code [ none ↦ false | some c ↦ c == 200 ])

-- The source tracking that `crawlPage` adds.
abbrev pub with_source : QueueEntry → PageResult → PageResult
with_source e r = record r {
  discovery_method = some e.method;
  source_url = some e.source_url;
  source_element = e.source_element;
}

abbrev pub count_recovery : Crawler → DeadLinkInfo → Crawler
count_recovery s d = record s {
  recovery_count = s.recovery_count + 1;
  discovery_metrics = record s.discovery_metrics {
    dead_links = s.discovery_metrics.dead_links ++ d ∷ [];
  };
}

-- An event that a listener hears: the action loop is over by then.
abbrev pub is_heard : PageEvent → Bool
is_heard (console_error text now) = true
is_heard (console_warning text) = true
is_heard (page_error message stack now) = true
is_heard (request_failed url error_text now) = true
is_heard (rejection message stack now) = false
is_heard (request url is_navigation) = true
is_heard (attempt a) = false

-- The navigation back to the last successful URL; its events reach the page's listeners.
abbrev pub go_back : Platform → CrawlerOptions → Text → Session → List PageEvent → Session
go_back w o url m events =
    if (length m.crawler.last_successful_url == 0) || (m.crawler.last_successful_url == url)
    then m
    else handle_events w o url m (filter is_heard events)

-- The recovery branch of `crawlPage`.
unfoldable pub recover :
    Platform → CrawlerOptions → QueueEntry → PageResult → ℕ → Session → Visit → PageResult × Crawler
recover w o e r code m v =
    let recovery =
      create_recovery_info m.crawler e.url (js "HTTP " ++ v.status_text) v.recovered_at in
    let counted = record m {
      crawler = count_recovery m.crawler (record {
        url = e.url;
        status_code = code;
        source_url = e.source_url;
        source_element = e.source_element;
        method = e.method;
      });
    } in
    let m' = go_back w o e.url counted v.recovering in
    (
      record r {
        status = Status.recovered;
        recovery = some recovery;
        errors = m'.errors;
        warnings = m'.warnings;
      },
      m'.crawler,
    )

-- `crawlPage`
unfoldable pub crawl_page :
    Platform → CrawlerOptions → Crawler → QueueEntry → Visit → PageResult × Crawler
crawl_page w o s e v =
    let (result, m) = crawl_existing_page w o s e.url v in
    let r = with_source e result in
    elim (dead_code o r) [
      | some code ↦ recover w o e r code m v
      | none ↦ (r, if is_ok r then record m.crawler { last_successful_url = e.url } else m.crawler)
    ]
