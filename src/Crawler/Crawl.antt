-- ===== src/Crawler/Crawl.antt =====
-- The loop of `start` of js/playwright-chaos/src/crawler.ts.
pub mod Result
pub mod Recovery
pub mod Loop
pub mod Pushed
pub mod Invariant
use luna_mbt.Crawler.Visit.{Visit, crawl_page}
use luna_mbt.Crawler.Page.{Session, PageEvent, handle_events}
use luna_mbt.Crawler.Page.PageEvent.{
  console_error, console_warning, page_error, request_failed, rejection, request, attempt,
}
use luna_mbt.Crawler.State.{
  Platform, Crawler, is_external_url, should_exclude, create_recovery_info, reset, push_extracted,
}
use luna_mbt.Crawler.Types.{
  ErrorType, PageError, PerformanceMetrics, Status, PageResult, QueueEntry, DeadLinkInfo,
  RecoveryInfo, CrawlerOptions,
}
use luna_mbt.Js.Text.{js, is_empty, starts_with, contains}
use luna_mbt.Prelude.{
  ℕ, zero, suc, ◌+◌, Bool, true, false, not, ◌&&◌, ◌||◌, Option, none, some, List, [], ◌∷◌, ◌++◌,
  Text, nat_eq, text_eq, ◌==◌, if◌then◌else◌, length, filter, includes, ltb, leb,
}

-- The part of an iteration of `start` that visits the page of `e`.
unfoldable pub visit_entry :
    Platform → CrawlerOptions → (ℕ → Text → Visit) → Crawler → QueueEntry → Crawler
visit_entry w o browse s e =
    let entered = record s {
      visited = s.visited ++ e.url ∷ [];
      discovery_metrics = record s.discovery_metrics {
        unique_pages = s.discovery_metrics.unique_pages + 1;
      };
    } in
    let (r, s') = crawl_page w o entered e (browse (length entered.visited) e.url) in
    push_extracted (record s' { results = s'.results ++ r ∷ [] }) e.url r.links

-- An iteration of `start` on the entry `e`, which `shift` has removed.
unfoldable pub crawl_entry :
    Platform → CrawlerOptions → (ℕ → Text → Visit) → Crawler → QueueEntry → Crawler
crawl_entry w o browse s e =
    if includes s.visited e.url
    then s
    else if should_exclude w o e.url
    then s
    else visit_entry w o browse s e

-- An iteration of the loop of `start`: nothing where its condition fails.
unfoldable pub crawl_step :
    Platform → CrawlerOptions → (ℕ → Text → Visit) → Crawler → Option Crawler
crawl_step w o browse s = elim s.queue [
  | [] ↦ none
  | e ∷ q ↦
      if ltb (length s.visited) o.max_pages
      then some (crawl_entry w o browse (record s { queue = q }) e)
      else none
]

-- The loop of `start`, on fuel: `none` where the fuel does not suffice.
unfoldable pub crawl : Platform → CrawlerOptions → (ℕ → Text → Visit) → ℕ → Crawler → Option Crawler
crawl w o browse zero s = none
crawl w o browse (suc fuel) s = elim (crawl_step w o browse s) [
  | none ↦ some s
  | some s' ↦ crawl w o browse fuel s'
]

-- `start`, on fuel, up to the report.
unfoldable pub start : Platform → CrawlerOptions → Text → (ℕ → Text → Visit) → ℕ → Option Crawler
start w o base_origin browse fuel = crawl w o browse fuel (reset o base_origin)
