-- ===== src/Crawler/Kept.antt =====
-- What the events of a page leave alone in the state of js/playwright-chaos/src/crawler.ts, and the
-- invariants that they keep.
pub mod Events
use luna_mbt.Crawler.Frontier.{IsFrontier, push_clicked-IsFrontier, length-snoc}
use luna_mbt.Crawler.Page.{
  Session, Attempt, PageEvent, on_request_failed, on_request, track_link, perform_action,
  run_attempt, href_of, or_else, handle_event, handle_events,
}
use luna_mbt.Crawler.Page.PageEvent.{
  console_error, console_warning, page_error, request_failed, rejection, request, attempt,
}
use luna_mbt.Crawler.Recent.{IsRecent, add_to_history-IsRecent}
use luna_mbt.Crawler.State.{
  Platform, Crawler, is_external_url, is_known, should_ignore_error, matches_spa_pattern,
  add_to_history, push_clicked,
}
use luna_mbt.Crawler.Types.{ActionResult, TargetType, SpaIssueInfo, CrawlerOptions}
use luna_mbt.Js.Text.{js, is_empty, starts_with}
use luna_mbt.Prelude.{
  ◌||◌, ◌≡◌, refl, ◌∙◌, inl, inr, ℕ, ◌+◌, ◌*◌, ◌≤◌, Bool, true, false, not, ◌&&◌, Option, none,
  some, List, [], ◌∷◌, ◌++◌, arith, Text, if◌then◌else◌, length, ltb, Bool-cases, Option-cases,
}

-- `t` comes from `s` by events of a page: they may queue links, and record actions.
pub record IsKept (o : CrawlerOptions) (s t : Crawler) : Type 0 where
  pub visited : t.visited ≡ s.visited
  pub results : t.results ≡ s.results
  pub base_origin : t.base_origin ≡ s.base_origin
  pub last_successful_url : t.last_successful_url ≡ s.last_successful_url
  pub recovery_count : t.recovery_count ≡ s.recovery_count
  pub dead_links : t.discovery_metrics.dead_links ≡ s.discovery_metrics.dead_links
  pub unique_pages : t.discovery_metrics.unique_pages ≡ s.discovery_metrics.unique_pages
  pub extracted_links : t.discovery_metrics.extracted_links ≡ s.discovery_metrics.extracted_links
  pub queued :
      length t.queue + s.discovery_metrics.clicked_links
      ≡ length s.queue + t.discovery_metrics.clicked_links
  pub frontier : IsFrontier s → IsFrontier t
  pub recent : IsRecent o s → IsRecent o t

pub IsKept-refl : (o : CrawlerOptions) (s : Crawler) → IsKept o s s
IsKept-refl o s = record {
  visited = refl;
  results = refl;
  base_origin = refl;
  last_successful_url = refl;
  recovery_count = refl;
  dead_links = refl;
  unique_pages = refl;
  extracted_links = refl;
  queued = refl;
  frontier = λ f. f;
  recent = λ h. h;
}

pub IsKept-trans :
    (o : CrawlerOptions) (s t u : Crawler) → IsKept o s t → IsKept o t u → IsKept o s u
IsKept-trans o s t u p q = record {
  visited = q.visited ∙ p.visited;
  results = q.results ∙ p.results;
  base_origin = q.base_origin ∙ p.base_origin;
  last_successful_url = q.last_successful_url ∙ p.last_successful_url;
  recovery_count = q.recovery_count ∙ p.recovery_count;
  dead_links = q.dead_links ∙ p.dead_links;
  unique_pages = q.unique_pages ∙ p.unique_pages;
  extracted_links = q.extracted_links ∙ p.extracted_links;
  queued = omega (arith, p.queued, q.queued);
  frontier = λ f. q.frontier (p.frontier f);
  recent = λ h. q.recent (p.recent h);
}

pub if-IsKept :
    (o : CrawlerOptions) (s t u : Crawler) (b : Bool)
    → IsKept o s t
    → IsKept o s u
    → IsKept o s (if b then t else u)
if-IsKept o s t u true p q = p
if-IsKept o s t u false p q = q
