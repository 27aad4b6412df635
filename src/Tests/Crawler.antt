-- ===== src/Tests/Crawler.antt =====
-- A crawl of a site of two pages by js/playwright-chaos/src/crawler.ts.
use luna_mbt.Crawler.Crawl.{start}
use luna_mbt.Crawler.Visit.{Visit, loaded, crawl_existing_page, crawl_page}
use luna_mbt.Crawler.Crawl.Invariant.{IsCrawl}
use luna_mbt.Crawler.Crawl.Recovery.{IsDead, crawl_page-IsDead}
use luna_mbt.Crawler.Crawl.Result.{recovered_of}
use luna_mbt.Crawler.Logger.{LogLevel, LogEntry, construct, create_null_logger, write, should_log}
use luna_mbt.Crawler.Crawl.Loop.{IsOver, start-IsCrawl}
use luna_mbt.Crawler.Page.{Attempt}
use luna_mbt.Crawler.Page.Actions.{length-actions-crawl_existing_page}
use luna_mbt.Crawler.Page.PageEvent.{attempt, request}
use luna_mbt.Crawler.Report.{has_type, all_errors, generate_report}
use luna_mbt.Crawler.Report.Totals.{generate_report-totals}
use luna_mbt.Crawler.State.{Platform, Crawler, reset}
use luna_mbt.Crawler.Types.{
  ErrorType, Status, TargetType, QueueEntry, DiscoveryMethod, RecoveryInfo, CrawlerOptions,
}
use luna_mbt.Js.Text.{js, contains}
use luna_mbt.Prelude.{
  refl, ◌⊎◌, ◌≡◌, ℕ, ◌+◌, ◌≤◌, true, false, none, some, [], ◌∷◌, Text, count, length,
}

-- A pattern is looked for as a plain text; every URL is of the site.
abbrev pub platform : Platform
platform = record {
  test = λ pattern url. some (contains url pattern);
  test_ignoring_case = λ pattern message. some (contains message pattern);
  origin_of = λ url. some (js "https://luna.dev");
  resolve = λ href base. some href;
  screenshot_filename = λ url. url;
}

abbrev options : CrawlerOptions
options = record {
  base_url = js "https://luna.dev/";
  max_pages = 2;
  max_actions_per_page = 1;
  screenshots = false;
  exclude_patterns = js "private" ∷ [];
  ignore_error_patterns = [];
  spa_patterns = [];
  block_external_navigation = true;
  enable_recovery = true;
  recovery_history_size = 20;
}

abbrev press : Attempt
press = record {
  target = record { selector = js "button"; name = none; type = TargetType.button; href = none };
  scroll_text = [];
  visible = true;
  href_attribute = none;
  failure = none;
  timestamp = 7;
}

abbrev visit : Visit
visit = record {
  events = attempt press ∷ attempt press ∷ request (js "https://luna.dev/x") true ∷ [];
  load_time = 12;
  outcome =
      loaded (some 200) (js "https://luna.dev/a" ∷ [])
        (record { ttfb = some 1; fcp = none; lcp = none });
  recovering = [];
  recovered_at = 9;
  status_text = js "200";
}

abbrev browse : ℕ → Text → Visit
browse n url = visit

abbrev pub fresh : Crawler
fresh = reset options (js "https://luna.dev")

crawl_example :
    (fuel : ℕ) × (t : Crawler) × (start platform options (js "https://luna.dev") browse fuel
      ≡ some t)
    × IsOver platform options browse t
    × IsCrawl platform options t
crawl_example = start-IsCrawl platform options browse (js "https://luna.dev")

actions_example :
    length
      (crawl_existing_page platform options fresh (js "https://luna.dev/") visit).1.crawler.actions
    ≤ length fresh.actions + 1
actions_example =
    length-actions-crawl_existing_page platform options fresh (js "https://luna.dev/") visit

-- After the first page.
abbrev after_one : Crawler
after_one = record fresh {
  results = (crawl_existing_page platform options fresh (js "https://luna.dev/") visit).0 ∷ [];
}

totals_example :
    ((generate_report options after_one 0 9).summary.success_pages
        + (generate_report options after_one 0 9).summary.error_pages
        + (generate_report options after_one 0 9).summary.timeout_pages
        + (generate_report options after_one 0 9).summary.recovered_pages
      ≡ (generate_report options after_one 0 9).pages_visited)
    × ((generate_report options after_one 0 9).summary.console_errors
          + (generate_report options after_one 0 9).summary.network_errors
          + (generate_report options after_one 0 9).summary.js_exceptions
          + (generate_report options after_one 0 9).summary.unhandled_rejections
          + count
              (has_type ErrorType.crash)
              (all_errors (generate_report options after_one 0 9).pages)
        ≡ (generate_report options after_one 0 9).total_errors)
totals_example = generate_report-totals options after_one 0 9

abbrev entry : QueueEntry
entry = record {
  url = js "https://luna.dev/gone";
  source_url = js "https://luna.dev/";
  method = DiscoveryMethod.extracted;
  source_element = none;
}

abbrev gone : Visit
gone = record visit {
  outcome = loaded (some 404) [] (record { ttfb = none; fcp = none; lcp = none });
}

dead_example :
    (IsDead options (crawl_page platform options fresh entry gone).0
      × ((crawl_page platform options fresh entry gone).0.status ≡ Status.recovered)
      × ((i : RecoveryInfo) × ((crawl_page platform options fresh entry gone).0.recovery ≡ some i)
          × (i.failed_url ≡ js "https://luna.dev/gone")
          × (i.recovered_to ≡ js "https://luna.dev/")))
    ⊎ ((¬ IsDead options (crawl_page platform options fresh entry gone).0)
        × (recovered_of (crawl_page platform options fresh entry gone).0 ≡ 0))
unfolding reset
dead_example = crawl_page-IsDead platform options fresh entry gone

abbrev failure : LogEntry
failure = record {
  timestamp = js "12:00";
  level = LogLevel.error;
  event = js "page_error";
  data_text = none;
}

abbrev progress : LogEntry
progress = record failure { level = LogLevel.debug; event = js "progress" }

-- The logger for when logging is disabled still keeps the error entries.
null_logger_keeps : (write (λ e. e.event) create_null_logger failure).buffer ≡ failure ∷ []
unfolding write create_null_logger construct should_log
null_logger_keeps = refl
