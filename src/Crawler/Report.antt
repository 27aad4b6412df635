-- ===== src/Crawler/Report.antt =====
-- `generateReport` and `calculateSummary` of js/playwright-chaos/src/crawler.ts, and `getExitCode`
-- of js/playwright-chaos/src/reporter.ts.
pub mod Totals
use luna_mbt.Crawler.State.{Crawler}
use luna_mbt.Crawler.Types.{
  ErrorType, PageError, PerformanceMetrics, Status, PageResult, CrawlerOptions, Average,
  AverageMetrics, CrawlSummary, CrawlReport,
}
use luna_mbt.Prelude.{
  ◌≡◌, ◌↔◌, ◌⊎◌, refl, inl, inr, ℕ, zero, suc, ◌+◌, ◌-◌, ◌≤◌, ◌<◌, Bool, true, false, ◌&&◌, ◌||◌,
  Option, none, some, List, [], ◌∷◌, ◌++◌, arith, if◌then◌else◌, length, filter, length-filter,
  count, count-append, sum_by, ltb,
}

abbrev pub has_status : Status → PageResult → Bool
has_status Status.success r = elim r.status [ Status.success ↦ true | _ ↦ false ]
has_status Status.error r = elim r.status [ Status.error ↦ true | _ ↦ false ]
has_status Status.timeout r = elim r.status [ Status.timeout ↦ true | _ ↦ false ]
has_status Status.recovered r = elim r.status [ Status.recovered ↦ true | _ ↦ false ]

abbrev pub has_type : ErrorType → PageError → Bool
has_type ErrorType.console e = elim e.type [ ErrorType.console ↦ true | _ ↦ false ]
has_type ErrorType.network e = elim e.type [ ErrorType.network ↦ true | _ ↦ false ]
has_type ErrorType.exception e = elim e.type [ ErrorType.exception ↦ true | _ ↦ false ]
has_type ErrorType.crash e = elim e.type [ ErrorType.crash ↦ true | _ ↦ false ]
has_type ErrorType.unhandled_rejection e = elim e.type [
  | ErrorType.unhandled_rejection ↦ true
  | _ ↦ false
]

-- `results.flatMap((r) => r.errors)`
abbrev pub all_errors : List PageResult → List PageError
all_errors [] = []
all_errors (r ∷ rs) = r.errors ++ all_errors rs

-- The values of a metric that are defined, over the results that have metrics.
abbrev pub values : (PerformanceMetrics → Option ℕ) → List PageResult → List ℕ
values f [] = []
values f (r ∷ rs) = elim r.metrics [
  | none ↦ values f rs
  | some m ↦ elim (f m) [ none ↦ values f rs | some v ↦ v ∷ values f rs ]
]

abbrev pub average : List ℕ → Average
average vs = record { total = sum_by (λ v. v) vs; number = length vs }

abbrev pub load_times : List PageResult → List ℕ
load_times [] = []
load_times (r ∷ rs) = r.load_time ∷ load_times rs

-- The `avgMetrics` of `calculateSummary`: nothing where no metric has a value.
unfoldable pub average_metrics : List PageResult → Option AverageMetrics
average_metrics rs =
    if ltb 0 (length (values (λ m. m.ttfb) rs))
      || (ltb 0 (length (values (λ m. m.fcp) rs)) || ltb 0 (length (values (λ m. m.lcp) rs)))
    then some (record {
      ttfb = average (values (λ m. m.ttfb) rs);
      fcp = average (values (λ m. m.fcp) rs);
      lcp = average (values (λ m. m.lcp) rs);
    })
    else none

-- `calculateSummary`
unfoldable pub calculate_summary : Crawler → CrawlSummary
calculate_summary s = record {
  success_pages = length (filter (has_status Status.success) s.results);
  error_pages = length (filter (has_status Status.error) s.results);
  timeout_pages = length (filter (has_status Status.timeout) s.results);
  recovered_pages = length (filter (has_status Status.recovered) s.results);
  console_errors = length (filter (has_type ErrorType.console) (all_errors s.results));
  network_errors = length (filter (has_type ErrorType.network) (all_errors s.results));
  js_exceptions = length (filter (has_type ErrorType.exception) (all_errors s.results));
  unhandled_rejections =
      length (filter (has_type ErrorType.unhandled_rejection) (all_errors s.results));
  avg_load_time = average (load_times s.results);
  avg_metrics = average_metrics s.results;
  discovery = s.discovery_metrics;
}

-- `generateReport`
unfoldable pub generate_report : CrawlerOptions → Crawler → ℕ → ℕ → CrawlReport
generate_report o s start_time end_time = record {
  base_url = o.base_url;
  start_time = start_time;
  end_time = end_time;
  duration = end_time - start_time;
  pages_visited = length s.results;
  total_errors = sum_by (λ r. length r.errors) s.results;
  total_warnings = sum_by (λ r. length r.warnings) s.results;
  blocked_external_navigations = s.blocked_external_count;
  recovery_count = s.recovery_count;
  pages = s.results;
  actions = s.actions;
  summary = calculate_summary s;
}

-- `getExitCode`
unfoldable pub get_exit_code : CrawlReport → Bool → ℕ
get_exit_code r strict =
    if ltb 0 r.summary.error_pages || ltb 0 r.summary.timeout_pages
    then 1
    else if strict && (ltb 0 r.summary.console_errors || ltb 0 r.summary.js_exceptions)
    then 1
    else 0
