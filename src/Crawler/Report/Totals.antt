-- ===== src/Crawler/Report/Totals.antt =====
-- The report adds up: the counts of `calculateSummary` and the totals of `generateReport`
-- (js/playwright-chaos/src/crawler.ts), and the exit code (reporter.ts).
use luna_mbt.Crawler.Report.{
  has_status, has_type, all_errors, calculate_summary, generate_report, get_exit_code,
}
use luna_mbt.Crawler.State.{Crawler}
use luna_mbt.Crawler.Types.{ErrorType, PageError, Status, PageResult, CrawlerOptions}
use luna_mbt.Prelude.{
  ◌≡◌, refl, ap, ◌∙◌, ℕ, suc, ◌+◌, Bool, ◌&&◌, ◌||◌, List, [], ◌∷◌, arith, if◌then◌else◌, length,
  length-append, length-filter, count, sum_by, any, ltb,
}

one_status :
    (r : PageResult) (rs : List PageResult) (k : Status)
    → r.status ≡ k
    → count (has_status Status.success) (r ∷ rs)
        + count (has_status Status.error) (r ∷ rs)
        + count (has_status Status.timeout) (r ∷ rs)
        + count (has_status Status.recovered) (r ∷ rs)
      ≡ suc (
          count (has_status Status.success) rs
          + count (has_status Status.error) rs
          + count (has_status Status.timeout) rs
          + count (has_status Status.recovered) rs)
unfolding count
one_status r rs Status.success p = rw p (omega arith)
one_status r rs Status.error p = rw p (omega arith)
one_status r rs Status.timeout p = rw p (omega arith)
one_status r rs Status.recovered p = rw p (omega arith)

count_statuses :
    (rs : List PageResult)
    → count (has_status Status.success) rs
        + count (has_status Status.error) rs
        + count (has_status Status.timeout) rs
        + count (has_status Status.recovered) rs
      ≡ length rs
unfolding count
count_statuses [] = refl
count_statuses (r ∷ rs) = one_status r rs r.status refl ∙ ap suc (count_statuses rs)

one_type :
    (e : PageError) (es : List PageError) (k : ErrorType)
    → e.type ≡ k
    → count (has_type ErrorType.console) es
        + count (has_type ErrorType.network) es
        + count (has_type ErrorType.exception) es
        + count (has_type ErrorType.unhandled_rejection) es
        + count (has_type ErrorType.crash) es
      ≡ length es
    → count (has_type ErrorType.console) (e ∷ es)
        + count (has_type ErrorType.network) (e ∷ es)
        + count (has_type ErrorType.exception) (e ∷ es)
        + count (has_type ErrorType.unhandled_rejection) (e ∷ es)
        + count (has_type ErrorType.crash) (e ∷ es)
      ≡ suc (length es)
unfolding count
one_type e es ErrorType.console p h = rw p (omega (arith, h))
one_type e es ErrorType.network p h = rw p (omega (arith, h))
one_type e es ErrorType.exception p h = rw p (omega (arith, h))
one_type e es ErrorType.crash p h = rw p (omega (arith, h))
one_type e es ErrorType.unhandled_rejection p h = rw p (omega (arith, h))

count_types :
    (es : List PageError)
    → count (has_type ErrorType.console) es
        + count (has_type ErrorType.network) es
        + count (has_type ErrorType.exception) es
        + count (has_type ErrorType.unhandled_rejection) es
        + count (has_type ErrorType.crash) es
      ≡ length es
unfolding count
count_types [] = refl
count_types (e ∷ es) = one_type e es e.type refl (count_types es)

length-all_errors :
    (rs : List PageResult) → length (all_errors rs) ≡ sum_by (λ r. length r.errors) rs
unfolding sum_by
length-all_errors [] = refl
length-all_errors (r ∷ rs) =
    omega (arith, length-append r.errors (all_errors rs), length-all_errors rs)

-- The report of a crawl adds up: the pages by status are all pages, and the errors by type, with
-- the crashes, that the summary does not count, are all errors.
pub generate_report-totals :
    (o : CrawlerOptions) (s : Crawler) (start_time end_time : ℕ)
    → let r = generate_report o s start_time end_time in
      (r.summary.success_pages + r.summary.error_pages + r.summary.timeout_pages
          + r.summary.recovered_pages
        ≡ r.pages_visited)
      × (r.summary.console_errors
            + r.summary.network_errors
            + r.summary.js_exceptions
            + r.summary.unhandled_rejections
            + count (has_type ErrorType.crash) (all_errors r.pages)
          ≡ r.total_errors)
unfolding generate_report calculate_summary
generate_report-totals o s start_time end_time = (
  rw
      (
        length-filter (has_status Status.success) s.results,
        length-filter (has_status Status.error) s.results,
        length-filter (has_status Status.timeout) s.results,
        length-filter (has_status Status.recovered) s.results,
      )
      (count_statuses s.results),
  rw
      (
        length-filter (has_type ErrorType.console) (all_errors s.results),
        length-filter (has_type ErrorType.network) (all_errors s.results),
        length-filter (has_type ErrorType.exception) (all_errors s.results),
        length-filter (has_type ErrorType.unhandled_rejection) (all_errors s.results),
      )
      (count_types (all_errors s.results) ∙ length-all_errors s.results),
)

any-count {ℓ} : {A : Type ℓ} (p : A → Bool) (xs : List A) → ltb 0 (count p xs) ≡ any p xs
unfolding count any
any-count p [] = refl
any-count p (x ∷ xs) = ground (arith, any-count p xs)

-- The exit code of a report is 1 when a page failed or timed out, or, if the check is strict, when
-- a page has a console error or an exception; else it is 0.
get_exit_code-generate_report :
    (o : CrawlerOptions) (s : Crawler) (start_time end_time : ℕ) (strict : Bool)
    → get_exit_code (generate_report o s start_time end_time) strict ≡ (
        if any (has_status Status.error) s.results
          || (any (has_status Status.timeout) s.results
              || (strict
                  && (any (has_type ErrorType.console) (all_errors s.results)
                      || any (has_type ErrorType.exception) (all_errors s.results))))
        then 1
        else 0)
unfolding generate_report calculate_summary get_exit_code
get_exit_code-generate_report o s start_time end_time strict =
    rw
      (
        length-filter (has_status Status.error) s.results,
        length-filter (has_status Status.timeout) s.results,
        length-filter (has_type ErrorType.console) (all_errors s.results),
        length-filter (has_type ErrorType.exception) (all_errors s.results),
      )
      (rw
        (
          any-count (has_status Status.error) s.results,
          any-count (has_status Status.timeout) s.results,
          any-count (has_type ErrorType.console) (all_errors s.results),
          any-count (has_type ErrorType.exception) (all_errors s.results),
        )
        (ground arith))
