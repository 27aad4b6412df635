-- ===== src/Crawler/Crawl/Recovery.antt =====
-- Which pages `crawlPage` of js/playwright-chaos/src/crawler.ts recovers from, and to where.
use luna_mbt.Crawler.Crawl.Result.{crawl_existing_page_lem, recovered_of}
use luna_mbt.Crawler.State.{Platform, Crawler, create_recovery_info}
use luna_mbt.Crawler.Types.{Status, PageResult, RecoveryInfo, QueueEntry, CrawlerOptions}
use luna_mbt.Crawler.Visit.{Visit, crawl_existing_page, dead_code, with_source, recover, crawl_page}
use luna_mbt.Prelude.{
  ◌≡◌, ◌⊎◌, refl, inl, inr, ℕ, ◌≤◌, true, none, some, arith, nat_eq, text_eq, Option-cases,
}

-- The page answered 404 or a server error, and the crawl recovers from those.
pub record IsDead (o : CrawlerOptions) (r : PageResult) : Type 0 where
  pub enabled : o.enable_recovery ≡ true
  pub code : ℕ
  pub answered : r.status_code ≡ some code
  pub dead : (code ≡ 404) ⊎ (500 ≤ code)

dead_code-some :
    (o : CrawlerOptions) (r : PageResult) (code : ℕ) → dead_code o r ≡ some code → IsDead o r
unfolding dead_code
dead_code-some o r code h = elim (Option-cases r.status_code) [
  | inl p ↦ ground arith
  | inr (c, p) ↦ record { enabled = ground arith; code = c; answered = p; dead = ground arith }
]

dead_code-none : (o : CrawlerOptions) (r : PageResult) → dead_code o r ≡ none → ¬ IsDead o r
unfolding dead_code
dead_code-none o r h d = elim d.dead [
  | inl p ↦ ground (arith, d.enabled, d.answered)
  | inr p ↦ ground (arith, d.enabled, d.answered)
]

-- Where the page answers 404 or a server error and recovery is enabled, its result is marked as
-- recovered, to the URL that was the last successful one before the page; else it is not.
pub crawl_page-IsDead :
    (w : Platform) (o : CrawlerOptions) (s : Crawler) (e : QueueEntry) (v : Visit)
    → let r = (crawl_page w o s e v).0 in
      (IsDead o r
        × (r.status ≡ Status.recovered)
        × ((i : RecoveryInfo) × (r.recovery ≡ some i)
            × (i.failed_url ≡ e.url)
            × (i.recovered_to ≡ s.last_successful_url)))
      ⊎ ((¬ IsDead o r) × (recovered_of r ≡ 0))
unfolding crawl_page recover create_recovery_info
crawl_page-IsDead w o s e v =
    let x = crawl_existing_page w o s e.url v in
    let k = crawl_existing_page_lem w o s e.url v in
    elim (Option-cases (dead_code o (with_source e x.0))) [
      | inl p ↦ inr (rw (p, crawl_page) ((λ d. dead_code-none o (with_source e x.0) p d), k.1))
      | inr (code, p) ↦
          let d = dead_code-some o (with_source e x.0) code p in
          inl (
            rw (p, crawl_page)
              (
                record { enabled = d.enabled; code = d.code; answered = d.answered; dead = d.dead },
                refl,
                (_, refl, refl, k.0.last_successful_url),
              ))
    ]
