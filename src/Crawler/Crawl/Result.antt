-- ===== src/Crawler/Crawl/Result.antt =====
-- What `crawlPage` of js/playwright-chaos/src/crawler.ts does to the state, with its result.
use luna_mbt.Crawler.Visit.{
  Visit, Outcome, loaded, thrown, page_result, crawl_existing_page, dead_code, begin, is_ok,
  with_source, count_recovery, go_back, is_heard, recover, crawl_page,
}
use luna_mbt.Crawler.Frontier.{IsFrontier, length-snoc}
use luna_mbt.Crawler.Kept.{IsKept, IsKept-refl}
use luna_mbt.Crawler.Kept.Events.{handle_events-IsKept}
use luna_mbt.Crawler.Page.{Session, handle_events}
use luna_mbt.Crawler.Recent.{IsRecent}
use luna_mbt.Crawler.State.{Platform, Crawler}
use luna_mbt.Crawler.Types.{Status, PageResult, QueueEntry, CrawlerOptions}
use luna_mbt.Prelude.{
  ◌≡◌, refl, ap, ◌∙◌, inl, inr, ℕ, ◌+◌, Bool, true, false, ◌||◌, arith, Text, nat_eq, text_eq, ◌==◌,
  if◌then◌else◌, length, filter, Bool-cases, Option-cases,
}

abbrev recovered_status : Status → ℕ
recovered_status Status.success = 0
recovered_status Status.error = 0
recovered_status Status.timeout = 0
recovered_status Status.recovered = 1

-- 1 for a recovered page, else 0.
abbrev pub recovered_of : PageResult → ℕ
recovered_of r = recovered_status r.status

-- `t` comes from `s` by a page whose result is `r`.
pub record IsCrawled (o : CrawlerOptions) (s t : Crawler) (e : QueueEntry) (r : PageResult)
    : Type 0 where
  pub url : r.url ≡ e.url
  pub visited : t.visited ≡ s.visited
  pub results : t.results ≡ s.results
  pub recovery_count : t.recovery_count ≡ s.recovery_count + recovered_of r
  pub dead_links :
      length t.discovery_metrics.dead_links ≡ length s.discovery_metrics.dead_links + recovered_of r
  pub unique_pages : t.discovery_metrics.unique_pages ≡ s.discovery_metrics.unique_pages
  pub extracted_links : t.discovery_metrics.extracted_links ≡ s.discovery_metrics.extracted_links
  pub queued :
      length t.queue + s.discovery_metrics.clicked_links
      ≡ length s.queue + t.discovery_metrics.clicked_links
  pub frontier : IsFrontier s → IsFrontier t
  pub recent : IsRecent o s → IsRecent o t

-- A page that ends by itself is not a recovered one.
page_result_of :
    (w : Platform) (o : CrawlerOptions) (url : Text) (blocked : ℕ) (m : Session) (v : Visit)
    (x : Outcome)
    → v.outcome ≡ x
    → (recovered_of (page_result w o url blocked m v) ≡ 0)
      × ((page_result w o url blocked m v).url ≡ url)
unfolding page_result
page_result_of w o url blocked m v (loaded status links metrics) p = rw p (refl, refl)
page_result_of w o url blocked m v (thrown is_error message stack now) p = rw p (ground arith, refl)

go_back-IsKept :
    (w : Platform) (o : CrawlerOptions) (m : Session) (e : QueueEntry) (v : Visit)
    → IsKept o m.crawler (go_back w o e.url m v.recovering).crawler
go_back-IsKept w o m e v =
    elim (Bool-cases
      ((length m.crawler.last_successful_url == 0) || (m.crawler.last_successful_url == e.url))) [
        | inl p ↦ rw p (IsKept-refl o m.crawler)
        | inr p ↦ rw p (handle_events-IsKept w o e.url m (filter (λ x. is_heard x) v.recovering))
      ]

recover-IsCrawled :
    (w : Platform) (o : CrawlerOptions) (s : Crawler) (e : QueueEntry) (r : PageResult) (code : ℕ)
    (m : Session) (v : Visit)
    → IsKept o s m.crawler
    → r.url ≡ e.url
    → IsCrawled o s (recover w o e r code m v).1 e (recover w o e r code m v).0
unfolding recover
recover-IsCrawled w o s e r code m v k p =
    let counted : Session = record m {
      crawler = count_recovery m.crawler (record {
        url = e.url;
        status_code = code;
        source_url = e.source_url;
        source_element = e.source_element;
        method = e.method;
      });
    } in
    let b = go_back-IsKept w o counted e v in
    record {
      url = p;
      visited = b.visited ∙ k.visited;
      results = b.results ∙ k.results;
      recovery_count = omega (arith, b.recovery_count, k.recovery_count);
      dead_links =
          ap length b.dead_links
          ∙ (length-snoc m.crawler.discovery_metrics.dead_links _
              ∙ ap (λ x. length x + 1) k.dead_links);
      unique_pages = b.unique_pages ∙ k.unique_pages;
      extracted_links = b.extracted_links ∙ k.extracted_links;
      queued = omega (arith, b.queued, k.queued);
      frontier = λ f. b.frontier (
          let g = k.frontier f in
          record { visited_once = g.visited_once; queued_once = g.queued_once; apart = g.apart });
      recent = λ h. b.recent (k.recent h);
    }

finish-IsCrawled :
    (o : CrawlerOptions) (s t : Crawler) (e : QueueEntry) (r : PageResult) (b : Bool)
    → IsKept o s t
    → r.url ≡ e.url
    → recovered_of r ≡ 0
    → IsCrawled o s (if b then record t { last_successful_url = e.url } else t) e r
finish-IsCrawled o s t e r true k p z = record {
  url = p;
  visited = k.visited;
  results = k.results;
  recovery_count = omega (arith, k.recovery_count, z);
  dead_links = ap length k.dead_links ∙ omega (arith, z);
  unique_pages = k.unique_pages;
  extracted_links = k.extracted_links;
  queued = k.queued;
  frontier = λ f.
      (let g = k.frontier f in
        record { visited_once = g.visited_once; queued_once = g.queued_once; apart = g.apart });
  recent = k.recent;
}
finish-IsCrawled o s t e r false k p z = record {
  url = p;
  visited = k.visited;
  results = k.results;
  recovery_count = omega (arith, k.recovery_count, z);
  dead_links = ap length k.dead_links ∙ omega (arith, z);
  unique_pages = k.unique_pages;
  extracted_links = k.extracted_links;
  queued = k.queued;
  frontier = k.frontier;
  recent = k.recent;
}

pub crawl_existing_page_lem :
    (w : Platform) (o : CrawlerOptions) (s : Crawler) (url : Text) (v : Visit)
    → IsKept o s (crawl_existing_page w o s url v).1.crawler
      × (recovered_of (crawl_existing_page w o s url v).0 ≡ 0)
      × ((crawl_existing_page w o s url v).0.url ≡ url)
unfolding crawl_existing_page
crawl_existing_page_lem w o s url v =
    let m = handle_events w o url (begin s) v.events in
    let p = page_result_of w o url s.blocked_external_count m v v.outcome refl in
    (handle_events-IsKept w o url (begin s) v.events, p.0, p.1)

pub crawl_page-IsCrawled :
    (w : Platform) (o : CrawlerOptions) (s : Crawler) (e : QueueEntry) (v : Visit)
    → IsCrawled o s (crawl_page w o s e v).1 e (crawl_page w o s e v).0
unfolding crawl_page
crawl_page-IsCrawled w o s e v =
    let x = crawl_existing_page w o s e.url v in
    let k = crawl_existing_page_lem w o s e.url v in
    elim (Option-cases (dead_code o (with_source e x.0))) [
      | inl p ↦
          rw (p, crawl_page)
            (finish-IsCrawled o s x.1.crawler e (with_source e x.0) (is_ok (with_source e x.0)) k.0
              k.2 k.1)
      | inr (code, p) ↦
          rw (p, crawl_page) (recover-IsCrawled w o s e (with_source e x.0) code x.1 v k.0 k.2)
    ]
