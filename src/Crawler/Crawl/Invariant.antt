-- ===== src/Crawler/Crawl/Invariant.antt =====
-- The invariant of the loop of `start` of js/playwright-chaos/src/crawler.ts.
use luna_mbt.Crawler.Crawl.{visit_entry, crawl_entry}
use luna_mbt.Crawler.Visit.{Visit, crawl_page}
use luna_mbt.Crawler.Crawl.Pushed.{push_extracted-IsPushed}
use luna_mbt.Crawler.Crawl.Result.{recovered_of, crawl_page-IsCrawled}
use luna_mbt.Crawler.Frontier.{IsFrontier, length-snoc}
use luna_mbt.Crawler.Recent.{IsRecent, last_n}
use luna_mbt.Crawler.State.{Platform, Crawler, urls, should_exclude}
use luna_mbt.Crawler.Types.{PageResult, QueueEntry, CrawlerOptions}
use luna_mbt.Prelude.{
  ◌≡◌, ◌⊎◌, refl, sym, ap, ap₂, ◌∙◌, inl, inr, ℕ, ◌+◌, ◌≤◌, true, false, List, [], ◌∷◌, ◌++◌, map,
  arith, Text, text_eq, text_beq_iff, length, includes, IsDistinct, IsDistinct-snoc, subst,
  beq_self, includes-snoc, sum_by, sum_by-append, ltb, All, All-append, Bool-cases,
}

-- The invariant: no URL is queued or visited twice; there is one result for each visited page, in
-- the order of the visits; no excluded page is visited; at most `maxPages` are; the counters agree
-- with the lists; and every entry queued or visited was the initial one, extracted or clicked.
pub record IsCrawl (w : Platform) (o : CrawlerOptions) (s : Crawler) : Type 0 where
  pub frontier : IsFrontier s
  pub recent : IsRecent o s
  pub crawled : map (λ r. r.url) s.results ≡ s.visited
  pub wanted : All (λ u. should_exclude w o u ≡ false) s.visited
  pub bounded : length s.visited ≤ o.max_pages
  pub unique_pages : s.discovery_metrics.unique_pages ≡ length s.visited
  pub recovered : s.recovery_count ≡ sum_by recovered_of s.results
  pub dead_links : length s.discovery_metrics.dead_links ≡ s.recovery_count
  pub discovered :
      length s.queue + length s.visited
      ≤ 1 + s.discovery_metrics.extracted_links + s.discovery_metrics.clicked_links

map-snoc {ℓ κ} :
    {A : Type ℓ} {B : Type κ} (f : A → B) (xs : List A) (a : A)
    → map f (xs ++ a ∷ []) ≡ map f xs ++ f a ∷ []
map-snoc f [] a = refl
map-snoc f (x ∷ xs) a = ground (arith, map-snoc f xs a)

-- The state from which the page of the entry `e` is visited.
abbrev entered : Crawler → QueueEntry → Crawler
entered s e = record s {
  visited = s.visited ++ e.url ∷ [];
  discovery_metrics = record s.discovery_metrics {
    unique_pages = s.discovery_metrics.unique_pages + 1;
  };
}

-- `t` comes from `s` by visiting the page of the entry `e`, which is off the queue.
record IsVisited (o : CrawlerOptions) (s t : Crawler) (e : QueueEntry) : Type 0 where
  result : PageResult
  url : result.url ≡ e.url
  visited : t.visited ≡ s.visited ++ e.url ∷ []
  results : t.results ≡ s.results ++ result ∷ []
  recovery_count : t.recovery_count ≡ s.recovery_count + recovered_of result
  dead_links :
      length t.discovery_metrics.dead_links
      ≡ length s.discovery_metrics.dead_links + recovered_of result
  unique_pages : t.discovery_metrics.unique_pages ≡ s.discovery_metrics.unique_pages + 1
  queued :
      length t.queue + s.discovery_metrics.extracted_links + s.discovery_metrics.clicked_links
      ≡ length s.queue + t.discovery_metrics.extracted_links + t.discovery_metrics.clicked_links
  frontier : IsFrontier (entered s e) → IsFrontier t
  recent : IsRecent o s → IsRecent o t

sum_by-snoc {ℓ} :
    {A : Type ℓ} (f : A → ℕ) (xs : List A) (a : A) → sum_by f (xs ++ a ∷ []) ≡ sum_by f xs + f a
unfolding sum_by
sum_by-snoc f xs a = omega (arith, sum_by-append f xs (a ∷ []))

module _ (s : Crawler) (e : QueueEntry) (q : List QueueEntry) (p : s.queue ≡ e ∷ q) where
  head_once : IsFrontier s → (includes (urls q) e.url ≡ false) × IsDistinct (urls q)
  unfolding urls
  head_once f = subst (λ x. IsDistinct (urls x)) p f.queued_once

  head_new : IsFrontier s → includes s.visited e.url ≡ false
  unfolding urls includes
  head_new f = f.apart e.url (rw p (ground (arith, beq_self e.url)))

  tail_apart : (u : Text) → IsFrontier s → includes (urls q) u ≡ true → includes s.visited u ≡ false
  unfolding urls includes
  tail_apart u f h = f.apart u (rw p (ground arith))

  shifted-IsFrontier : IsFrontier s → IsFrontier (record s { queue = q })
  shifted-IsFrontier f = record {
    visited_once = f.visited_once;
    queued_once = (head_once f).1;
    apart = λ u h. tail_apart u f h;
  }

  -- The head of the queue moves to the visited set.
  entered-IsFrontier : IsFrontier s → IsFrontier (entered (record s { queue = q }) e)
  entered-IsFrontier f = record {
    visited_once = IsDistinct-snoc s.visited e.url f.visited_once (head_new f);
    queued_once = (head_once f).1;
    apart = λ u h. ground (
      arith,
      includes-snoc s.visited e.url u,
      tail_apart u f h,
      text_beq_iff e.url u,
      (head_once f).0,
    );
  }

  module _ (w : Platform) (o : CrawlerOptions) (browse : ℕ → Text → Visit) where
    visit_entry-IsVisited :
        IsVisited o (record s { queue = q }) (visit_entry w o browse (record s { queue = q }) e) e
    unfolding visit_entry
    visit_entry-IsVisited =
        let s0 = entered (record s { queue = q }) e in
        let v = browse (length s0.visited) e.url in
        let r = (crawl_page w o s0 e v).0 in
        let t = (crawl_page w o s0 e v).1 in
        let c = crawl_page-IsCrawled w o s0 e v in
        let x =
          push_extracted-IsPushed (record t { results = t.results ++ r ∷ [] }) e.url r.links in
        record {
          result = r;
          url = c.url;
          visited = x.visited ∙ c.visited;
          results = x.results ∙ ap (λ l. l ++ r ∷ []) c.results;
          recovery_count = x.recovery_count ∙ c.recovery_count;
          dead_links = ap length x.dead_links ∙ c.dead_links;
          unique_pages = x.unique_pages ∙ c.unique_pages;
          queued = omega (arith, x.queued, c.queued, x.clicked_links, c.extracted_links);
          frontier = λ f. x.frontier (
              let g = c.frontier f in
              record {
                visited_once = g.visited_once;
                queued_once = g.queued_once;
                apart = g.apart;
              });
          recent = λ h.
              x.action_history ∙ (c.recent h ∙ ap (last_n o.recovery_history_size) (sym x.actions));
        }

    visit_entry-IsCrawl :
        IsCrawl w o s
        → ltb (length s.visited) o.max_pages ≡ true
        → should_exclude w o e.url ≡ false
        → IsCrawl w o (visit_entry w o browse (record s { queue = q }) e)
    visit_entry-IsCrawl i room kept =
        let x = visit_entry-IsVisited in
        record {
          frontier = x.frontier (entered-IsFrontier i.frontier);
          recent = x.recent i.recent;
          crawled =
              rw (x.results, x.visited)
                (map-snoc (λ r. r.url) s.results x.result
                  ∙ ap₂ (λ a b. a ++ b ∷ []) i.crawled x.url);
          wanted = rw x.visited (
              All-append (λ u. should_exclude w o u ≡ false) s.visited (e.url ∷ []) i.wanted
                (kept, tt));
          bounded = rw x.visited (ground (arith, length-snoc s.visited e.url));
          unique_pages =
              rw x.visited
                (omega (arith, x.unique_pages, i.unique_pages, length-snoc s.visited e.url));
          recovered = rw x.results (
              omega (
                arith,
                x.recovery_count,
                i.recovered,
                sum_by-snoc recovered_of s.results x.result,
              ));
          dead_links = omega (arith, x.dead_links, x.recovery_count, i.dead_links);
          discovered =
              rw x.visited
                (omega (arith, length-snoc s.visited e.url, x.queued, i.discovered, ap length p));
        }

    -- An iteration of the loop keeps the invariant.
    pub crawl_entry-IsCrawl :
        IsCrawl w o s
        → ltb (length s.visited) o.max_pages ≡ true
        → IsCrawl w o (crawl_entry w o browse (record s { queue = q }) e)
    unfolding crawl_entry
    crawl_entry-IsCrawl i room =
        rw (head_new i.frontier) (elim (Bool-cases (should_exclude w o e.url)) [
          | inl out ↦ rw out (record {
            frontier = shifted-IsFrontier i.frontier;
            recent = i.recent;
            crawled = i.crawled;
            wanted = i.wanted;
            bounded = i.bounded;
            unique_pages = i.unique_pages;
            recovered = i.recovered;
            dead_links = i.dead_links;
            discovered = omega (arith, i.discovered, ap length p);
          })
          | inr kept ↦ rw kept (visit_entry-IsCrawl i room kept)
        ])

    -- An iteration drops the entry, or visits one more page.
    pub crawl_entry_cases :
        (crawl_entry w o browse (record s { queue = q }) e ≡ record s { queue = q })
        ⊎ (length (crawl_entry w o browse (record s { queue = q }) e).visited
            ≡ length s.visited + 1)
    unfolding crawl_entry
    crawl_entry_cases = elim (Bool-cases (includes s.visited e.url)) [
      | inl old ↦ inl (rw old refl)
      | inr new ↦ elim (Bool-cases (should_exclude w o e.url)) [
        | inl out ↦ inl (rw (new, out) refl)
        | inr kept ↦
            inr (
              rw (new, kept)
                (ap length visit_entry-IsVisited.visited ∙ length-snoc s.visited e.url))
      ]
    ]
