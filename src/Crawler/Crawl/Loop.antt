-- ===== src/Crawler/Crawl/Loop.antt =====
-- The loop of `start` of js/playwright-chaos/src/crawler.ts: its invariant and its end.
use luna_mbt.Crawler.Crawl.{crawl_entry, crawl_step, crawl, start}
use luna_mbt.Crawler.Visit.{Visit}
use luna_mbt.Crawler.Crawl.Invariant.{IsCrawl, crawl_entry-IsCrawl, crawl_entry_cases}
use luna_mbt.Crawler.Recent.{last_n_nil}
use luna_mbt.Crawler.State.{Platform, Crawler, reset, urls}
use luna_mbt.Crawler.Types.{QueueEntry, CrawlerOptions}
use luna_mbt.Prelude.{
  ◌≡◌, ◌⊎◌, refl, sym, subst, inl, inr, ℕ, zero, suc, ◌+◌, ◌-◌, ◌≤◌, true, false, none, some, List,
  [], ◌∷◌, arith, Text, text_eq, length, includes, sum_by, ltb, Bool-cases,
}

module _ (w : Platform) (o : CrawlerOptions) (browse : ℕ → Text → Visit) where
  -- The loop is over: the queue is empty, or the budget of pages is used up.
  abbrev pub IsOver : Crawler → Type 0
  IsOver s = (s.queue ≡ []) ⊎ (o.max_pages ≤ length s.visited)

  -- The loop ends in a state with the invariant.
  pub record Ends (s : Crawler) : Type 0 where
    pub fuel : ℕ
    pub final : Crawler
    pub ends : crawl w o browse fuel s ≡ some final
    pub over : IsOver final
    pub invariant : IsCrawl w o final

  step_over : (s : Crawler) → IsCrawl w o s → crawl_step w o browse s ≡ none → IsOver s → Ends s
  unfolding crawl
  step_over s i h over = record {
    fuel = 1;
    final = s;
    ends = rw (h, crawl) refl;
    over = over;
    invariant = i;
  }

  step_on : (s t : Crawler) → crawl_step w o browse s ≡ some t → Ends t → Ends s
  unfolding crawl
  step_on s t h k = record {
    fuel = suc k.fuel;
    final = k.final;
    ends = rw (h, crawl) k.ends;
    over = k.over;
    invariant = k.invariant;
  }

  step_empty : (s : Crawler) → s.queue ≡ [] → crawl_step w o browse s ≡ none
  unfolding crawl_step
  step_empty s p = rw p refl

  step_full :
      (s : Crawler) (e : QueueEntry) (q : List QueueEntry)
      → s.queue ≡ e ∷ q
      → ltb (length s.visited) o.max_pages ≡ false
      → crawl_step w o browse s ≡ none
  unfolding crawl_step
  step_full s e q p h = rw p (rw h refl)

  step_next :
      (s : Crawler) (e : QueueEntry) (q : List QueueEntry)
      → s.queue ≡ e ∷ q
      → ltb (length s.visited) o.max_pages ≡ true
      → crawl_step w o browse s ≡ some (crawl_entry w o browse (record s { queue = q }) e)
  unfolding crawl_step
  step_next s e q p h = rw p (rw h refl)

  -- By the length of the queue, where a smaller budget of pages is known to suffice.
  by_queue :
      (budget : ℕ)
      → ((t : Crawler) → IsCrawl w o t → suc (o.max_pages) ≤ length t.visited + budget → Ends t)
      → (q : List QueueEntry) (s : Crawler) → s.queue ≡ q
      → IsCrawl w o s
      → o.max_pages ≤ length s.visited + budget
      → Ends s
  by_queue budget less [] s p i h = step_over s i (step_empty s p) (inl p)
  by_queue budget less (e ∷ q) s p i h = elim (Bool-cases (ltb (length s.visited) o.max_pages)) [
    | inr full ↦ step_over s i (step_full s e q p full) (inr (ground arith))
    | inl room ↦
        let t = crawl_entry w o browse (record s { queue = q }) e in
        let j = crawl_entry-IsCrawl s e q p w o browse i room in
        step_on s t (step_next s e q p room) (elim (crawl_entry_cases s e q p w o browse) [
          | inl same ↦
              subst Ends (sym same) (
                by_queue budget less q (record s { queue = q }) refl (subst (IsCrawl w o) same j) h)
          | inr more ↦ less t j (omega (arith, h, more))
        ])
  ]

  by_budget :
      (budget : ℕ) (s : Crawler) → IsCrawl w o s → o.max_pages ≤ length s.visited + budget → Ends s
  by_budget zero s i h =
      by_queue zero (λ t j k. absurd (omega (arith, j.bounded, k))) s.queue s refl i h
  by_budget (suc budget) s i h =
      by_queue (suc budget) (λ t j k. by_budget budget t j (omega (arith, k))) s.queue s refl i h

  reset-IsCrawl : (origin : Text) → IsCrawl w o (reset o origin)
  unfolding reset urls includes sum_by
  reset-IsCrawl origin = record {
    frontier = record { visited_once = tt; queued_once = (refl, tt); apart = λ u h. refl };
    recent = last_n_nil (0 - o.recovery_history_size);
    crawled = refl;
    wanted = tt;
    bounded = omega arith;
    unique_pages = refl;
    recovered = refl;
    dead_links = refl;
    discovered = omega arith;
  }

  -- The crawl ends: some fuel lets the loop of `start` run to its end, and then the queue is empty
  -- or `maxPages` pages are visited, and the invariant holds: no URL was visited or queued twice,
  -- the results are those of the visited pages in their order, no page was excluded, at most
  -- `maxPages` were visited, and the counters agree with the lists.
  pub start-IsCrawl :
      (origin : Text)
      → (fuel : ℕ) × (t : Crawler) × (start w o origin browse fuel ≡ some t)
        × IsOver t
        × IsCrawl w o t
  unfolding start
  start-IsCrawl origin =
      let k = by_budget o.max_pages (reset o origin) (reset-IsCrawl origin) (ground arith) in
      (k.fuel, k.final, k.ends, k.over, k.invariant)
