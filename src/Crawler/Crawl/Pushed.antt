-- ===== src/Crawler/Crawl/Pushed.antt =====
-- What the loop of `start` over the links of a page does to the state
-- (js/playwright-chaos/src/crawler.ts).
use luna_mbt.Crawler.Frontier.{IsFrontier, push_link-IsFrontier, length-snoc}
use luna_mbt.Crawler.State.{Crawler, is_known, push_link, push_extracted}
use luna_mbt.Prelude.{
  ◌≡◌, refl, ◌∙◌, inl, inr, ◌+◌, List, [], ◌∷◌, arith, Text, text_eq, length, Bool-cases,
}

-- `t` comes from `s` by queueing links.
pub record IsPushed (s t : Crawler) : Type 0 where
  pub visited : t.visited ≡ s.visited
  pub results : t.results ≡ s.results
  pub actions : t.actions ≡ s.actions
  pub action_history : t.action_history ≡ s.action_history
  pub recovery_count : t.recovery_count ≡ s.recovery_count
  pub dead_links : t.discovery_metrics.dead_links ≡ s.discovery_metrics.dead_links
  pub unique_pages : t.discovery_metrics.unique_pages ≡ s.discovery_metrics.unique_pages
  pub clicked_links : t.discovery_metrics.clicked_links ≡ s.discovery_metrics.clicked_links
  pub queued :
      length t.queue + s.discovery_metrics.extracted_links
      ≡ length s.queue + t.discovery_metrics.extracted_links
  pub frontier : IsFrontier s → IsFrontier t

push_link-IsPushed : (s : Crawler) (source link : Text) → IsPushed s (push_link s source link)
unfolding push_link
push_link-IsPushed s source link = record {
  visited = ground arith;
  results = ground arith;
  actions = ground arith;
  action_history = ground arith;
  recovery_count = ground arith;
  dead_links = ground arith;
  unique_pages = ground arith;
  clicked_links = ground arith;
  queued = elim (Bool-cases (is_known s link)) [
    | inl old ↦ rw old refl
    | inr new ↦ rw new (grind (arith, length-snoc))
  ];
  frontier = push_link-IsFrontier s source link;
}

pub push_extracted-IsPushed :
    (s : Crawler) (source : Text) (links : List Text) → IsPushed s (push_extracted s source links)
unfolding push_extracted
push_extracted-IsPushed s source [] = record {
  visited = refl;
  results = refl;
  actions = refl;
  action_history = refl;
  recovery_count = refl;
  dead_links = refl;
  unique_pages = refl;
  clicked_links = refl;
  queued = refl;
  frontier = λ f. f;
}
push_extracted-IsPushed s source (link ∷ links) =
    let p = push_link-IsPushed s source link in
    let q = push_extracted-IsPushed (push_link s source link) source links in
    record {
      visited = q.visited ∙ p.visited;
      results = q.results ∙ p.results;
      actions = q.actions ∙ p.actions;
      action_history = q.action_history ∙ p.action_history;
      recovery_count = q.recovery_count ∙ p.recovery_count;
      dead_links = q.dead_links ∙ p.dead_links;
      unique_pages = q.unique_pages ∙ p.unique_pages;
      clicked_links = q.clicked_links ∙ p.clicked_links;
      queued = omega (arith, p.queued, q.queued);
      frontier = λ f. q.frontier (p.frontier f);
    }
