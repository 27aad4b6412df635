-- ===== src/Crawler/Kept/Events.antt =====
-- Every event of a page (js/playwright-chaos/src/crawler.ts) keeps what `IsKept` lists.
use luna_mbt.Crawler.Frontier.{push_clicked-IsFrontier, length-snoc}
use luna_mbt.Crawler.Kept.{IsKept, IsKept-refl, IsKept-trans, if-IsKept}
use luna_mbt.Crawler.Page.{
  Session, Attempt, PageEvent, on_request_failed, on_request, track_link, perform_action,
  run_attempt, href_of, handle_event, handle_events,
}
use luna_mbt.Crawler.Page.PageEvent.{
  console_error, console_warning, page_error, request_failed, rejection, request, attempt,
}
use luna_mbt.Crawler.Recent.{add_to_history-IsRecent}
use luna_mbt.Crawler.State.{
  Platform, Crawler, is_external_url, is_known, should_ignore_error, matches_spa_pattern,
  add_to_history, push_clicked,
}
use luna_mbt.Crawler.Types.{ActionResult, TargetType, SpaIssueInfo, CrawlerOptions}
use luna_mbt.Js.Text.{js, is_empty, starts_with}
use luna_mbt.Prelude.{
  ◌||◌, ◌≡◌, refl, inl, inr, ℕ, ◌*◌, ◌&&◌, Option, List, [], ◌∷◌, ◌++◌, arith, Text, ltb,
  Bool-cases, Option-cases, ◌⊎◌,
}

push_clicked-IsKept :
    (o : CrawlerOptions) (s : Crawler) (url source element : Text)
    → IsKept o s (push_clicked s url source element)
unfolding push_clicked
push_clicked-IsKept o s url source element = elim (Bool-cases (is_known s url)) [
  | inl old ↦ rw old (IsKept-refl o s)
  | inr new ↦ record {
    visited = rw new refl;
    results = rw new refl;
    base_origin = rw new refl;
    last_successful_url = rw new refl;
    recovery_count = rw new refl;
    dead_links = rw new refl;
    unique_pages = rw new refl;
    extracted_links = rw new refl;
    queued = rw new (grind (arith, length-snoc));
    frontier = push_clicked-IsFrontier s url source element;
    recent = λ h. rw new h;
  }
]

track_link-IsKept :
    (w : Platform) (o : CrawlerOptions) (s : Crawler) (a : Attempt) (url : Text)
    → IsKept o s (track_link w s a url)
unfolding track_link
track_link-IsKept w o s a url =
    if-IsKept o s s _
      (is_empty (href_of a)
        || (starts_with (href_of a) (js "#") || starts_with (href_of a) (js "javascript:")))
      (IsKept-refl o s)
      (elim (Option-cases (w.resolve (href_of a) url)) [
        | inl none_found ↦ rw none_found (IsKept-refl o s)
        | inr (absolute, found) ↦ rw found (push_clicked-IsKept o s absolute url _)
      ])

pub perform_action_of :
    (w : Platform) (s : Crawler) (a : Attempt) (url : Text) (k : TargetType)
    → a.target.type ≡ k
    → ((perform_action w s a url).1 ≡ s) ⊎ ((perform_action w s a url).1 ≡ track_link w s a url)
unfolding perform_action
perform_action_of w s a url TargetType.scroll p = inl (rw p refl)
perform_action_of w s a url TargetType.input p = inl (rw p (ground arith))
perform_action_of w s a url TargetType.button p = inl (rw p (ground arith))
perform_action_of w s a url TargetType.interactive p = inl (rw p (ground arith))
perform_action_of w s a url TargetType.link p = rw p (ground arith)

perform_action-IsKept :
    (w : Platform) (o : CrawlerOptions) (s : Crawler) (a : Attempt) (url : Text)
    → IsKept o s (perform_action w s a url).1
perform_action-IsKept w o s a url = elim (perform_action_of w s a url a.target.type refl) [
  | inl p ↦ rw p (IsKept-refl o s)
  | inr p ↦ rw p (track_link-IsKept w o s a url)
]

record_action-IsKept :
    (o : CrawlerOptions) (s : Crawler) (r : ActionResult)
    → IsKept o s (add_to_history o (record s { actions = s.actions ++ r ∷ [] }) r)
unfolding add_to_history
record_action-IsKept o s r = record {
  visited = refl;
  results = refl;
  base_origin = refl;
  last_successful_url = refl;
  recovery_count = refl;
  dead_links = refl;
  unique_pages = refl;
  extracted_links = refl;
  queued = refl;
  frontier =
      λ f. record { visited_once = f.visited_once; queued_once = f.queued_once; apart = f.apart };
  recent = add_to_history-IsRecent o s r;
}

run_attempt-IsKept :
    (w : Platform) (o : CrawlerOptions) (url : Text) (m : Session) (a : Attempt)
    → IsKept o m.crawler (run_attempt w o url m a).crawler
unfolding run_attempt
run_attempt-IsKept w o url m a =
    elim (Bool-cases (
      ltb m.actions_performed o.max_actions_per_page
      && ltb m.attempts (o.max_actions_per_page * 3))) [
        | inr over ↦ rw over (IsKept-refl o m.crawler)
        | inl next ↦ rw next (elim (Option-cases (perform_action w m.crawler a url).0) [
          | inl p ↦ rw p (perform_action-IsKept w o m.crawler a url)
          | inr (r, p) ↦ rw p (
              IsKept-trans o m.crawler (perform_action w m.crawler a url).1 _
                (perform_action-IsKept w o m.crawler a url)
                (record_action-IsKept o (perform_action w m.crawler a url).1 r))
        ])
      ]

annotate-IsKept :
    (o : CrawlerOptions) (s : Crawler) (blocked : ℕ) (issues : List SpaIssueInfo)
    → IsKept o s (record s {
      blocked_external_count = blocked;
      discovery_metrics = record s.discovery_metrics { spa_issues = issues };
    })
annotate-IsKept o s blocked issues = record {
  visited = refl;
  results = refl;
  base_origin = refl;
  last_successful_url = refl;
  recovery_count = refl;
  dead_links = refl;
  unique_pages = refl;
  extracted_links = refl;
  queued = refl;
  frontier =
      λ f. record { visited_once = f.visited_once; queued_once = f.queued_once; apart = f.apart };
  recent = λ h. h;
}

on_request_failed_lem :
    (w : Platform) (o : CrawlerOptions) (url : Text) (m : Session) (request_url : Text)
    (error_text : Option Text) (now : ℕ)
    → IsKept o m.crawler (on_request_failed w o url m request_url error_text now).crawler
unfolding on_request_failed
on_request_failed_lem w o url m request_url error_text now =
    elim (Bool-cases (should_ignore_error w o request_url)) [
      | inl ignored ↦ rw ignored (IsKept-refl o m.crawler)
      | inr counted ↦ rw counted (elim (Option-cases (matches_spa_pattern w o request_url)) [
        | inl p ↦ rw p (IsKept-refl o m.crawler)
        | inr (pattern, p) ↦ rw p (annotate-IsKept o m.crawler m.crawler.blocked_external_count _)
      ])
    ]

pub handle_event-IsKept :
    (w : Platform) (o : CrawlerOptions) (url : Text) (m : Session) (e : PageEvent)
    → IsKept o m.crawler (handle_event w o url m e).crawler
unfolding handle_event on_request
handle_event-IsKept w o url m (console_error text now) =
    elim (Bool-cases (should_ignore_error w o text)) [
      | inl p ↦ rw p (IsKept-refl o m.crawler)
      | inr p ↦ rw p (IsKept-refl o m.crawler)
    ]
handle_event-IsKept w o url m (console_warning text) = IsKept-refl o m.crawler
handle_event-IsKept w o url m (page_error message stack now) =
    elim (Bool-cases (should_ignore_error w o message)) [
      | inl p ↦ rw p (IsKept-refl o m.crawler)
      | inr p ↦ rw p (IsKept-refl o m.crawler)
    ]
handle_event-IsKept w o url m (request_failed request_url error_text now) =
    on_request_failed_lem w o url m request_url error_text now
handle_event-IsKept w o url m (rejection message stack now) = IsKept-refl o m.crawler
handle_event-IsKept w o url m (request request_url is_navigation) =
    if-IsKept o m.crawler _ _
      (o.block_external_navigation && (is_external_url w m.crawler request_url && is_navigation))
      (annotate-IsKept o m.crawler _ m.crawler.discovery_metrics.spa_issues)
      (IsKept-refl o m.crawler)
handle_event-IsKept w o url m (attempt a) = run_attempt-IsKept w o url m a

pub handle_events-IsKept :
    (w : Platform) (o : CrawlerOptions) (url : Text) (m : Session) (es : List PageEvent)
    → IsKept o m.crawler (handle_events w o url m es).crawler
unfolding handle_events
handle_events-IsKept w o url m [] = IsKept-refl o m.crawler
handle_events-IsKept w o url m (e ∷ es) =
    IsKept-trans o m.crawler _ _ (handle_event-IsKept w o url m e)
      (handle_events-IsKept w o url (handle_event w o url m e) es)
