-- ===== src/Crawler/Page/Actions.antt =====
-- The bound on the actions of a page, and the result's list of blocked navigations, of
-- js/playwright-chaos/src/crawler.ts.
use luna_mbt.Crawler.Visit.{Visit, begin, page_result, crawl_existing_page}
use luna_mbt.Crawler.Kept.Events.{perform_action_of}
use luna_mbt.Crawler.Page.{
  Session, Attempt, PageEvent, on_request_failed, on_request, track_link, perform_action,
  run_attempt, handle_event, handle_events,
}
use luna_mbt.Crawler.Page.PageEvent.{
  console_error, console_warning, page_error, request_failed, rejection, request, attempt,
}
use luna_mbt.Crawler.Frontier.{length-snoc}
use luna_mbt.Crawler.State.{Platform, Crawler, push_clicked, add_to_history}
use luna_mbt.Crawler.Types.{CrawlerOptions}
use luna_mbt.Prelude.{
  ◌≡◌, refl, ◌∙◌, ap, inl, inr, ℕ, ◌+◌, ◌*◌, ◌≤◌, ◌&&◌, Option, none, some, List, [], ◌∷◌, arith,
  Text, length, ltb, Bool-cases, Option-cases,
}

-- The page has recorded as many actions as it counts, on top of `n` before it, within the option.
record IsWithin (o : CrawlerOptions) (n : ℕ) (m : Session) : Type 0 where
  recorded : length m.crawler.actions ≡ n + m.actions_performed
  within : m.actions_performed ≤ o.max_actions_per_page

track_link-actions :
    (w : Platform) (s : Crawler) (a : Attempt) (url : Text)
    → (track_link w s a url).actions ≡ s.actions
unfolding track_link push_clicked
track_link-actions w s a url = ground arith

perform_action-actions :
    (w : Platform) (s : Crawler) (a : Attempt) (url : Text)
    → (perform_action w s a url).1.actions ≡ s.actions
perform_action-actions w s a url = elim (perform_action_of w s a url a.target.type refl) [
  | inl p ↦ ap (λ t. t.actions) p
  | inr p ↦ ap (λ t. t.actions) p ∙ track_link-actions w s a url
]

run_attempt-IsWithin :
    (w : Platform) (o : CrawlerOptions) (url : Text) (n : ℕ) (m : Session) (a : Attempt)
    → IsWithin o n m
    → IsWithin o n (run_attempt w o url m a)
unfolding run_attempt add_to_history
run_attempt-IsWithin w o url n m a h =
    elim (Bool-cases (
      ltb m.actions_performed o.max_actions_per_page
      && ltb m.attempts (o.max_actions_per_page * 3))) [
        | inr over ↦ rw over h
        | inl next ↦ rw next (elim (Option-cases (perform_action w m.crawler a url).0) [
          | inl p ↦ rw p (record {
            recorded = ap length (perform_action-actions w m.crawler a url) ∙ h.recorded;
            within = h.within;
          })
          | inr (r, p) ↦ rw p (record {
            recorded =
                length-snoc (perform_action w m.crawler a url).1.actions r
                ∙ omega (arith, ap length (perform_action-actions w m.crawler a url), h.recorded);
            within = ground arith;
          })
        ])
      ]

handle_event-IsWithin :
    (w : Platform) (o : CrawlerOptions) (url : Text) (n : ℕ) (m : Session) (e : PageEvent)
    → IsWithin o n m
    → IsWithin o n (handle_event w o url m e)
unfolding handle_event on_request on_request_failed
handle_event-IsWithin w o url n m (console_error text now) h = record {
  recorded = ground (arith, h.recorded);
  within = ground (arith, h.within);
}
handle_event-IsWithin w o url n m (console_warning text) h = record {
  recorded = h.recorded;
  within = h.within;
}
handle_event-IsWithin w o url n m (page_error message stack now) h = record {
  recorded = ground (arith, h.recorded);
  within = ground (arith, h.within);
}
handle_event-IsWithin w o url n m (request_failed request_url error_text now) h = record {
  recorded = ground (arith, h.recorded);
  within = ground (arith, h.within);
}
handle_event-IsWithin w o url n m (rejection message stack now) h = record {
  recorded = h.recorded;
  within = h.within;
}
handle_event-IsWithin w o url n m (request request_url is_navigation) h = record {
  recorded = ground (arith, h.recorded);
  within = h.within;
}
handle_event-IsWithin w o url n m (attempt a) h = run_attempt-IsWithin w o url n m a h

handle_events-IsWithin :
    (w : Platform) (o : CrawlerOptions) (url : Text) (n : ℕ) (m : Session) (es : List PageEvent)
    → IsWithin o n m
    → IsWithin o n (handle_events w o url m es)
unfolding handle_events
handle_events-IsWithin w o url n m [] h = h
handle_events-IsWithin w o url n m (e ∷ es) h =
    handle_events-IsWithin w o url n (handle_event w o url m e) es
      (handle_event-IsWithin w o url n m e h)

-- Whatever happens on a page, visiting it records at most `maxActionsPerPage` actions.
pub length-actions-crawl_existing_page :
    (w : Platform) (o : CrawlerOptions) (s : Crawler) (url : Text) (v : Visit)
    → length (crawl_existing_page w o s url v).1.crawler.actions
      ≤ length s.actions + o.max_actions_per_page
unfolding crawl_existing_page
length-actions-crawl_existing_page w o s url v =
    let h =
      handle_events-IsWithin w o url (length s.actions) (begin s) v.events
        (record { recorded = omega arith; within = omega arith }) in
    omega (arith, h.recorded, h.within)

abbrev pub entries : Option (List Text) → List Text
entries none = []
entries (some l) = l

-- The list of blocked navigations of a page's result never has an entry, whatever the page
-- requested.
blocked_navigations-crawl_existing_page :
    (w : Platform) (o : CrawlerOptions) (s : Crawler) (url : Text) (v : Visit)
    → entries (crawl_existing_page w o s url v).0.blocked_navigations ≡ []
unfolding crawl_existing_page page_result
blocked_navigations-crawl_existing_page w o s url v = ground arith
