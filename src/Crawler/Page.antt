-- ===== src/Crawler/Page.antt =====
-- One page of the crawl, in js/playwright-chaos/src/crawler.ts: the listeners of
-- `crawlPageWithExistingPage` and `setupNavigationBlocking`, `performActionOnTarget` and the loop of
-- `performWeightedActions`. What the browser does is a list of events.
pub mod Actions
use luna_mbt.Crawler.State.{
  Platform, Crawler, is_external_url, should_ignore_error, matches_spa_pattern, add_to_history,
  push_clicked,
}
use luna_mbt.Crawler.Types.{
  ErrorType, PageError, TargetType, ActionTarget, ActionType, ActionResult, SpaIssueType,
  SpaIssueInfo, CrawlerOptions,
}
use luna_mbt.Js.Text.{js, is_empty, starts_with}
use luna_mbt.Prelude.{
  ℕ, ◌+◌, ◌*◌, Bool, true, false, not, ◌&&◌, ◌||◌, Option, none, some, List, [], ◌∷◌, ◌++◌, Text,
  if◌then◌else◌, ltb,
}

-- The crawler with the local variables of the page's functions.
pub record Session : Type 0 where
  pub crawler : Crawler
  pub errors : List PageError
  pub warnings : List Text
  pub actions_performed : ℕ
  pub attempts : ℕ

-- A round of the action loop: the target selected, what its element answers, and the message with
-- which the call of the page throws, if it does. `scroll_text` is the `target` of a scroll.
pub record Attempt : Type 0 where
  pub target : ActionTarget
  pub scroll_text : Text
  pub visible : Bool
  pub href_attribute : Option Text
  pub failure : Option Text
  pub timestamp : ℕ

pub data PageEvent : Type 0 where
  console_error : Text → ℕ → PageEvent
  console_warning : Text → PageEvent
  page_error : Text → Option Text → ℕ → PageEvent
  request_failed : Text → Option Text → ℕ → PageEvent
  rejection : Text → Option Text → ℕ → PageEvent
  request : Text → Bool → PageEvent
  attempt : Attempt → PageEvent

-- `a || b` on strings
abbrev pub or_else : Option Text → Text → Text
or_else none b = b
or_else (some a) b = if is_empty a then b else a

abbrev push_error : Session → PageError → Session
push_error m e = record m { errors = m.errors ++ e ∷ [] }

abbrev pub report_error : Session → ErrorType → Text → Option Text → Text → ℕ → Session
report_error m type message stack url now =
    push_error m
      (record { type = type; message = message; url = some url; stack = stack; timestamp = now })

abbrev push_spa_issue : Crawler → SpaIssueInfo → Crawler
push_spa_issue s i = record s {
  discovery_metrics = record s.discovery_metrics {
    spa_issues = s.discovery_metrics.spa_issues ++ i ∷ [];
  };
}

-- The `requestfailed` listener.
unfoldable pub on_request_failed :
    Platform → CrawlerOptions → Text → Session → Text → Option Text → ℕ → Session
on_request_failed w o url m request_url error_text now =
    if should_ignore_error w o request_url then m else elim (matches_spa_pattern w o request_url) [
      | some pattern ↦ record m {
        crawler = push_spa_issue m.crawler (record {
          url = request_url;
          type = SpaIssueType.routing_404;
          message = or_else error_text (js "SPA routing issue");
          matched_pattern = pattern;
        });
      }
      | none ↦
          report_error m ErrorType.network
            (request_url ++ (js " - " ++ or_else error_text (js "Unknown error"))) none url now
    ]

-- The route handler of `setupNavigationBlocking`.
unfoldable pub on_request : Platform → CrawlerOptions → Crawler → Text → Bool → Crawler
on_request w o s url is_navigation =
    if o.block_external_navigation && (is_external_url w s url && is_navigation)
    then record s { blocked_external_count = s.blocked_external_count + 1 }
    else s

abbrev action_result : Attempt → ActionType → Bool → Option Text → Option Bool → ActionResult
action_result a type success error blocked = record {
  type = type;
  target = some (or_else a.target.name a.target.selector);
  selector = some a.target.selector;
  success = success;
  error = error;
  blocked_external = blocked;
  timestamp = a.timestamp;
}

abbrev settle : Attempt → ActionType → ActionResult
settle a type = elim a.failure [
  | none ↦ action_result a type true none none
  | some message ↦ action_result a ActionType.click false (some message) none
]

abbrev scroll_result : Attempt → ActionResult
scroll_result a = elim a.failure [
  | none ↦ record {
    type = ActionType.scrolled;
    target = some a.scroll_text;
    selector = none;
    success = true;
    error = none;
    blocked_external = none;
    timestamp = a.timestamp;
  }
  | some message ↦ action_result a ActionType.click false (some message) none
]

-- `target.href || getAttribute("href")`, the empty string where both are missing
abbrev pub href_of : Attempt → Text
href_of a = or_else a.target.href (or_else a.href_attribute [])

-- The tracking of a link that is about to be clicked.
unfoldable pub track_link : Platform → Crawler → Attempt → Text → Crawler
track_link w s a url =
    if is_empty (href_of a)
      || (starts_with (href_of a) (js "#") || starts_with (href_of a) (js "javascript:"))
    then s
    else elim (w.resolve (href_of a) url) [
      | none ↦ s
      | some absolute ↦ push_clicked s absolute url (or_else a.target.name a.target.selector)
    ]

-- `performActionOnTarget`
unfoldable pub perform_action : Platform → Crawler → Attempt → Text → Option ActionResult × Crawler
perform_action w s a url = elim a.target.type [
  | TargetType.scroll ↦ (some (scroll_result a), s)
  | TargetType.input ↦ if not a.visible then (none, s) else (some (settle a ActionType.filled), s)
  | TargetType.link ↦
      if not a.visible
      then (none, s)
      else if not (is_empty (href_of a)) && is_external_url w s (href_of a)
      then (some (action_result a ActionType.click true none (some true)), s)
      else (some (settle a ActionType.click), track_link w s a url)
  | TargetType.button ↦ if not a.visible then (none, s) else (some (settle a ActionType.click), s)
  | TargetType.interactive ↦
      if not a.visible then (none, s) else (some (settle a ActionType.click), s)
]

-- A round of the loop of `performWeightedActions`; past its condition there is none.
unfoldable pub run_attempt : Platform → CrawlerOptions → Text → Session → Attempt → Session
run_attempt w o url m a =
    if ltb m.actions_performed o.max_actions_per_page && ltb m.attempts (o.max_actions_per_page * 3)
    then (let (result, s) = perform_action w m.crawler a url in
        elim result [
          | none ↦ record m { crawler = s; attempts = m.attempts + 1 }
          | some r ↦ record m {
            crawler = add_to_history o (record s { actions = s.actions ++ r ∷ [] }) r;
            actions_performed = m.actions_performed + 1;
            attempts = m.attempts + 1;
          }
        ])
    else m

-- What the crawler does on an event of the page at `url`.
unfoldable pub handle_event : Platform → CrawlerOptions → Text → Session → PageEvent → Session
handle_event w o url m (console_error text now) =
    if should_ignore_error w o text then m else report_error m ErrorType.console text none url now
handle_event w o url m (console_warning text) = record m { warnings = m.warnings ++ text ∷ [] }
handle_event w o url m (page_error message stack now) =
    if should_ignore_error w o message
    then m
    else report_error m ErrorType.exception message stack url now
handle_event w o url m (request_failed request_url error_text now) =
    on_request_failed w o url m request_url error_text now
handle_event w o url m (rejection message stack now) =
    report_error m ErrorType.unhandled_rejection message stack url now
handle_event w o url m (request request_url is_navigation) = record m {
  crawler = on_request w o m.crawler request_url is_navigation;
}
handle_event w o url m (attempt a) = run_attempt w o url m a

unfoldable pub handle_events : Platform → CrawlerOptions → Text → Session → List PageEvent → Session
handle_events w o url m [] = m
handle_events w o url m (e ∷ es) = handle_events w o url (handle_event w o url m e) es
