-- ===== src/Crawler/State.antt =====
-- The state of `ChaosCrawler` (js/playwright-chaos/src/crawler.ts), its queue, its action history
-- and its pattern tests. The regular expression engine and the URL parser are parameters.
use luna_mbt.Crawler.Types.{
  ActionResult, PageResult, DiscoveryMetrics, DiscoveryMethod, QueueEntry, RecoveryInfo,
  CrawlerOptions,
}
use luna_mbt.Prelude.{
  ℕ, ◌+◌, Bool, false, not, ◌||◌, Option, none, some, List, [], ◌∷◌, ◌++◌, Text, text_eq, ◌==◌,
  if◌then◌else◌, length, drop, any, includes, ltb,
}

-- What the crawler calls: `new RegExp(pattern).test(s)` and its case-insensitive form, `none` where
-- the pattern is invalid; `new URL(url).origin` and `new URL(href, base).toString()`, `none` where
-- they throw; the path of a screenshot.
pub record Platform : Type 0 where
  pub test : Text → Text → Option Bool
  pub test_ignoring_case : Text → Text → Option Bool
  pub origin_of : Text → Option Text
  pub resolve : Text → Text → Option Text
  pub screenshot_filename : Text → Text

pub record Crawler : Type 0 where
  pub visited : List Text
  pub queue : List QueueEntry
  pub results : List PageResult
  pub actions : List ActionResult
  pub blocked_external_count : ℕ
  pub base_origin : Text
  pub action_history : List ActionResult
  pub last_successful_url : Text
  pub recovery_count : ℕ
  pub discovery_metrics : DiscoveryMetrics

abbrev matched : Option Bool → Bool
matched none = false
matched (some b) = b

-- `shouldExclude`
unfoldable pub should_exclude : Platform → CrawlerOptions → Text → Bool
should_exclude w o url = any (λ pattern. matched (w.test pattern url)) o.exclude_patterns

abbrev first_match : Platform → List Text → Text → Option Text
first_match w [] url = none
first_match w (pattern ∷ patterns) url =
    if matched (w.test pattern url) then some pattern else first_match w patterns url

-- `matchesSpaPattern`
unfoldable pub matches_spa_pattern : Platform → CrawlerOptions → Text → Option Text
matches_spa_pattern w o url = first_match w o.spa_patterns url

-- `shouldIgnoreError`
unfoldable pub should_ignore_error : Platform → CrawlerOptions → Text → Bool
should_ignore_error w o message =
    any (λ pattern. matched (w.test_ignoring_case pattern message)) o.ignore_error_patterns

abbrev differs_from : Text → Option Text → Bool
differs_from base none = false
differs_from base (some origin) = not (origin == base)

-- `isExternalUrl`
unfoldable pub is_external_url : Platform → Crawler → Text → Bool
is_external_url w s url = differs_from s.base_origin (w.origin_of url)

-- The URLs of the queue.
unfoldable pub urls : List QueueEntry → List Text
urls [] = []
urls (e ∷ q) = e.url ∷ urls q

-- `this.visited.has(url) || this.queue.some(e => e.url === url)`
unfoldable pub is_known : Crawler → Text → Bool
is_known s url = includes s.visited url || any (λ e. e.url == url) s.queue

-- `shift` when the history is longer than `size`
abbrev shift_beyond : ℕ → List ActionResult → List ActionResult
shift_beyond size history = if ltb size (length history) then drop 1 history else history

-- `addToHistory`
unfoldable pub add_to_history : CrawlerOptions → Crawler → ActionResult → Crawler
add_to_history o s action = record s {
  action_history = shift_beyond o.recovery_history_size (s.action_history ++ action ∷ []);
}

-- `createRecoveryInfo`
unfoldable pub create_recovery_info : Crawler → Text → Text → ℕ → RecoveryInfo
create_recovery_info s failed_url error now = record {
  failed_url = failed_url;
  error = error;
  recovered_to = s.last_successful_url;
  recent_actions = s.action_history;
  timestamp = now;
}

-- The fields as `start` resets them.
unfoldable pub reset : CrawlerOptions → Text → Crawler
reset o base_origin = record {
  visited = [];
  queue =
      record {
        url = o.base_url;
        source_url = [];
        method = DiscoveryMethod.initial;
        source_element = none;
      }
      ∷ [];
  results = [];
  actions = [];
  blocked_external_count = 0;
  base_origin = base_origin;
  action_history = [];
  last_successful_url = o.base_url;
  recovery_count = 0;
  discovery_metrics = record {
    extracted_links = 0;
    clicked_links = 0;
    unique_pages = 0;
    dead_links = [];
    spa_issues = [];
  };
}

-- The link push of `performActionOnTarget`.
unfoldable pub push_clicked : Crawler → Text → Text → Text → Crawler
push_clicked s url source element = if is_known s url then s else record s {
  queue =
      s.queue
      ++ record {
        url = url;
        source_url = source;
        method = DiscoveryMethod.clicked;
        source_element = some element;
      }
        ∷ [];
  discovery_metrics = record s.discovery_metrics {
    clicked_links = s.discovery_metrics.clicked_links + 1;
  };
}

-- The link push of `start`.
unfoldable pub push_link : Crawler → Text → Text → Crawler
push_link s source link = if is_known s link then s else record s {
  queue =
      s.queue
      ++ record {
        url = link;
        source_url = source;
        method = DiscoveryMethod.extracted;
        source_element = none;
      }
        ∷ [];
  discovery_metrics = record s.discovery_metrics {
    extracted_links = s.discovery_metrics.extracted_links + 1;
  };
}

-- The loop of `start` over the links of a result.
unfoldable pub push_extracted : Crawler → Text → List Text → Crawler
push_extracted s source [] = s
push_extracted s source (link ∷ links) = push_extracted (push_link s source link) source links
