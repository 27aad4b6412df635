-- ===== src/Crawler/Types.antt =====
-- The types of js/playwright-chaos/src/types.ts. A field that may be missing is an `Option`.
use luna_mbt.Prelude.{ℕ, Bool, Option, List, Text}

pub data ErrorType : Type 0 where
  console : ErrorType
  network : ErrorType
  exception : ErrorType
  crash : ErrorType
  unhandled_rejection : ErrorType

pub record PageError : Type 0 where
  pub type : ErrorType
  pub message : Text
  pub url : Option Text
  pub stack : Option Text
  pub timestamp : ℕ

-- The metrics that the summary averages.
pub record PerformanceMetrics : Type 0 where
  pub ttfb : Option ℕ
  pub fcp : Option ℕ
  pub lcp : Option ℕ

pub data TargetType : Type 0 where
  link : TargetType
  button : TargetType
  input : TargetType
  interactive : TargetType
  scroll : TargetType

-- The part of `ActionTarget` that the action reads.
pub record ActionTarget : Type 0 where
  pub selector : Text
  pub name : Option Text
  pub type : TargetType
  pub href : Option Text

pub data ActionType : Type 0 where
  click : ActionType
  scrolled : ActionType
  hover : ActionType
  navigate : ActionType
  filled : ActionType

pub record ActionResult : Type 0 where
  pub type : ActionType
  pub target : Option Text
  pub selector : Option Text
  pub success : Bool
  pub error : Option Text
  pub blocked_external : Option Bool
  pub timestamp : ℕ

pub data DiscoveryMethod : Type 0 where
  initial : DiscoveryMethod
  extracted : DiscoveryMethod
  clicked : DiscoveryMethod
  navigated : DiscoveryMethod

pub record QueueEntry : Type 0 where
  pub url : Text
  pub source_url : Text
  pub method : DiscoveryMethod
  pub source_element : Option Text

pub record RecoveryInfo : Type 0 where
  pub failed_url : Text
  pub error : Text
  pub recovered_to : Text
  pub recent_actions : List ActionResult
  pub timestamp : ℕ

pub data Status : Type 0 where
  success : Status
  error : Status
  timeout : Status
  recovered : Status

pub record PageResult : Type 0 where
  pub url : Text
  pub status : Status
  pub status_code : Option ℕ
  pub load_time : ℕ
  pub errors : List PageError
  pub warnings : List Text
  pub metrics : Option PerformanceMetrics
  pub links : List Text
  pub screenshot : Option Text
  pub blocked_navigations : Option (List Text)
  pub recovery : Option RecoveryInfo
  pub discovery_method : Option DiscoveryMethod
  pub source_url : Option Text
  pub source_element : Option Text

pub record DeadLinkInfo : Type 0 where
  pub url : Text
  pub status_code : ℕ
  pub source_url : Text
  pub source_element : Option Text
  pub method : DiscoveryMethod

pub data SpaIssueType : Type 0 where
  routing_404 : SpaIssueType
  internal_error : SpaIssueType
  hydration_error : SpaIssueType

pub record SpaIssueInfo : Type 0 where
  pub url : Text
  pub type : SpaIssueType
  pub message : Text
  pub matched_pattern : Text

pub record DiscoveryMetrics : Type 0 where
  pub extracted_links : ℕ
  pub clicked_links : ℕ
  pub unique_pages : ℕ
  pub dead_links : List DeadLinkInfo
  pub spa_issues : List SpaIssueInfo

-- The options that the crawl reads, after the defaults are filled in.
pub record CrawlerOptions : Type 0 where
  pub base_url : Text
  pub max_pages : ℕ
  pub max_actions_per_page : ℕ
  pub screenshots : Bool
  pub exclude_patterns : List Text
  pub ignore_error_patterns : List Text
  pub spa_patterns : List Text
  pub block_external_navigation : Bool
  pub enable_recovery : Bool
  pub recovery_history_size : ℕ

-- An average: the sum of the values and how many there are.
pub record Average : Type 0 where
  pub total : ℕ
  pub number : ℕ

pub record AverageMetrics : Type 0 where
  pub ttfb : Average
  pub fcp : Average
  pub lcp : Average

pub record CrawlSummary : Type 0 where
  pub success_pages : ℕ
  pub error_pages : ℕ
  pub timeout_pages : ℕ
  pub recovered_pages : ℕ
  pub console_errors : ℕ
  pub network_errors : ℕ
  pub js_exceptions : ℕ
  pub unhandled_rejections : ℕ
  pub avg_load_time : Average
  pub avg_metrics : Option AverageMetrics
  pub discovery : DiscoveryMetrics

pub record CrawlReport : Type 0 where
  pub base_url : Text
  pub start_time : ℕ
  pub end_time : ℕ
  pub duration : ℕ
  pub pages_visited : ℕ
  pub total_errors : ℕ
  pub total_warnings : ℕ
  pub blocked_external_navigations : ℕ
  pub recovery_count : ℕ
  pub pages : List PageResult
  pub actions : List ActionResult
  pub summary : CrawlSummary
