-- ===== src/Crawler.antt =====
-- The chaos crawler: js/playwright-chaos/src/crawler.ts, types.ts, logger.ts and reporter.ts.
pub mod Types
pub mod State
pub mod Page
pub mod Dom
pub mod Targets
pub mod Visit
pub mod Crawl
pub mod Frontier
pub mod Recent
pub mod Kept
pub mod Report
pub mod Logger
