-- ===== src/Tests.antt =====
-- Tests of the definitions and instances of the theorems, for each part of the library.
pub mod Coverage
pub mod Crawler
pub mod Hybrid
pub mod Island
pub mod Jsx
pub mod Loader
pub mod Nav
pub mod Navigation
pub mod Parsers
pub mod Parts
pub mod Props
pub mod Router
pub mod Scroll
pub mod Spa
pub mod Ssr
pub mod Store
pub mod Targets
pub mod Wcr
