-- ===== src/Wcr.antt =====
-- The web component runtime, js/wcr/src.
pub mod Signal
pub mod Define
