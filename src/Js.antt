-- ===== src/Js.antt =====
-- What the sources use of the JavaScript library: strings as UTF-16 code units, and the
-- insertion-ordered `Map` and `Set`.
pub mod Text
pub mod Entries
pub mod Keys
pub mod Affix
pub mod Removal
