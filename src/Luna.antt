-- ===== src/Luna.antt =====
-- The TypeScript interface of luna, js/luna/src.
pub mod Heap
pub mod Store
pub mod Props
pub mod Jsx
