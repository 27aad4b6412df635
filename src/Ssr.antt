-- ===== src/Ssr.antt =====
-- js/wcssr/src: server rendering of web components, and the custom elements that take over.
pub mod Escape
pub mod Renderer
pub mod Document
pub mod Client
pub mod Parts
