-- ===== src/Loader.antt =====
-- `ChunkLoader` of js/loader/src/boot/loader.ts. A record of the manifest is a list of its own
-- entries, in order. Regular expressions (`RegExp`) and the network are parameters.
pub mod Manifest
pub mod Routes
pub mod Chunks
pub mod Segments
