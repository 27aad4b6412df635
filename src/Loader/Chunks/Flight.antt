-- ===== src/Loader/Chunks/Flight.antt =====
-- Chunk loading as a step relation: calls of `loadChunk`, and imports that settle in any order.
use luna_mbt.Js.Keys
use luna_mbt.Loader.Manifest.{ChunkLoader}
use luna_mbt.Loader.Chunks.{load_chunk, import_resolved, import_rejected}
use luna_mbt.Prelude.{◌≡◌, true, Option, none, some, List, [], ◌∷◌, ◌++◌, Text, text_eq, includes}

-- The loader, with the imports that have not settled and a log of the imports started and failed.
pub record World : Type 0 where
  pub loader : ChunkLoader
  pub in_flight : List Text
  pub started : List Text
  pub failed : List Text

abbrev request_world : World → Text → Option Text × ChunkLoader → World
request_world w name (none, l) = record w { loader = l }
request_world w name (some url, l) = record w {
  loader = l;
  in_flight = w.in_flight ++ name ∷ [];
  started = w.started ++ name ∷ [];
}

-- A call of `loadChunk`.
unfoldable pub request : World → Text → World
request w name = request_world w name (load_chunk w.loader name)

unfoldable pub resolve : World → Text → World
resolve w name = record w {
  loader = import_resolved w.loader name;
  in_flight = Keys.delete w.in_flight name;
}

unfoldable pub reject : World → Text → World
reject w name = record w {
  loader = import_rejected w.loader name;
  in_flight = Keys.delete w.in_flight name;
  failed = w.failed ++ name ∷ [];
}

pub data Step (w : World) : World → Type 0 where
  requested : (name : Text) → Step w (request w name)
  resolved : (name : Text) → includes w.in_flight name ≡ true → Step w (resolve w name)
  rejected : (name : Text) → includes w.in_flight name ≡ true → Step w (reject w name)

-- A loader with nothing loaded, loading or logged.
pub record IsInitial (w : World) : Type 0 where
  pub no_loaded : w.loader.loaded ≡ []
  pub no_loading : w.loader.loading ≡ []
  pub no_flight : w.in_flight ≡ []
  pub no_started : w.started ≡ []
  pub no_failed : w.failed ≡ []

pub data Reach : World → Type 0 where
  start : {w : World} → IsInitial w → Reach w
  later : {w v : World} → Reach w → Step w v → Reach v
