-- ===== src/Tests/Loader.antt =====
-- The chunk loader of js/loader/src/boot/loader.ts on a flat and a hierarchical manifest.
use luna_mbt.Js.Keys
use luna_mbt.Js.Text.{js}
use luna_mbt.Js.Entries.{get, has}
use luna_mbt.Loader.Chunks.Flight.{World, Reach, start, later, requested, request, IsInitial}
use luna_mbt.Loader.Chunks.Once.{times, one_if, Reach-times}
use luna_mbt.Loader.Manifest.{
  v2, ChunkManifest, HierarchicalManifest, SegmentRef, SegmentManifest, spa, ChunkLoader,
  new_loader, v1,
}
use luna_mbt.Loader.Segments
use luna_mbt.Loader.Segments.{Session}
use luna_mbt.Loader.Routes.{RegexResult, no_match, plain_match, match_path_v1, match_path}
use luna_mbt.Loader.Routes.Flat.{Precedence, match_path_v1-Precedence}
use luna_mbt.Prelude.{
  ◌≡◌, refl, true, false, ◌||◌, Option, none, some, [], ◌∷◌, Text, ◌+◌, includes, text_eq, text_beq,
}

abbrev exec : Text → Text → RegexResult
exec regex path = no_match

abbrev flat : ChunkManifest
flat = record {
  routes = (js "/", js "home" ∷ []) ∷ (js "/docs/*", js "docs" ∷ js "nav" ∷ []) ∷ [];
  chunks = [];
  base = none;
}

abbrev docs : SegmentRef
docs = record { path = js "docs.json"; pattern = js "/docs/*"; spa = true; preload = false }

abbrev docs_manifest : SegmentManifest
docs_manifest = record { base = js "/docs"; routes = []; dynamic = []; fallback = spa }

abbrev load : Text → Text → Option SegmentManifest
load name path = some docs_manifest

abbrev site : HierarchicalManifest
site = record {
  base = js "/_luna/";
  segments = (js "docs", docs) ∷ [];
  chunks = [];
  routes = (js "/about", js "about" ∷ []) ∷ [];
}

abbrev flat_loader : ChunkLoader
flat_loader = record new_loader { manifest = some (v1 flat) }

flat_match_example :
    Precedence (js "/docs/intro") flat.routes (match_path_v1 (js "/docs/intro") flat)
flat_match_example = match_path_v1-Precedence (js "/docs/intro") flat

home_match : match_path exec load flat_loader (js "/") ≡ some (plain_match (js "home" ∷ []))
unfolding match_path match_path_v1 get text_beq
home_match = refl

abbrev idle : World
idle = record { loader = new_loader; in_flight = []; started = []; failed = [] }

idle-IsInitial : IsInitial idle
idle-IsInitial = record {
  no_loaded = refl;
  no_loading = refl;
  no_flight = refl;
  no_started = refl;
  no_failed = refl;
}

-- Two calls for the same chunk.
abbrev called : World
called = request (request idle (js "home")) (js "home")

called-Reach : Reach called
called-Reach = later (later (start idle-IsInitial) (requested (js "home"))) (requested (js "home"))

times_example :
    times (js "home") called.started
    ≡ times (js "home") called.failed
      + one_if
          (includes called.loader.loaded (js "home") || includes called.loader.loading (js "home"))
times_example = Reach-times (js "home") called-Reach

abbrev site_session : Session
site_session = record {
  loader = record new_loader { manifest = some (v2 site) };
  fetched = [];
  failed = [];
}

site-IsInitial : Segments.IsInitial site_session
site-IsInitial = record {
  no_segments = refl;
  no_loading = refl;
  no_fetched = refl;
  no_failed = refl;
}

-- Prefetched, then asked for.
abbrev asked : Session
asked = Segments.load (Segments.prefetch site_session (js "docs")) (js "docs") (js "docs.json")

docs_pending : includes asked.loader.segment_loading (js "docs") ≡ true
unfolding Segments.load Segments.prefetch Segments.load_segment Segments.prefetch_segment get has
    includes text_beq Keys.add
docs_pending = refl

-- The manifest arrives.
abbrev visited : Session
visited = Segments.arrive asked (js "docs") docs_manifest

visited-Reach : Segments.Reach visited
visited-Reach =
    Segments.Reach.later
      (Segments.Reach.later
        (Segments.Reach.later (Segments.Reach.start site-IsInitial)
          (Segments.Step.prefetched (js "docs")))
        (Segments.Step.loaded (js "docs") (js "docs.json")))
      (Segments.Step.arrived (js "docs") docs_manifest docs_pending)
