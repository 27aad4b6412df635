-- ===== src/Loader/Segments.antt =====
-- Loading segment manifests: `loadSegment` and `prefetchSegment` of js/loader/src/boot/loader.ts. A
-- fetch is started by a call and settles later.
pub mod Once
use luna_mbt.Js.Entries.{get, has, put}
use luna_mbt.Js.Keys
use luna_mbt.Loader.Manifest.{SegmentRef, SegmentManifest, v1, v2, ChunkLoader}
use luna_mbt.Prelude.{
  ◌≡◌, Bool, true, false, ◌||◌, Option, none, some, List, [], ◌∷◌, ◌++◌, Text, text_eq,
  if◌then◌else◌, includes,
}

-- `loadSegment`, up to the `fetch`: the URL to fetch, if the call starts a fetch.
unfoldable pub load_segment : ChunkLoader → Text → Text → Option Text × ChunkLoader
load_segment l name path = elim (get l.segments name) [
  | some cached ↦ (none, l)
  | none ↦
      if includes l.segment_loading name
      then (none, l)
      else (some (l.base ++ path), record l { segment_loading = Keys.add l.segment_loading name })
]

-- The `then` of the fetch.
unfoldable pub segment_arrived : ChunkLoader → Text → SegmentManifest → ChunkLoader
segment_arrived l name manifest = record l {
  segments = put l.segments name manifest;
  segment_loading = Keys.delete l.segment_loading name;
}

-- The `catch` of the fetch.
unfoldable pub segment_failed : ChunkLoader → Text → ChunkLoader
segment_failed l name = record l { segment_loading = Keys.delete l.segment_loading name }

-- `prefetchSegment`
unfoldable pub prefetch_segment : ChunkLoader → Text → Option Text × ChunkLoader
prefetch_segment l segment = elim l.manifest [
  | none ↦ (none, l)
  | some m ↦ elim m [
    | v1 _ ↦ (none, l)
    | v2 h ↦ elim (get h.segments segment) [
      | none ↦ (none, l)
      | some r ↦
          if has l.segments segment || includes l.segment_loading segment
          then (none, l)
          else load_segment l segment r.path
    ]
  ]
]

-- The loader, with a log of the fetches started and failed.
pub record Session : Type 0 where
  pub loader : ChunkLoader
  pub fetched : List Text
  pub failed : List Text

abbrev pub fetch_session : Session → Text → Option Text × ChunkLoader → Session
fetch_session s name (none, l) = record s { loader = l }
fetch_session s name (some url, l) = record s { loader = l; fetched = s.fetched ++ name ∷ [] }

unfoldable pub load : Session → Text → Text → Session
load s name path = fetch_session s name (load_segment s.loader name path)

unfoldable pub prefetch : Session → Text → Session
prefetch s name = fetch_session s name (prefetch_segment s.loader name)

unfoldable pub arrive : Session → Text → SegmentManifest → Session
arrive s name manifest = record s { loader = segment_arrived s.loader name manifest }

unfoldable pub fail : Session → Text → Session
fail s name = record s { loader = segment_failed s.loader name; failed = s.failed ++ name ∷ [] }

pub data Step (s : Session) : Session → Type 0 where
  loaded : (name path : Text) → Step s (load s name path)
  prefetched : (name : Text) → Step s (prefetch s name)
  arrived :
      (name : Text) (manifest : SegmentManifest)
      → includes s.loader.segment_loading name ≡ true
      → Step s (arrive s name manifest)
  refused : (name : Text) → includes s.loader.segment_loading name ≡ true → Step s (fail s name)

-- A loader with nothing loaded, loading or logged.
pub record IsInitial (s : Session) : Type 0 where
  pub no_segments : s.loader.segments ≡ []
  pub no_loading : s.loader.segment_loading ≡ []
  pub no_fetched : s.fetched ≡ []
  pub no_failed : s.failed ≡ []

pub data Reach : Session → Type 0 where
  start : {s : Session} → IsInitial s → Reach s
  later : {s t : Session} → Reach s → Step s t → Reach t
