-- ===== src/Loader/Chunks.antt =====
-- Loading chunks: `loadChunk`, `loadForPath`, `prefetch`, `resolveChunkUrl` and the queries of
-- js/loader/src/boot/loader.ts. An import is started by a call and settles later.
pub mod Flight
pub mod Once
pub mod Requests
use luna_mbt.Js.Entries.{get}
use luna_mbt.Js.Keys
use luna_mbt.Js.Text.{js, is_empty, starts_with}
use luna_mbt.Loader.Manifest.{Manifest, v1, v2, RouteMatch, SegmentManifest, ChunkLoader}
use luna_mbt.Loader.Routes.{RegexResult, get_chunks_for_path, match_path}
use luna_mbt.Prelude.{
  Bool, true, false, not, ◌&&◌, Option, none, some, List, [], ◌∷◌, ◌++◌, Text, text_eq,
  if◌then◌else◌, map, filter, includes,
}

abbrev chunk_table : Manifest → List (Text × Text)
chunk_table (v1 m) = m.chunks
chunk_table (v2 m) = m.chunks

abbrev hashed_path : Option Manifest → Text → Option Text
hashed_path none name = none
hashed_path (some m) name = get (chunk_table m) name

-- `resolveChunkUrl`
unfoldable pub resolve_chunk_url : ChunkLoader → Text → Text
resolve_chunk_url l name = elim (hashed_path l.manifest name) [
  | none ↦ l.base ++ (name ++ js ".js")
  | some path ↦
      if is_empty path
      then l.base ++ (name ++ js ".js")
      else if starts_with path (js "/")
      then path
      else l.base ++ path
]

-- `loadChunk`, up to the `import`: the URL to import, if the call starts an import.
unfoldable pub load_chunk : ChunkLoader → Text → Option Text × ChunkLoader
load_chunk l name =
    if includes l.loaded name
    then (none, l)
    else if includes l.loading name
    then (none, l)
    else (some (resolve_chunk_url l name), record l { loading = Keys.add l.loading name })

-- The `then` of the import.
unfoldable pub import_resolved : ChunkLoader → Text → ChunkLoader
import_resolved l name = record l {
  loaded = Keys.add l.loaded name;
  loading = Keys.delete l.loading name;
}

-- The `catch` of the import.
unfoldable pub import_rejected : ChunkLoader → Text → ChunkLoader
import_rejected l name = record l { loading = Keys.delete l.loading name }

-- The calls of `loadChunk` in `loadForPath`, and the URLs that they import.
unfoldable pub load_chunks : ChunkLoader → List Text → List Text × ChunkLoader
unfolding load_chunk
load_chunks l [] = ([], l)
load_chunks l (name ∷ names) =
    let (url, l') = load_chunk l name in
    let (urls, l'') = load_chunks l' names in (elim url [ none ↦ urls | some u ↦ u ∷ urls ], l'')

-- `match.chunks.filter(c => !this.loaded.has(c))`
unfoldable pub missing_chunks : ChunkLoader → List Text → List Text
missing_chunks l chunks = filter (λ c. not (includes l.loaded c)) chunks

-- `loadForPath`: the chunks that were missing, the URLs imported, and the loader.
unfoldable pub load_for_path :
    (Text → Text → RegexResult)
    → (Text → Text → Option SegmentManifest)
    → ChunkLoader
    → Text
    → List Text × List Text × ChunkLoader
unfolding load_chunks missing_chunks
load_for_path exec load l path = elim (match_path exec load l path) [
  | none ↦ ([], [], l)
  | some r ↦
      let missing = missing_chunks l r.chunks in
      let (urls, l') = load_chunks l missing in (missing, urls, l')
]

-- `prefetch`: the URLs of the `modulepreload` links that it adds.
unfoldable pub prefetch : ChunkLoader → Text → List Text
prefetch l path = map (resolve_chunk_url l) (
    filter (λ c. not (includes l.loaded c) && not (includes l.loading c))
      (get_chunks_for_path l path))

-- `isLoaded`
unfoldable pub is_loaded : ChunkLoader → Text → Bool
is_loaded l name = includes l.loaded name

-- `clear`
unfoldable pub clear : ChunkLoader → ChunkLoader
clear l = record l { loaded = []; loading = []; segments = []; segment_loading = [] }
