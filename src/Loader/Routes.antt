-- ===== src/Loader/Routes.antt =====
-- Matching a path against the manifests of js/loader/src/boot/loader.ts.
pub mod Flat
pub mod Segments
use luna_mbt.Js.Entries.{get, put}
use luna_mbt.Js.Text.{js, is_empty, starts_with, ends_with, split}
use luna_mbt.Loader.Manifest.{
  RouteTable, ChunkManifest, SegmentRef, HierarchicalManifest, DynamicPattern, Fallback, spa,
  not_found, SegmentManifest, RouteMatch, Manifest, v1, v2, ChunkLoader,
}
use luna_mbt.Prelude.{
  ℕ, ◌-◌, Bool, true, false, not, Option, none, some, List, [], ◌∷◌, ◌++◌, Text, text_eq,
  if◌then◌else◌, length, take, drop, filter,
}

abbrev pub plain_match : List Text → RouteMatch
plain_match chunks = record { chunks = chunks; params = []; segment = none; is_spa = none }

-- `pattern.slice(0, -1)`
abbrev pub drop_last : Text → Text
drop_last s = take (length s - 1) s

-- The loop over the wildcard routes, in `matchPathV1` and in `getChunksForPath`.
unfoldable pub find_wildcard : Text → RouteTable → Option (List Text)
find_wildcard path [] = none
find_wildcard path ((pattern, chunks) ∷ routes) =
    let rest = find_wildcard path routes in
    if ends_with pattern (js "/*")
    then (if starts_with path (drop_last pattern) then some chunks else rest)
    else rest

-- `matchPathV1`
unfoldable pub match_path_v1 : Text → ChunkManifest → Option RouteMatch
match_path_v1 path m = elim (get m.routes path) [
  | some chunks ↦ some (plain_match chunks)
  | none ↦ elim (find_wildcard path m.routes) [
    | some chunks ↦ some (plain_match chunks)
    | none ↦ elim (get m.routes (js "*")) [ some chunks ↦ some (plain_match chunks) | none ↦ none ]
  ]
]

-- `getChunksForPath`
unfoldable pub get_chunks_for_path : ChunkLoader → Text → List Text
get_chunks_for_path l path = elim l.manifest [
  | none ↦ []
  | some m ↦ elim m [
    | v2 h ↦ elim (get h.routes path) [ some chunks ↦ chunks | none ↦ js "boot" ∷ [] ]
    | v1 f ↦ elim (get f.routes path) [
      | some chunks ↦ chunks
      | none ↦ elim (find_wildcard path f.routes) [
        | some chunks ↦ chunks
        | none ↦ elim (get f.routes (js "*")) [ some chunks ↦ chunks | none ↦ [] ]
      ]
    ]
  ]
]

abbrev first_or_empty : List Text → Text
first_or_empty [] = []
first_or_empty (s ∷ ss) = s

-- `extractFirstSegment`; `filter(Boolean)` drops the empty parts
unfoldable pub extract_first_segment : Text → Text
extract_first_segment path = first_or_empty (filter (λ s. not (is_empty s)) (split b'/' path))

abbrev pub or_slash : Text → Text
or_slash rest = if is_empty rest then js "/" else rest

-- `getRelativePath`
unfoldable pub get_relative_path : Text → Text → Text
get_relative_path path segment =
    let prefix = b'/' ∷ segment in
    if starts_with path prefix then or_slash (drop (length prefix) path) else path

-- `path.endsWith('/') ? path : path + '/'`
unfoldable pub with_slash : Text → Text
with_slash path = if ends_with path (js "/") then path else path ++ js "/"

-- `path.replace(/\/$/, '') || '/'`
unfoldable pub without_slash : Text → Text
without_slash path = or_slash (if ends_with path (js "/") then drop_last path else path)

-- `getSegmentInfo`
unfoldable pub get_segment_info : ChunkLoader → Text → Option SegmentRef
get_segment_info l path = elim l.manifest [
  | none ↦ none
  | some m ↦ elim m [ v1 _ ↦ none | v2 h ↦ get h.segments (extract_first_segment path) ]
]

-- `new RegExp(regex)` and `path.match`: the pattern is refused, or it fails, or it gives groups,
-- each of which may be undefined.
pub data RegexResult : Type 0 where
  invalid no_match : RegexResult
  groups : List (Option Text) → RegexResult

abbrev or_empty : Option Text → Text
or_empty none = []
or_empty (some s) = s

-- The loop of `matchDynamicPattern` over the parameter names.
unfoldable pub bind_params :
    List (Text × Text) → List Text → List (Option Text) → List (Text × Text)
bind_params params [] gs = params
bind_params params (name ∷ names) [] = bind_params (put params name []) names []
bind_params params (name ∷ names) (g ∷ gs) = bind_params (put params name (or_empty g)) names gs

abbrev pub or_boot : Option (List Text) → List Text
or_boot none = js "boot" ∷ []
or_boot (some chunks) = chunks

abbrev pub in_segment : Text → SegmentRef → List Text → List (Text × Text) → RouteMatch
in_segment name r chunks params = record {
  chunks = chunks;
  params = params;
  segment = some name;
  is_spa = some r.spa;
}

-- The end of `matchPathV2`: the fallback of a segment.
unfoldable pub spa_fallback : Text → Bool → Fallback → Option RouteMatch
spa_fallback name true spa = some (record {
  chunks = js "boot" ∷ js "router" ∷ [];
  params = [];
  segment = some name;
  is_spa = some true;
})
spa_fallback name _ _ = none

module _ (exec : Text → Text → RegexResult) where
  -- `matchDynamicPattern`
  unfoldable pub match_dynamic_pattern : Text → DynamicPattern → Option (List (Text × Text))
  match_dynamic_pattern path p = elim (exec p.regex path) [
    | invalid ↦ none
    | no_match ↦ none
    | groups gs ↦ some (bind_params [] p.params gs)
  ]

  -- The loop of `matchPathV2` over the dynamic patterns: the first that matches.
  unfoldable pub find_dynamic :
      Text → List DynamicPattern → Option (DynamicPattern × List (Text × Text))
  find_dynamic path [] = none
  find_dynamic path (p ∷ ps) =
      let rest = find_dynamic path ps in
      elim (match_dynamic_pattern path p) [ some params ↦ some (p, params) | none ↦ rest ]

  -- The part of `matchPathV2` behind the loaded segment manifest.
  unfoldable pub match_in_segment : Text → Text → SegmentRef → SegmentManifest → Option RouteMatch
  match_in_segment path name r m =
      let relative = get_relative_path path name in
      elim (get m.routes relative) [
        | some chunks ↦ some (in_segment name r chunks [])
        | none ↦ elim (find_dynamic relative m.dynamic) [
          | some (p, params) ↦ some (in_segment name r (or_boot (get m.routes p.pattern)) params)
          | none ↦ spa_fallback name r.spa m.fallback
        ]
      ]

  module _ (load_segment : Text → Text → Option SegmentManifest) where
    -- The part of `matchPathV2` behind the inline routes. `load_segment` is what awaiting
    -- `loadSegment` gives.
    unfoldable pub match_segment : Text → HierarchicalManifest → Option RouteMatch
    match_segment path h =
        let name = extract_first_segment path in
        if is_empty name then none else elim (get h.segments name) [
          | none ↦ none
          | some r ↦ elim (load_segment name r.path) [
            | none ↦ none
            | some m ↦ match_in_segment path name r m
          ]
        ]

    -- `matchPathV2`
    unfoldable pub match_path_v2 : Text → HierarchicalManifest → Option RouteMatch
    match_path_v2 path h = elim (get h.routes path) [
      | some chunks ↦ some (plain_match chunks)
      | none ↦ elim (get h.routes (with_slash path)) [
        | some chunks ↦ some (plain_match chunks)
        | none ↦ elim (get h.routes (without_slash path)) [
          | some chunks ↦ some (plain_match chunks)
          | none ↦ match_segment path h
        ]
      ]
    ]

    -- `matchPath`
    unfoldable pub match_path : ChunkLoader → Text → Option RouteMatch
    match_path l path = elim l.manifest [
      | none ↦ none
      | some m ↦ elim m [ v1 f ↦ match_path_v1 path f | v2 h ↦ match_path_v2 path h ]
    ]
