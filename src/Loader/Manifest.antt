-- ===== src/Loader/Manifest.antt =====
-- The manifests of js/loader/src/boot/loader.ts, the loader's state, and `init`.
use luna_mbt.Js.Text.{js, is_empty}
use luna_mbt.Prelude.{Bool, true, false, Option, none, some, List, [], Text, if◌then◌else◌}

abbrev pub RouteTable : Type 0
RouteTable = List (Text × List Text)

pub record ChunkManifest : Type 0 where
  pub routes : RouteTable
  pub chunks : List (Text × Text)
  pub base : Option Text

pub record SegmentRef : Type 0 where
  pub path : Text
  pub pattern : Text
  pub spa : Bool
  pub preload : Bool

pub record HierarchicalManifest : Type 0 where
  pub base : Text
  pub segments : List (Text × SegmentRef)
  pub chunks : List (Text × Text)
  pub routes : RouteTable

pub record DynamicPattern : Type 0 where
  pub pattern : Text
  pub regex : Text
  pub params : List Text
  pub catch_all : Bool

pub data Fallback : Type 0 where
  spa not_found : Fallback

pub record SegmentManifest : Type 0 where
  pub base : Text
  pub routes : RouteTable
  pub dynamic : List DynamicPattern
  pub fallback : Fallback

pub record RouteMatch : Type 0 where
  pub chunks : List Text
  pub params : List (Text × Text)
  pub segment : Option Text
  pub is_spa : Option Bool

-- `isV2Manifest` is the tag.
pub data Manifest : Type 0 where
  v1 : ChunkManifest → Manifest
  v2 : HierarchicalManifest → Manifest

pub record ChunkLoader : Type 0 where
  pub loaded : List Text
  -- the keys of `loading` and of `segmentLoading`
  pub loading : List Text
  pub manifest : Option Manifest
  pub base : Text
  pub segments : List (Text × SegmentManifest)
  pub segment_loading : List Text

abbrev pub new_loader : ChunkLoader
new_loader = record {
  loaded = [];
  loading = [];
  manifest = none;
  base = js "/_luna/";
  segments = [];
  segment_loading = [];
}

abbrev manifest_base : Manifest → Option Text
manifest_base (v1 m) = m.base
manifest_base (v2 m) = some m.base

abbrev base_or : Text → Option Text → Text
base_or old none = old
base_or old (some base) = if is_empty base then old else base

-- `init`, with the manifest that was given or fetched
unfoldable pub init : ChunkLoader → Manifest → ChunkLoader
init l m = record l { manifest = some m; base = base_or l.base (manifest_base m) }

-- `isHierarchical`
unfoldable pub is_hierarchical : ChunkLoader → Bool
is_hierarchical l = elim l.manifest [
  | none ↦ false
  | some m ↦ elim m [ v1 _ ↦ false | v2 _ ↦ true ]
]
