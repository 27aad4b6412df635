-- ===== src/Router/Routed.antt =====
-- Which navigations a click leaves to the router (js/loader/src/boot/router.ts).
use luna_mbt.Js.Text.{js, starts_with}
use luna_mbt.Loader.Manifest.{
  SegmentRef, HierarchicalManifest, ChunkLoader, v1, v2, is_hierarchical,
}
use luna_mbt.Loader.Routes.{get_chunks_for_path, get_segment_info}
use luna_mbt.Prelude.{
  ◌≡◌, ◌≢◌, inl, inr, Bool, true, false, not, ◌&&◌, some, [], arith, Text, text_eq, includes,
  Option-cases, List, ◌∷◌, ◌++◌, any, ◌==◌, beq_self, text_beq_iff, Bool-cases,
}
use luna_mbt.Router.{RouterOptions, is_spa, is_spa_navigation, has_any}

-- A path that the router was told to be of a single page application.
pub data IsSpaPath (l : ChunkLoader) (path : Text) : Type 0 where
  of_segment : (r : SegmentRef) → get_segment_info l path ≡ some r → r.spa ≡ true → IsSpaPath l path

-- Why the navigation to `href` is the router's: it leads to or from the page of an SPA segment of the
-- manifest, or below an SPA segment of the options; or the loader resolves it.
pub data IsRouted (o : RouterOptions) (l : ChunkLoader) (pathname href : Text) : Type 0 where
  to_spa : IsSpaPath l href → IsRouted o l pathname href
  from_spa : IsSpaPath l pathname → IsRouted o l pathname href
  under_option :
      (s : Text)
      → includes o.spa_segments s ≡ true
      → starts_with href (js "/" ++ (s ++ js "/")) ≡ true
      → IsRouted o l pathname href
  by_segments : (m : HierarchicalManifest) → l.manifest ≡ some (v2 m) → IsRouted o l pathname href
  by_chunks : get_chunks_for_path l href ≢ [] → IsRouted o l pathname href

is_spa-IsSpaPath :
    (l : ChunkLoader) (path : Text) → is_spa (get_segment_info l path) ≡ true → IsSpaPath l path
is_spa-IsSpaPath l path h = elim (Option-cases (get_segment_info l path)) [
  | inl e ↦ ground arith
  | inr (r, e) ↦ of_segment r e (ground arith)
]

IsSpaPath-is_spa :
    (l : ChunkLoader) (path : Text) → IsSpaPath l path → is_spa (get_segment_info l path) ≡ true
IsSpaPath-is_spa l path (of_segment r e h) = rw e h

is_hierarchical-manifest :
    (l : ChunkLoader)
    → is_hierarchical l ≡ true
    → (m : HierarchicalManifest) × (l.manifest ≡ some (v2 m))
unfolding is_hierarchical
is_hierarchical-manifest l h = elim (Option-cases l.manifest) [
  | inl e ↦ ground arith
  | inr (v1 m, e) ↦ ground arith
  | inr (v2 m, e) ↦ (m, e)
]

any-includes :
    (p : Text → Bool) (xs : List Text)
    → any p xs ≡ true
    → (x : Text) × (includes xs x ≡ true) × (p x ≡ true)
unfolding any includes
any-includes p [] h = ground arith
any-includes p (x ∷ xs) h = elim (Bool-cases (p x)) [
  | inl e ↦ (x, ground (arith, beq_self x), e)
  | inr e ↦ let (y, k, d) = any-includes p xs (ground arith) in (y, ground arith, d)
]

includes-any :
    (p : Text → Bool) (xs : List Text) (x : Text)
    → includes xs x ≡ true
    → p x ≡ true
    → any p xs ≡ true
unfolding any includes
includes-any p [] x h k = ground arith
includes-any p (y ∷ xs) x h k = elim (Bool-cases (y == x)) [
  | inl e ↦ ground (arith, (text_beq_iff y x).0 e, k)
  | inr e ↦ ground (arith, includes-any p xs x)
]

is_spa_navigation-IsRouted :
    (o : RouterOptions) (l : ChunkLoader) (pathname href : Text)
    → is_spa_navigation o l pathname href ≡ true
    → IsRouted o l pathname href
unfolding is_spa_navigation
is_spa_navigation-IsRouted o l pathname href h =
    elim (Bool-cases (is_spa (get_segment_info l href))) [
      | inl e ↦ to_spa (is_spa-IsSpaPath l href e)
      | inr none_here ↦ elim (Bool-cases (is_spa (get_segment_info l pathname))) [
        | inl e ↦ from_spa (is_spa-IsSpaPath l pathname e)
        | inr none_there ↦
            let (s, k, d) =
              any-includes (λ s. starts_with href (js "/" ++ (s ++ js "/"))) o.spa_segments
                (ground arith) in
            under_option s k d
      ]
    ]

-- The last guard of the click handler
abbrev is_passed : RouterOptions → ChunkLoader → Text → Text → Bool
is_passed o l pathname href =
    not (is_spa_navigation o l pathname href)
    && not (is_hierarchical l)
    && not (has_any (get_chunks_for_path l href))

pub is_passed-IsRouted :
    (o : RouterOptions) (l : ChunkLoader) (pathname href : Text)
    → is_passed o l pathname href ≡ false
    → IsRouted o l pathname href
is_passed-IsRouted o l pathname href h = elim (Bool-cases (is_spa_navigation o l pathname href)) [
  | inl e ↦ is_spa_navigation-IsRouted o l pathname href e
  | inr none_here ↦ elim (Bool-cases (is_hierarchical l)) [
    | inl e ↦ let (m, k) = is_hierarchical-manifest l e in by_segments m k
    | inr none_there ↦ by_chunks (λ e. ground arith)
  ]
]

pub IsRouted-is_passed :
    (o : RouterOptions) (l : ChunkLoader) (pathname href : Text)
    → IsRouted o l pathname href
    → is_passed o l pathname href ≡ false
unfolding is_spa_navigation is_hierarchical
IsRouted-is_passed o l pathname href (to_spa h) = ground (arith, IsSpaPath-is_spa l href h)
IsRouted-is_passed o l pathname href (from_spa h) = ground (arith, IsSpaPath-is_spa l pathname h)
IsRouted-is_passed o l pathname href (under_option s k d) =
    ground
      (arith, includes-any (λ s. starts_with href (js "/" ++ (s ++ js "/"))) o.spa_segments s k d)
IsRouted-is_passed o l pathname href (by_segments m e) = ground arith
IsRouted-is_passed o l pathname href (by_chunks some_chunks) = ground arith
