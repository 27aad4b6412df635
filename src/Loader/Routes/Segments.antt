-- ===== src/Loader/Routes/Segments.antt =====
-- Version 2 manifests: segments of a path, trailing slashes, and what a segment answers.
use luna_mbt.Js.Affix.{starts_with_append}
use luna_mbt.Js.Entries.{get}
use luna_mbt.Js.Text.{js, is_empty, split, split_from}
use luna_mbt.Loader.Manifest.{SegmentRef, HierarchicalManifest, spa, SegmentManifest, RouteMatch}
use luna_mbt.Loader.Routes.{
  RegexResult, extract_first_segment, get_relative_path, find_dynamic, spa_fallback,
  match_in_segment, match_segment, or_slash, first_or_empty, in_segment, or_boot,
}
use luna_mbt.Prelude.{
  ◌≡◌, ◌≢◌, refl, inl, inr, true, false, not, Option, some, [], ◌∷◌, ◌++◌, append-nil, append_assoc,
  arith, Text, text_eq, length, drop, filter, All, drop-length-append, Option-cases,
}

abbrev pub NoSlash : Text → Type 0
NoSlash = All (λ c. c ≢ b'/')

-- The rest of a path behind a segment: empty, or a slash and more.
abbrev pub IsRest : Text → Type 0
IsRest [] = Unit
IsRest (c ∷ t) = c ≡ b'/'

split_from-append :
    (cur seg rest : Text)
    → NoSlash seg
    → split_from b'/' cur (seg ++ rest) ≡ split_from b'/' (cur ++ seg) rest
unfolding split_from
split_from-append cur [] rest h = rw (append-nil cur)
split_from-append cur (c ∷ seg) rest (p, h) =
    ground (arith, split_from-append (cur ++ c ∷ []) seg rest h, append_assoc cur (c ∷ []) seg)

first_of_split :
    (seg rest : Text)
    → is_empty seg ≡ false
    → IsRest rest
    → first_or_empty (filter (λ s. not (is_empty s)) (split_from b'/' seg rest)) ≡ seg
unfolding split_from filter
first_of_split seg [] h k = ground arith
first_of_split seg (c ∷ t) h k = ground arith

pub extract_first_segment_lem :
    (seg rest : Text)
    → NoSlash seg
    → is_empty seg ≡ false
    → IsRest rest
    → extract_first_segment (b'/' ∷ (seg ++ rest)) ≡ seg
unfolding extract_first_segment split split_from filter
extract_first_segment_lem seg rest h n k =
    rw (split_from-append [] seg rest h) (first_of_split seg rest n k)

or_slash_drop : (seg rest : Text) → drop (length (b'/' ∷ seg)) (b'/' ∷ (seg ++ rest)) ≡ rest
or_slash_drop seg rest = drop-length-append (b'/' ∷ seg) rest

-- A path that starts with a segment is looked up in that segment, by what stands behind the
-- segment (or `/` if nothing does).
match_segment_lem :
    (exec : Text → Text → RegexResult) (load : Text → Text → Option SegmentManifest)
    (h : HierarchicalManifest) (seg rest : Text) (r : SegmentRef) (m : SegmentManifest)
    → NoSlash seg
    → is_empty seg ≡ false
    → IsRest rest
    → get h.segments seg ≡ some r
    → load seg r.path ≡ some m
    → (extract_first_segment (b'/' ∷ (seg ++ rest)) ≡ seg)
      × (get_relative_path (b'/' ∷ (seg ++ rest)) seg ≡ or_slash rest)
      × (match_segment exec load (b'/' ∷ (seg ++ rest)) h
          ≡ match_in_segment exec (b'/' ∷ (seg ++ rest)) seg r m)
unfolding match_segment get_relative_path
match_segment_lem exec load h seg rest r m plain full behind found loaded =
    let first = extract_first_segment_lem seg rest plain full behind in
    (
      first,
      ground (arith, starts_with_append (b'/' ∷ seg) rest, or_slash_drop seg rest),
      ground (arith, first),
    )

-- In a single-page segment with the fallback `spa` every path of the segment has a match, and
-- each match names the segment and is marked as single-page.
match_in_segment-spa :
    (exec : Text → Text → RegexResult) (path name : Text) (r : SegmentRef) (m : SegmentManifest)
    → r.spa ≡ true
    → m.fallback ≡ spa
    → (found : RouteMatch) × (match_in_segment exec path name r m ≡ some found)
      × (found.segment ≡ some name)
      × (found.is_spa ≡ some true)
unfolding match_in_segment spa_fallback
match_in_segment-spa exec path name r m single fall =
    elim (Option-cases (get m.routes (get_relative_path path name))) [
      | inr (chunks, static) ↦ (in_segment name r chunks [], ground arith, refl, rw single)
      | inl nope ↦ elim (Option-cases (find_dynamic exec (get_relative_path path name) m.dynamic)) [
        | inr ((p, params), hit) ↦ (
          in_segment name r (or_boot (get m.routes p.pattern)) params,
          ground arith,
          refl,
          rw single,
        )
        | inl miss ↦ (
          record {
            chunks = js "boot" ∷ js "router" ∷ [];
            params = [];
            segment = some name;
            is_spa = some true;
          },
          ground arith,
          refl,
          refl,
        )
      ]
    ]
