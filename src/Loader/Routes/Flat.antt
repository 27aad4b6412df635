-- ===== src/Loader/Routes/Flat.antt =====
-- Version 1 manifests: the synchronous lookup agrees with the matcher, and wildcard routes.
use luna_mbt.Js.Affix.{
  starts_with-split, starts_with_append, ends_with-split, ends_with_append, take_append,
}
use luna_mbt.Js.Entries.{get}
use luna_mbt.Js.Text.{js, starts_with, ends_with}
use luna_mbt.Loader.Manifest.{
  RouteTable, ChunkManifest, SegmentManifest, RouteMatch, v1, ChunkLoader,
}
use luna_mbt.Loader.Routes.{
  RegexResult, plain_match, drop_last, find_wildcard, match_path_v1, get_chunks_for_path,
  match_path,
}
use luna_mbt.Prelude.{
  ◌-◌, ◌≡◌, ◌⊎◌, sym, ap, ◌∙◌, inl, inr, Bool, true, false, ◌&&◌, Option, none, some, List, [], ◌∷◌,
  ◌++◌, arith, Text, text_eq, length, take, drop, All, Bool-cases, Option-cases, append_assoc,
  subst,
}

abbrev pub chunks_of : Option RouteMatch → List Text
chunks_of none = []
chunks_of (some r) = r.chunks

-- On a flat manifest the chunks of the synchronous lookup, which prefetching uses, are those of
-- the match, and there are none where there is no match.
get_chunks_for_path-match_path :
    (exec : Text → Text → RegexResult) (load : Text → Text → Option SegmentManifest)
    (l : ChunkLoader) (m : ChunkManifest) (path : Text)
    → l.manifest ≡ some (v1 m)
    → get_chunks_for_path l path ≡ chunks_of (match_path exec load l path)
unfolding get_chunks_for_path match_path match_path_v1
get_chunks_for_path-match_path exec load l m path e = ground arith

abbrev covers : Text → Text → Bool
covers path pattern = ends_with pattern (js "/*") && starts_with path (drop_last pattern)

-- The pattern is a directory with `/*` behind it, and the path lies below that directory.
pub record Covers (path pattern : Text) : Type 0 where
  pub directory : Text
  pub rest : Text
  pub is_wildcard : pattern ≡ directory ++ js "/*"
  pub is_below : path ≡ directory ++ b'/' ∷ rest

drop_last_wildcard : (d : Text) → drop_last (d ++ js "/*") ≡ d ++ b'/' ∷ []
drop_last_wildcard d =
    ap drop_last (sym (append_assoc d (b'/' ∷ []) (b'*' ∷ [])))
    ∙ take_append (d ++ b'/' ∷ []) (b'*' ∷ [])

Covers-of_covers : (path pattern : Text) → covers path pattern ≡ true → Covers path pattern
Covers-of_covers path pattern h =
    let d = take (length pattern - 2) pattern in
    let wild : pattern ≡ d ++ js "/*" = ends_with-split pattern (js "/*") (ground arith) in
    let last : drop_last pattern ≡ d ++ b'/' ∷ [] = ap drop_last wild ∙ drop_last_wildcard d in
    let below : starts_with path (d ++ b'/' ∷ []) ≡ true = ground (arith, last) in
    record {
      directory = d;
      rest = drop (length (d ++ b'/' ∷ [])) path;
      is_wildcard = wild;
      is_below = starts_with-split path (d ++ b'/' ∷ []) below ∙ append_assoc d (b'/' ∷ []) _;
    }

covers_of_Covers : (path pattern : Text) → Covers path pattern → covers path pattern ≡ true
covers_of_Covers path pattern c =
    let wild : ends_with pattern (js "/*") ≡ true =
      rw c.is_wildcard (ends_with_append c.directory (js "/*")) in
    let below : starts_with path (drop_last pattern) ≡ true =
      rw (c.is_wildcard, drop_last_wildcard c.directory, c.is_below)
        (rw (← append_assoc c.directory (b'/' ∷ []) c.rest)
          (starts_with_append (c.directory ++ b'/' ∷ []) c.rest)) in
    ground (arith, wild, below)

not-Covers : (path pattern : Text) → covers path pattern ≡ false → ¬ Covers path pattern
not-Covers path pattern h c = ground (arith, covers_of_Covers path pattern c)

-- The first wildcard route that covers the path, behind routes none of which does.
pub record FirstCover (path : Text) (routes : RouteTable) (chunks : List Text) : Type 0 where
  pub before : RouteTable
  pub pattern : Text
  pub after : RouteTable
  pub in_order : routes ≡ before ++ (pattern, chunks) ∷ after
  pub covered : Covers path pattern
  pub earlier : All (λ r. ¬ Covers path r.0) before

find_wildcard-some :
    (path : Text) (routes : RouteTable) (chunks : List Text)
    → find_wildcard path routes ≡ some chunks
    → FirstCover path routes chunks
unfolding find_wildcard
find_wildcard-some path [] chunks h = absurd (cc)
find_wildcard-some path ((pattern, found) ∷ routes) chunks h =
    elim (Bool-cases (covers path pattern)) [
      | inl hit ↦ record {
        before = [];
        pattern = pattern;
        after = routes;
        in_order = ground arith;
        covered = Covers-of_covers path pattern hit;
        earlier = tt;
      }
      | inr miss ↦
          let later = find_wildcard-some path routes chunks (ground arith) in
          record {
            before = (pattern, found) ∷ later.before;
            pattern = later.pattern;
            after = later.after;
            in_order = ap (◌∷◌ (pattern, found)) later.in_order;
            covered = later.covered;
            earlier = (not-Covers path pattern miss, later.earlier);
          }
    ]

find_wildcard-none :
    (path : Text) (routes : RouteTable)
    → find_wildcard path routes ≡ none
    → All (λ r. ¬ Covers path r.0) routes
unfolding find_wildcard
find_wildcard-none path [] h = tt
find_wildcard-none path ((pattern, found) ∷ routes) h =
    (not-Covers path pattern (ground arith), find_wildcard-none path routes (ground arith))

abbrev Uncovered : Text → RouteTable → Type 0
Uncovered path = All (λ r. ¬ Covers path r.0)

-- The precedence of a flat manifest: the path's own route, then the first wildcard route that
-- covers it, then the route `*`.
abbrev pub Precedence : Text → RouteTable → Option RouteMatch → Type 0
Precedence path routes none =
    (get routes path ≡ none) × Uncovered path routes × (get routes (js "*") ≡ none)
Precedence path routes (some r) =
    (get routes path ≡ some r.chunks)
    ⊎ ((get routes path ≡ none) × FirstCover path routes r.chunks)
    ⊎ ((get routes path ≡ none) × Uncovered path routes × (get routes (js "*") ≡ some r.chunks))

-- Matching a path against a flat manifest answers by that precedence, and answers nothing only
-- where there is neither an own route nor a covering wildcard nor a route `*`.
pub match_path_v1-Precedence :
    (path : Text) (m : ChunkManifest) → Precedence path m.routes (match_path_v1 path m)
unfolding match_path_v1
match_path_v1-Precedence path m = elim (Option-cases (get m.routes path)) [
  | inr (chunks, own) ↦ answer (some (plain_match chunks)) (ground arith) (inl own)
  | inl nope ↦ elim (Option-cases (find_wildcard path m.routes)) [
    | inr (chunks, wild) ↦
        answer (some (plain_match chunks)) (ground arith)
          (inr (inl (nope, find_wildcard-some path m.routes chunks wild)))
    | inl tame ↦ elim (Option-cases (get m.routes (js "*"))) [
      | inr (chunks, star) ↦
          answer (some (plain_match chunks)) (ground arith)
            (inr (inr (nope, find_wildcard-none path m.routes tame, star)))
      | inl bare ↦ answer none (ground arith) (nope, find_wildcard-none path m.routes tame, bare)
    ]
  ]
]
  where
    answer :
        (r : Option RouteMatch)
        → match_path_v1 path m ≡ r
        → Precedence path m.routes r
        → Precedence path m.routes (match_path_v1 path m)
    answer r e h = subst (Precedence path m.routes) (sym e) h
