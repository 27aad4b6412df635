-- ===== src/Coverage/Parsers/First.antt =====
-- The counts that the entries of the browser give a line by their first source map
-- (scripts/lib/cov-reporter/parsers/e2e.ts).
use luna_mbt.Coverage.{CoverageConfig}
use luna_mbt.Coverage.Merge.{highest, lines_of}
use luna_mbt.Coverage.Parsers.{
  Range, SourceMap, find_map, function_marks, e2e_marks, parse_e2e_coverage,
}
use luna_mbt.Coverage.Parsers.Highest.{highest_mark, highest_range, highest-parse_e2e_coverage}
use luna_mbt.Js.Text.{contains}
use luna_mbt.Prelude.{
  ℕ, ◌≡◌, refl, sym, ◌∙◌, subst, inl, inr, Bool, true, false, Option, none, some, List, [], ◌∷◌,
  arith, Text, text_eq, nat_eq, Bool-cases,
}
use mathlib.Core.Option.{some-injective}
use mathlib.Core.List.{Memᴰ}
use mathlib.Core.List.Memᴰ.{head, tail}
use luna_mbt.Coverage.Parsers.Greatest.{IsGreatest, IsGreatest-higher, IsGreatest-iff}
use luna_mbt.Coverage.Parsers.Ranges.{FunctionCounts, functions-IsGreatest}

module _ (relative : Text → Text) (included : Text → Bool) (config : CoverageConfig) where
  module _ (name_of : Text → Text) (maps : List (Text × SourceMap)) where
    -- A map is the first one whose name the URL has in it.
    pub data IsFirstMap (url : Text) (sm : SourceMap) : List (Text × SourceMap) → Type 0 where
      here :
          {map_path : Text} {rest : List (Text × SourceMap)}
          → contains url (name_of map_path) ≡ true
          → IsFirstMap url sm ((map_path, sm) ∷ rest)
      later :
          {map_path : Text} {other : SourceMap} {rest : List (Text × SourceMap)}
          → contains url (name_of map_path) ≡ false
          → IsFirstMap url sm rest
          → IsFirstMap url sm ((map_path, other) ∷ rest)

    find_map-IsFirstMap :
        (url : Text) (sm : SourceMap) (ms : List (Text × SourceMap))
        → find_map name_of url ms ≡ some sm
        → IsFirstMap url sm ms
    unfolding find_map
    find_map-IsFirstMap url sm [] h = ground arith
    find_map-IsFirstMap url sm ((map_path, other) ∷ ms) h =
        elim (Bool-cases (contains url (name_of map_path))) [
          | inl hit ↦
              subst (λ x. IsFirstMap url x ((map_path, other) ∷ ms))
                (some-injective other sm (rw (hit, find_map) at h)) (here hit)
          | inr miss ↦ later miss (find_map-IsFirstMap url sm ms (rw (miss, find_map) at h))
        ]

    IsFirstMap-find_map :
        (url : Text) (sm : SourceMap) (ms : List (Text × SourceMap))
        → IsFirstMap url sm ms
        → find_map name_of url ms ≡ some sm
    unfolding find_map
    IsFirstMap-find_map url sm [] first = elim first [ ]
    IsFirstMap-find_map url sm ((map_path, _) ∷ ms) (here hit) = rw (hit, find_map) refl
    IsFirstMap-find_map url sm ((map_path, other) ∷ ms) (later miss l) =
        rw (miss, find_map) (IsFirstMap-find_map url sm ms l)

    abbrev pub EntryCounts : Text → List (List Range) → Text → ℕ → ℕ → Type 0
    EntryCounts url functions path n c =
        (sm : SourceMap) × IsFirstMap url sm maps
        × FunctionCounts relative included config sm functions path n c

    -- A range of one of the entries gives the line the count: the source map of the entry, the first
    -- one that there is, puts the range there.
    abbrev pub Counts : List (Text × List (List Range)) → Text → ℕ → ℕ → Type 0
    Counts entries path n c =
        (e : Text × List (List Range)) × Memᴰ e entries × EntryCounts e.0 e.1 path n c

    entry-IsGreatest :
        (url : Text) (functions : List (List Range)) (path : Text) (n : ℕ)
        (found : Option SourceMap)
        → find_map name_of url maps ≡ found
        → IsGreatest (EntryCounts url functions path n) (
            highest_mark relative included config
              (e2e_marks relative included config name_of maps found functions)
              path
              n)
    unfolding highest_mark
    entry-IsGreatest url functions path n none e =
        λ c (sm, first, l). ground (arith, IsFirstMap-find_map url sm maps first)
    entry-IsGreatest url functions path n (some sm) e =
        IsGreatest-iff (FunctionCounts relative included config sm functions path n)
          (EntryCounts url functions path n)
          (highest_mark relative included config (function_marks sm functions) path n)
          (functions-IsGreatest relative included config sm functions path n)
          (λ c l. (sm, find_map-IsFirstMap url sm maps e, l))
          (λ c (other, first, l).
            subst (λ x. FunctionCounts relative included config x functions path n c)
              (some-injective other sm (sym (IsFirstMap-find_map url other maps first) ∙ e)) l)

    pub entries-IsGreatest :
        (entries : List (Text × List (List Range))) (path : Text) (n : ℕ)
        → IsGreatest
            (Counts entries path n)
            (highest_range relative included config name_of maps entries path n)
    unfolding highest_range
    entries-IsGreatest [] path n = λ c (e, m, l). elim m [ ]
    entries-IsGreatest ((url, functions) ∷ entries) path n =
        let marks =
          e2e_marks relative included config name_of maps (find_map name_of url maps) functions in
        IsGreatest-higher (EntryCounts url functions path n) (Counts entries path n)
          (Counts ((url, functions) ∷ entries) path n)
          (highest_mark relative included config marks path n)
          (highest_range relative included config name_of maps entries path n)
          (entry-IsGreatest url functions path n (find_map name_of url maps) refl)
          (entries-IsGreatest entries path n) (λ c l. ((url, functions), head refl, l))
          (λ c (x, m, l). (x, tail m, l))
          (λ c (x, m, l). elim m [
            | head same ↦ inl (subst (λ y. EntryCounts y.0 y.1 path n c) same l)
            | tail k ↦ inr (x, k, l)
          ])

    -- The coverage that is parsed from the browser's entries has for a line of a file the greatest
    -- count of the ranges of entries that lie there, and does not have the line where there is none. A
    -- range lies on the line to which the first source map whose name is in its entry's URL takes the
    -- line guessed from its offset, if that is in a MoonBit source which the configuration includes
    -- and does not exclude.
    pub parse_e2e_coverage-IsGreatest :
        (entries : List (Text × List (List Range))) (path : Text) (n : ℕ)
        → IsGreatest (Counts entries path n) (
            highest
              (lines_of (parse_e2e_coverage relative included config name_of maps [] entries) path)
              n)
    parse_e2e_coverage-IsGreatest entries path n =
        rw (highest-parse_e2e_coverage relative included config name_of maps entries path n)
          (entries-IsGreatest entries path n)
