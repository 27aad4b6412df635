-- ===== src/Coverage/Parsers/Highest.antt =====
-- The counts that the parsers of scripts/lib/cov-reporter/parsers give.
use luna_mbt.Coverage.{Files, CoverageConfig}
use luna_mbt.Coverage.Merge.{
  higher, highest, lines_of, higher_assoc, higher-none, highest-merge_file,
}
use luna_mbt.Js.Entries.{get}
use luna_mbt.Coverage.Parsers.{
  Mark, Range, SourceMap, find_map, place_of, add_at, add_mark, add_marks, e2e_marks,
  parse_e2e_coverage,
}
use luna_mbt.Prelude.{
  ℕ, ◌≡◌, sym, ap, ◌∙◌, Bool, Option, none, some, List, [], ◌∷◌, Text, text_eq, nat_eq, ◌==◌,
  if◌then◌else◌,
}

module _ (relative : Text → Text) (included : Text → Bool) (config : CoverageConfig) where
  abbrev pub count_at : Option (Text × ℕ) → ℕ → Text → ℕ → Option ℕ
  count_at none count path n = none
  count_at (some (p, line)) count path n =
      if p == path then (if line == n then some count else none) else none

  -- The greatest count of the marks of a line of a file, if there are any.
  unfoldable pub highest_mark : List Mark → Text → ℕ → Option ℕ
  highest_mark [] path n = none
  highest_mark (m ∷ ms) path n =
      higher (count_at (place_of relative included config m.original) m.count path n)
        (highest_mark ms path n)

  highest-add_at :
      (files : Files) (place : Option (Text × ℕ)) (count : ℕ) (path : Text) (n : ℕ)
      → highest (lines_of (add_at relative included config files place count) path) n
        ≡ higher (highest (lines_of files path) n) (count_at place count path n)
  unfolding highest
  highest-add_at files none count path n = sym (higher-none (highest (lines_of files path) n))
  highest-add_at files (some (p, line)) count path n =
      highest-merge_file files p path
        (record { path = p; lines = record { line = line; count = count } ∷ [] }) n
      ∙ ap (λ o. higher (highest (lines_of files path) n) (if p == path then o else none))
          (higher-none (if line == n then some count else none))

  highest-add_marks :
      (files : Files) (ms : List Mark) (path : Text) (n : ℕ)
      → highest (lines_of (add_marks relative included config files ms) path) n
        ≡ higher (highest (lines_of files path) n) (highest_mark ms path n)
  unfolding add_marks highest_mark add_mark
  highest-add_marks files [] path n = sym (higher-none (highest (lines_of files path) n))
  highest-add_marks files (m ∷ ms) path n =
      let place = place_of relative included config m.original in
      highest-add_marks (add_at relative included config files place m.count) ms path n
      ∙ ap (λ o. higher o (highest_mark ms path n)) (highest-add_at files place m.count path n)
      ∙ higher_assoc (highest (lines_of files path) n) (count_at place m.count path n)
          (highest_mark ms path n)

  module _ (name_of : Text → Text) (maps : List (Text × SourceMap)) where
    -- The greatest count that the entries with a source map give a line.
    unfoldable pub highest_range : List (Text × List (List Range)) → Text → ℕ → Option ℕ
    highest_range [] path n = none
    highest_range ((url, functions) ∷ entries) path n =
        higher
          (highest_mark
            (e2e_marks relative included config name_of maps (find_map name_of url maps) functions)
            path n)
          (highest_range entries path n)

    highest-parse_e2e_from :
        (files : Files) (entries : List (Text × List (List Range))) (path : Text) (n : ℕ)
        → highest
            (lines_of (parse_e2e_coverage relative included config name_of maps files entries) path)
            n
          ≡ higher (highest (lines_of files path) n) (highest_range entries path n)
    unfolding parse_e2e_coverage highest_range
    highest-parse_e2e_from files [] path n = sym (higher-none (highest (lines_of files path) n))
    highest-parse_e2e_from files ((url, functions) ∷ entries) path n =
        let marks =
          e2e_marks relative included config name_of maps (find_map name_of url maps) functions in
        highest-parse_e2e_from (add_marks relative included config files marks) entries path n
        ∙ ap (λ o. higher o (highest_range entries path n)) (highest-add_marks files marks path n)
        ∙ higher_assoc (highest (lines_of files path) n) (highest_mark marks path n)
            (highest_range entries path n)

    pub highest-parse_e2e_coverage :
        (entries : List (Text × List (List Range))) (path : Text) (n : ℕ)
        → highest
            (lines_of (parse_e2e_coverage relative included config name_of maps [] entries) path)
            n
          ≡ highest_range entries path n
    unfolding highest get
    highest-parse_e2e_coverage entries path n = highest-parse_e2e_from [] entries path n
