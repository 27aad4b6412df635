-- ===== src/Coverage/Parsers.antt =====
-- The parsers of scripts/lib/cov-reporter/parsers on what their files hold: vitest.ts and e2e.ts. A
-- source map gives the source and the line of a position, if it has any; the names of the maps,
-- `relative` (the source without the project's prefix) and the test of `config.include` are
-- parameters.
pub mod Highest
pub mod Greatest
pub mod Ranges
pub mod First
use luna_mbt.Coverage.{
  FileCoverage, LineCoverage, Files, CoverageConfig, merge_file, should_exclude_file,
}
use luna_mbt.Js.Text.{js, contains, is_empty}
use luna_mbt.Prelude.{
  ℕ, ◌+◌, ◌/◌, Bool, true, false, not, ◌&&◌, Option, none, some, List, [], ◌∷◌, ◌++◌, Text, nat_beq,
  if◌then◌else◌,
}

-- A count at the original position, or at none.
pub record Mark : Type 0 where
  pub original : Option (Text × ℕ)
  pub count : ℕ

-- A statement of the coverage of vitest, with its count, if it has one.
pub record Statement : Type 0 where
  pub line : ℕ
  pub column : ℕ
  pub count : Option ℕ

-- A range of the coverage of the browser.
pub record Range : Type 0 where
  pub start_offset : ℕ
  pub count : ℕ

abbrev pub SourceMap : Type 0
SourceMap = ℕ → ℕ → Option (Text × ℕ)

-- The first map whose name the path has in it.
unfoldable pub find_map : (Text → Text) → Text → List (Text × SourceMap) → Option SourceMap
find_map name_of path [] = none
find_map name_of path ((map_path, sm) ∷ maps) =
    if contains path (name_of map_path) then some sm else find_map name_of path maps

abbrev or_zero : Option ℕ → ℕ
or_zero none = 0
or_zero (some n) = n

abbrev pub statement_marks : SourceMap → List Statement → List Mark
statement_marks sm [] = []
statement_marks sm (s ∷ ss) =
    record { original = sm s.line s.column; count = or_zero s.count } ∷ statement_marks sm ss

abbrev pub range_marks : SourceMap → List Range → List Mark
range_marks sm [] = []
range_marks sm (r ∷ rs) =
    record { original = sm (r.start_offset / 50 + 1) 0; count = r.count } ∷ range_marks sm rs

abbrev pub function_marks : SourceMap → List (List Range) → List Mark
function_marks sm [] = []
function_marks sm (rs ∷ functions) = range_marks sm rs ++ function_marks sm functions

module _ (relative : Text → Text) (included : Text → Bool) (config : CoverageConfig) where
  -- The file and the line of a mark that counts.
  abbrev pub place_of : Option (Text × ℕ) → Option (Text × ℕ)
  place_of none = none
  place_of (some (source, line)) =
      if not (is_empty source)
        && (not (nat_beq line 0)
            && (contains source (js ".mbt")
                && (included (relative source)
                    && not (should_exclude_file (relative source) config))))
      then some (relative source, line)
      else none

  abbrev pub add_at : Files → Option (Text × ℕ) → ℕ → Files
  add_at files none count = files
  add_at files (some (path, line)) count =
      merge_file files path
        (record { path = path; lines = record { line = line; count = count } ∷ [] })

  -- The body of the loops over statements and ranges.
  unfoldable pub add_mark : Files → Mark → Files
  add_mark files m = add_at files (place_of m.original) m.count

  unfoldable pub add_marks : Files → List Mark → Files
  unfolding add_mark
  add_marks files [] = files
  add_marks files (m ∷ ms) = add_marks (add_mark files m) ms

  module _ (name_of : Text → Text) (maps : List (Text × SourceMap)) where
    abbrev pub vitest_marks : Option SourceMap → List Statement → List Mark
    vitest_marks none ss = []
    vitest_marks (some sm) ss = statement_marks sm ss

    -- `parseVitestCoverage`, on the files of the JSON and their statements
    unfoldable pub parse_vitest_coverage : Files → List (Text × List Statement) → Files
    unfolding find_map add_marks
    parse_vitest_coverage files [] = files
    parse_vitest_coverage files ((js_path, statements) ∷ data') =
        parse_vitest_coverage
          (add_marks files (vitest_marks (find_map name_of js_path maps) statements)) data'

    abbrev pub e2e_marks : Option SourceMap → List (List Range) → List Mark
    e2e_marks none functions = []
    e2e_marks (some sm) functions = function_marks sm functions

    -- `parseE2ECoverage`, on the entries of all JSON files, the ranges of their functions by their URL
    unfoldable pub parse_e2e_coverage : Files → List (Text × List (List Range)) → Files
    unfolding find_map add_marks
    parse_e2e_coverage files [] = files
    parse_e2e_coverage files ((url, functions) ∷ entries) =
        parse_e2e_coverage (add_marks files (e2e_marks (find_map name_of url maps) functions))
          entries
