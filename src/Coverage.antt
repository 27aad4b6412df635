-- ===== src/Coverage.antt =====
-- The coverage reporter's merge and statistics: scripts/lib/cov-reporter/merge.ts and types.ts.
pub mod Merge
pub mod Parsers
pub mod Order
pub mod Sums
use luna_mbt.Js.Entries.{get, put, has}
use luna_mbt.Js.Text.{js, starts_with}
use luna_mbt.Prelude.{
  ℕ, ◌+◌, max, Bool, true, false, not, ◌&&◌, ◌||◌, Option, none, some, List, [], ◌∷◌, ◌++◌, Text,
  nat_eq, text_eq, ◌==◌, if◌then◌else◌, length, filter, any, sum_by, ltb, leb,
}

pub record LineCoverage : Type 0 where
  pub line : ℕ
  pub count : ℕ

pub record FileCoverage : Type 0 where
  pub path : Text
  pub lines : List LineCoverage

-- The rate is the quotient of `covered_lines` by `total_lines`, in percent.
pub record CoverageStats : Type 0 where
  pub files : ℕ
  pub total_lines : ℕ
  pub covered_lines : ℕ

pub record DirectoryStats : Type 0 where
  pub covered : ℕ
  pub total : ℕ

abbrev pub Files : Type 0
Files = List (Text × FileCoverage)

-- The body of the loop of `mergeCoverage` over the lines of a file: the first line of that number
-- takes the greater count, or the line is pushed.
unfoldable pub merge_line : List LineCoverage → LineCoverage → List LineCoverage
merge_line [] l = l ∷ []
merge_line (x ∷ xs) l =
    if x.line == l.line then record x { count = max x.count l.count } ∷ xs else x ∷ merge_line xs l

unfoldable pub merge_lines : List LineCoverage → List LineCoverage → List LineCoverage
merge_lines target [] = target
merge_lines target (l ∷ ls) = merge_lines (merge_line target l) ls

abbrev pub target_of : Files → Text → FileCoverage
target_of merged path = elim (get merged path) [
  | none ↦ record { path = path; lines = [] }
  | some file ↦ file
]

-- The body of the loop over the files of a source.
unfoldable pub merge_file : Files → Text → FileCoverage → Files
merge_file merged path coverage = put merged path (record (target_of merged path) {
  lines = merge_lines (target_of merged path).lines coverage.lines;
})

unfoldable pub merge_source : Files → Files → Files
merge_source merged [] = merged
merge_source merged ((path, coverage) ∷ source) =
    merge_source (merge_file merged path coverage) source

unfoldable pub merge_sources : Files → List Files → Files
merge_sources merged [] = merged
merge_sources merged (source ∷ sources) = merge_sources (merge_source merged source) sources

-- `sort((a, b) => a.line - b.line)`
unfoldable pub insert_line : LineCoverage → List LineCoverage → List LineCoverage
insert_line l [] = l ∷ []
insert_line l (x ∷ xs) = if leb l.line x.line then l ∷ x ∷ xs else x ∷ insert_line l xs

unfoldable pub sort_lines : List LineCoverage → List LineCoverage
sort_lines [] = []
sort_lines (l ∷ ls) = insert_line l (sort_lines ls)

unfoldable pub sort_files : Files → Files
sort_files [] = []
sort_files ((path, file) ∷ files) =
    (path, record file { lines = sort_lines file.lines }) ∷ sort_files files

-- `mergeCoverage`
unfoldable pub merge_coverage : List Files → Files
merge_coverage sources = sort_files (merge_sources [] sources)

abbrev pub covered_lines : List LineCoverage → ℕ
covered_lines lines = length (filter (λ l. ltb 0 l.count) lines)

-- `calculateStats`
unfoldable pub calculate_stats : Files → CoverageStats
calculate_stats files = record {
  files = length files;
  total_lines = sum_by (λ f. length f.1.lines) files;
  covered_lines = sum_by (λ f. covered_lines f.1.lines) files;
}

module _ (dirname : Text → Text) where
  abbrev pub stats_of : List (Text × DirectoryStats) → Text → DirectoryStats
  stats_of by_dir dir = elim (get by_dir dir) [
    | none ↦ record { covered = 0; total = 0 }
    | some stats ↦ stats
  ]

  -- The body of the loop of `calculateDirectoryStats`.
  unfoldable pub add_file :
      List (Text × DirectoryStats) → FileCoverage → List (Text × DirectoryStats)
  add_file by_dir file = put by_dir (dirname file.path) (record {
    covered = (stats_of by_dir (dirname file.path)).covered + covered_lines file.lines;
    total = (stats_of by_dir (dirname file.path)).total + length file.lines;
  })

  unfoldable pub add_files : List (Text × DirectoryStats) → Files → List (Text × DirectoryStats)
  add_files by_dir [] = by_dir
  add_files by_dir ((path, file) ∷ files) = add_files (add_file by_dir file) files

  -- `calculateDirectoryStats`
  unfoldable pub calculate_directory_stats : Files → List (Text × DirectoryStats)
  calculate_directory_stats files = add_files [] files

-- The fields of `CoverageConfig` that `shouldExcludeFile` reads; `exclude` is the test of the
-- regular expression.
pub record CoverageConfig : Type 0 where
  pub exclude : Option (Text → Bool)
  pub exclude_dirs : List Text

abbrev matches : Option (Text → Bool) → Text → Bool
matches none filepath = false
matches (some test) filepath = test filepath

-- `shouldExcludeFile`
unfoldable pub should_exclude_file : Text → CoverageConfig → Bool
should_exclude_file filepath config =
    matches config.exclude filepath
    || any (λ dir. starts_with filepath (dir ++ js "/") || (filepath == dir)) config.exclude_dirs
