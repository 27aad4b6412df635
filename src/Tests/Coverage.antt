-- ===== src/Tests/Coverage.antt =====
-- The coverage reporter (scripts/lib/cov-reporter) on two small sources.
use luna_mbt.Coverage.{
  Files, merge_coverage, calculate_stats, calculate_directory_stats, should_exclude_file,
}
use luna_mbt.Coverage.Merge.{lines_of, highest, highest_of, highest_in, highest-merge_coverage}
use luna_mbt.Coverage.Sums.{total_of, covered_of, calculate_directory_stats-calculate_stats}
use luna_mbt.Js.Text.{js, starts_with}
use luna_mbt.Prelude.{◌≡◌, refl, true, none, some, List, [], ◌∷◌, Text, any, text_beq}

abbrev unit_tests : Files
unit_tests =
    (
      js "src/a.mbt",
      record {
        path = js "src/a.mbt";
        lines = record { line = 2; count = 0 } ∷ record { line = 1; count = 3 } ∷ [];
      },
    )
    ∷ []

abbrev end_to_end : Files
end_to_end =
    (
      js "src/a.mbt",
      record {
        path = js "src/a.mbt";
        lines = record { line = 2; count = 5 } ∷ record { line = 4; count = 0 } ∷ [];
      },
    )
    ∷ (
      js "src/b.mbt",
      record { path = js "src/b.mbt"; lines = record { line = 1; count = 1 } ∷ [] },
    )
    ∷ []

abbrev sources : List Files
sources = unit_tests ∷ end_to_end ∷ []

-- The `dirname` of the two paths.
abbrev dirname : Text → Text
dirname path = js "src"

merge_coverage_example :
    highest (lines_of (merge_coverage sources) (js "src/a.mbt")) 2
    ≡ highest_of sources (js "src/a.mbt") 2
merge_coverage_example = highest-merge_coverage sources (js "src/a.mbt") 2

highest_of_two : highest_of sources (js "src/a.mbt") 2 ≡ some 5
unfolding highest_of highest_in highest text_beq
highest_of_two = refl

directory_total_example :
    (total_of (calculate_directory_stats dirname end_to_end)
      ≡ (calculate_stats end_to_end).total_lines)
    × (covered_of (calculate_directory_stats dirname end_to_end)
        ≡ (calculate_stats end_to_end).covered_lines)
directory_total_example = calculate_directory_stats-calculate_stats dirname end_to_end

excluded_directory :
    should_exclude_file
      (js "src/_bench/x.mbt")
      (record { exclude = none; exclude_dirs = js "src/_bench" ∷ [] })
    ≡ true
unfolding should_exclude_file any starts_with text_beq
excluded_directory = refl
