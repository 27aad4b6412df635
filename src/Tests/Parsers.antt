-- ===== src/Tests/Parsers.antt =====
-- The coverage of the browser, parsed as in scripts/lib/cov-reporter/parsers/e2e.ts.
use luna_mbt.Coverage.{CoverageConfig}
use luna_mbt.Coverage.Merge.{highest, lines_of}
use luna_mbt.Coverage.Parsers.{Range, SourceMap, parse_e2e_coverage}
use luna_mbt.Coverage.Parsers.First.{Counts, parse_e2e_coverage-IsGreatest}
use luna_mbt.Coverage.Parsers.Greatest.{IsGreatest}
use luna_mbt.Js.Text.{js}
use luna_mbt.Prelude.{Bool, true, none, some, List, [], ◌∷◌, Text}

abbrev config : CoverageConfig
config = record { exclude = none; exclude_dirs = js "test" ∷ [] }

abbrev all_files : Text → Bool
all_files path = true

abbrev same : Text → Text
same path = path

abbrev one_file : SourceMap
one_file line column = some (js "src/a.mbt", line)

abbrev maps : List (Text × SourceMap)
maps = (js "main", one_file) ∷ []

abbrev entries : List (Text × List (List Range))
entries =
    (
      js "http://localhost/main.js",
      (record { start_offset = 0; count = 2 }
            ∷ record { start_offset = 49; count = 5 }
            ∷ record { start_offset = 50; count = 1 }
            ∷ [])
          ∷ [],
    )
    ∷ []

ranges_example : IsGreatest (Counts same all_files config same maps entries (js "src/a.mbt") 1) (
    highest
      (lines_of (parse_e2e_coverage same all_files config same maps [] entries) (js "src/a.mbt"))
      1)
ranges_example =
    parse_e2e_coverage-IsGreatest same all_files config same maps entries (js "src/a.mbt") 1
