-- ===== src/Coverage/Sums.antt =====
-- `calculateStats` and `calculateDirectoryStats` of scripts/lib/cov-reporter/merge.ts count every
-- line once.
use luna_mbt.Coverage.{
  FileCoverage, DirectoryStats, Files, covered_lines, calculate_stats, stats_of, add_file,
  add_files, calculate_directory_stats,
}
use luna_mbt.Js.Entries.{get, put, get-put}
use luna_mbt.Prelude.{
  ◌≡◌, subst, inl, inr, ℕ, ◌+◌, List, [], ◌∷◌, arith, Text, text_eq, text_beq_iff, ◌==◌,
  if◌then◌else◌, length, sum_by, Bool-cases, beq_self,
}

abbrev pub total_of : List (Text × DirectoryStats) → ℕ
total_of by_dir = sum_by (λ d. d.1.total) by_dir

abbrev pub covered_of : List (Text × DirectoryStats) → ℕ
covered_of by_dir = sum_by (λ d. d.1.covered) by_dir

module _ (dirname : Text → Text) where
  total_of-put :
      (m : List (Text × DirectoryStats)) (dir : Text) (c t : ℕ)
      → total_of (put m dir (record { covered = c; total = (stats_of dirname m dir).total + t }))
        ≡ total_of m + t
  unfolding put get sum_by
  total_of-put [] dir c t = omega arith
  total_of-put ((d, v) ∷ m) dir c t = ground (arith, total_of-put m dir c t)

  covered_of-put :
      (m : List (Text × DirectoryStats)) (dir : Text) (c t : ℕ)
      → covered_of
          (put m dir (record { covered = (stats_of dirname m dir).covered + c; total = t }))
        ≡ covered_of m + c
  unfolding put get sum_by
  covered_of-put [] dir c t = omega arith
  covered_of-put ((d, v) ∷ m) dir c t = ground (arith, covered_of-put m dir c t)

  add_files-totals :
      (m : List (Text × DirectoryStats)) (files : Files)
      → (total_of (add_files dirname m files) ≡ total_of m + sum_by (λ f. length f.1.lines) files)
        × (covered_of (add_files dirname m files)
            ≡ covered_of m + sum_by (λ f. covered_lines f.1.lines) files)
  unfolding add_files add_file sum_by
  add_files-totals m [] = (omega arith, omega arith)
  add_files-totals m ((path, file) ∷ files) =
      let dir = dirname file.path in
      let k = add_files-totals (add_file dirname m file) files in
      (
        omega (
          arith,
          k.0,
          total_of-put m dir ((stats_of dirname m dir).covered + covered_lines file.lines)
              (length file.lines),
        ),
        omega (
          arith,
          k.1,
          covered_of-put m dir (covered_lines file.lines)
              ((stats_of dirname m dir).total + length file.lines),
        ),
      )

  -- The directories' lines and covered lines sum to those of the whole report.
  pub calculate_directory_stats-calculate_stats :
      (files : Files)
      → (total_of (calculate_directory_stats dirname files) ≡ (calculate_stats files).total_lines)
        × (covered_of (calculate_directory_stats dirname files)
            ≡ (calculate_stats files).covered_lines)
  unfolding calculate_directory_stats calculate_stats sum_by
  calculate_directory_stats-calculate_stats files =
      let k = add_files-totals [] files in (omega (arith, k.0), omega (arith, k.1))

  -- The files of a directory.
  abbrev pub sum_in : (FileCoverage → ℕ) → Files → Text → ℕ
  sum_in f files dir = sum_by (λ x. if dirname x.1.path == dir then f x.1 else 0) files

  stats_of-add_file :
      (m : List (Text × DirectoryStats)) (file : FileCoverage) (dir : Text)
      → ((stats_of dirname (add_file dirname m file) dir).total
          ≡ (stats_of dirname m dir).total
            + (if dirname file.path == dir then length file.lines else 0))
        × ((stats_of dirname (add_file dirname m file) dir).covered
            ≡ (stats_of dirname m dir).covered
              + (if dirname file.path == dir then covered_lines file.lines else 0))
  unfolding add_file
  stats_of-add_file m file dir =
      let d = dirname file.path in
      let x : DirectoryStats = record {
        covered = (stats_of dirname m d).covered + covered_lines file.lines;
        total = (stats_of dirname m d).total + length file.lines;
      } in
      elim (Bool-cases (d == dir)) [
        | inl e ↦
            subst
              (λ q.
                ((stats_of dirname (put m d x) q).total
                  ≡ (stats_of dirname m q).total + (if d == q then length file.lines else 0))
                × ((stats_of dirname (put m d x) q).covered
                    ≡ (stats_of dirname m q).covered
                      + (if d == q then covered_lines file.lines else 0)))
              ((text_beq_iff d dir).0 e)
              (
                ground (arith, get-put m d d x, beq_self d),
                ground (arith, get-put m d d x, beq_self d),
              )
        | inr e ↦ (ground (arith, get-put m d dir x), ground (arith, get-put m d dir x))
      ]

  stats_of-add_files :
      (m : List (Text × DirectoryStats)) (files : Files) (dir : Text)
      → ((stats_of dirname (add_files dirname m files) dir).total
          ≡ (stats_of dirname m dir).total + sum_in (λ f. length f.lines) files dir)
        × ((stats_of dirname (add_files dirname m files) dir).covered
            ≡ (stats_of dirname m dir).covered + sum_in (λ f. covered_lines f.lines) files dir)
  unfolding add_files sum_by
  stats_of-add_files m [] dir = (omega arith, omega arith)
  stats_of-add_files m ((path, file) ∷ files) dir =
      let k = stats_of-add_files (add_file dirname m file) files dir in
      let j = stats_of-add_file m file dir in (omega (arith, k.0, j.0), omega (arith, k.1, j.1))

  -- The statistics of a directory are the sums over the files of that directory.
  stats_of-calculate_directory_stats :
      (files : Files) (dir : Text)
      → ((stats_of dirname (calculate_directory_stats dirname files) dir).total
          ≡ sum_in (λ f. length f.lines) files dir)
        × ((stats_of dirname (calculate_directory_stats dirname files) dir).covered
            ≡ sum_in (λ f. covered_lines f.lines) files dir)
  unfolding calculate_directory_stats get
  stats_of-calculate_directory_stats files dir =
      let k = stats_of-add_files [] files dir in (omega (arith, k.0), omega (arith, k.1))
