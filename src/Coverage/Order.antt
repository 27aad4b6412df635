-- ===== src/Coverage/Order.antt =====
-- The lines of a merged file are in order, with no line twice (scripts/lib/cov-reporter/merge.ts).
use luna_mbt.Coverage.{
  LineCoverage, FileCoverage, Files, merge_line, merge_lines, target_of, merge_file, merge_source,
  merge_sources, insert_line, sort_lines, merge_coverage,
}
use luna_mbt.Coverage.Merge.{lines_of, lines_of-sort_files}
use luna_mbt.Js.Entries.{get, put}
use luna_mbt.Prelude.{
  ◌≡◌, refl, ◌∙◌, subst, inl, inr, ℕ, ◌<◌, Bool, false, ◌||◌, List, [], ◌∷◌, arith, Text, nat_eq,
  nat_beq_iff, text_eq, ◌==◌, leb, All, Bool-cases,
}

-- Some line has the number `n`.
unfoldable pub has_line : List LineCoverage → ℕ → Bool
has_line [] n = false
has_line (l ∷ ls) n = (l.line == n) || has_line ls n

-- No line number twice.
abbrev pub IsUnique : List LineCoverage → Type 0
IsUnique [] = Unit
IsUnique (l ∷ ls) = (has_line ls l.line ≡ false) × IsUnique ls

-- Each line number is below those after it.
abbrev pub IsAscending : List LineCoverage → Type 0
IsAscending [] = Unit
IsAscending (l ∷ ls) = All (λ k. l.line < k.line) ls × IsAscending ls

has_line-merge_line :
    (ls : List LineCoverage) (l : LineCoverage) (n : ℕ)
    → has_line (merge_line ls l) n ≡ (has_line ls n || (l.line == n))
unfolding has_line merge_line
has_line-merge_line [] l n = ground arith
has_line-merge_line (x ∷ xs) l n = ground (
  arith,
  has_line-merge_line xs l n,
  nat_beq_iff x.line l.line,
  nat_beq_iff x.line n,
  nat_beq_iff l.line n,
)

merge_line-IsUnique :
    (ls : List LineCoverage) (l : LineCoverage) → IsUnique ls → IsUnique (merge_line ls l)
unfolding has_line merge_line
merge_line-IsUnique [] l h = (refl, tt)
merge_line-IsUnique (x ∷ xs) l h = elim (Bool-cases (x.line == l.line)) [
  | inl p ↦ rw p h
  | inr p ↦ rw p (
    ground (
      arith,
      has_line-merge_line xs l x.line,
      h.0,
      nat_beq_iff x.line l.line,
      nat_beq_iff l.line x.line,
    ),
    merge_line-IsUnique xs l h.1,
  )
]

merge_lines-IsUnique : (ls ks : List LineCoverage) → IsUnique ls → IsUnique (merge_lines ls ks)
unfolding merge_lines
merge_lines-IsUnique ls [] h = h
merge_lines-IsUnique ls (k ∷ ks) h =
    merge_lines-IsUnique (merge_line ls k) ks (merge_line-IsUnique ls k h)

insert_line-above :
    (n : ℕ) (l : LineCoverage) (ls : List LineCoverage)
    → n < l.line
    → All (λ k. n < k.line) ls
    → All (λ k. n < k.line) (insert_line l ls)
unfolding insert_line
insert_line-above n l [] p h = (p, tt)
insert_line-above n l (x ∷ xs) p h = elim (Bool-cases (leb l.line x.line)) [
  | inl q ↦ rw q (p, h)
  | inr q ↦ rw q (h.0, insert_line-above n l xs p h.1)
]

All-above :
    (m n : ℕ) (ls : List LineCoverage) → m < n → All (λ k. n < k.line) ls → All (λ k. m < k.line) ls
All-above m n [] p h = tt
All-above m n (l ∷ ls) p h = (omega (arith, p, h.0), All-above m n ls p h.1)

insert_line-IsAscending :
    (l : LineCoverage) (ls : List LineCoverage)
    → has_line ls l.line ≡ false
    → IsAscending ls
    → IsAscending (insert_line l ls)
unfolding has_line insert_line
insert_line-IsAscending l [] n h = (tt, tt)
insert_line-IsAscending l (x ∷ xs) n h = elim (Bool-cases (leb l.line x.line)) [
  | inl p ↦ rw p (
      let q : l.line < x.line = ground (arith, nat_beq_iff x.line l.line) in
      ((q, All-above l.line x.line xs q h.0), h))
  | inr p ↦ rw p (
    insert_line-above x.line l xs (ground arith) h.0,
    insert_line-IsAscending l xs (ground arith) h.1,
  )
]

has_line-insert_line :
    (l : LineCoverage) (ls : List LineCoverage) (n : ℕ)
    → has_line (insert_line l ls) n ≡ ((l.line == n) || has_line ls n)
unfolding has_line insert_line
has_line-insert_line l [] n = refl
has_line-insert_line l (x ∷ xs) n = ground (arith, has_line-insert_line l xs n)

has_line-sort_lines : (ls : List LineCoverage) (n : ℕ) → has_line (sort_lines ls) n ≡ has_line ls n
unfolding has_line sort_lines
has_line-sort_lines [] n = refl
has_line-sort_lines (l ∷ ls) n =
    ground (arith, has_line-insert_line l (sort_lines ls) n, has_line-sort_lines ls n)

sort_lines-IsAscending : (ls : List LineCoverage) → IsUnique ls → IsAscending (sort_lines ls)
unfolding sort_lines
sort_lines-IsAscending [] h = tt
sort_lines-IsAscending (l ∷ ls) h =
    insert_line-IsAscending l (sort_lines ls) (has_line-sort_lines ls l.line ∙ h.0)
      (sort_lines-IsAscending ls h.1)

-- Every file of a merge in progress has no line twice.
abbrev AllUnique : Files → Type 0
AllUnique files = All (λ f. IsUnique f.1.lines) files

target_of-IsUnique :
    (files : Files) (path : Text) → AllUnique files → IsUnique (target_of files path).lines
unfolding get
target_of-IsUnique [] path h = tt
target_of-IsUnique ((p, file) ∷ files) path h = elim (Bool-cases (p == path)) [
  | inl e ↦
      (let q : file.lines ≡ (target_of ((p, file) ∷ files) path).lines = ground arith in
        subst IsUnique q h.0)
  | inr e ↦
      (let q : (target_of files path).lines ≡ (target_of ((p, file) ∷ files) path).lines =
          ground arith in
        subst IsUnique q (target_of-IsUnique files path h.1))
]

put-AllUnique :
    (files : Files) (path : Text) (file : FileCoverage)
    → IsUnique file.lines
    → AllUnique files
    → AllUnique (put files path file)
unfolding put
put-AllUnique [] path file u h = (u, tt)
put-AllUnique ((p, f) ∷ files) path file u h = elim (Bool-cases (p == path)) [
  | inl e ↦ rw e (u, h.1)
  | inr e ↦ rw e (h.0, put-AllUnique files path file u h.1)
]

merge_source-AllUnique :
    (merged source : Files) → AllUnique merged → AllUnique (merge_source merged source)
unfolding merge_source merge_file
merge_source-AllUnique merged [] h = h
merge_source-AllUnique merged ((p, file) ∷ source) h =
    merge_source-AllUnique (merge_file merged p file) source (
      put-AllUnique merged p _
        (merge_lines-IsUnique (target_of merged p).lines file.lines (target_of-IsUnique merged p h))
        h)

merge_sources-AllUnique :
    (merged : Files) (sources : List Files)
    → AllUnique merged
    → AllUnique (merge_sources merged sources)
unfolding merge_sources
merge_sources-AllUnique merged [] h = h
merge_sources-AllUnique merged (source ∷ sources) h =
    merge_sources-AllUnique (merge_source merged source) sources
      (merge_source-AllUnique merged source h)

-- The lines of every merged file ascend strictly: none is there twice.
merge_coverage-IsAscending :
    (sources : List Files) (path : Text) → IsAscending (lines_of (merge_coverage sources) path)
unfolding merge_coverage
merge_coverage-IsAscending sources path = rw (lines_of-sort_files (merge_sources [] sources) path) (
    sort_lines-IsAscending (lines_of (merge_sources [] sources) path)
      (target_of-IsUnique (merge_sources [] sources) path (merge_sources-AllUnique [] sources tt)))
