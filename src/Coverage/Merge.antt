-- ===== src/Coverage/Merge.antt =====
-- `mergeCoverage` of scripts/lib/cov-reporter/merge.ts gives each line its greatest count.
use luna_mbt.Coverage.{
  LineCoverage, FileCoverage, Files, merge_line, merge_lines, target_of, merge_file, merge_source,
  merge_sources, insert_line, sort_lines, sort_files, merge_coverage,
}
use luna_mbt.Js.Entries.{get, put, get-put}
use luna_mbt.Prelude.{
  ◌≡◌, refl, sym, ap, ◌∙◌, subst, inl, inr, ℕ, max, true, Option, none, some, List, [], ◌∷◌, arith,
  Text, nat_eq, nat_beq_iff, text_eq, text_beq_iff, ◌==◌, if◌then◌else◌, beq_self, leb, Bool-cases,
}

-- The greater of two counts, where there are any.
abbrev pub higher : Option ℕ → Option ℕ → Option ℕ
higher none b = b
higher (some a) none = some a
higher (some a) (some b) = some (max a b)

-- The greatest count of the line `n`, if the lines have it.
unfoldable pub highest : List LineCoverage → ℕ → Option ℕ
highest [] n = none
highest (l ∷ ls) n = higher (if l.line == n then some l.count else none) (highest ls n)

pub higher_assoc : (a b c : Option ℕ) → higher (higher a b) c ≡ higher a (higher b c)
higher_assoc none b c = refl
higher_assoc (some a) none c = refl
higher_assoc (some a) (some b) none = refl
higher_assoc (some a) (some b) (some c) = ap some (omega arith)

higher_comm : (a b : Option ℕ) → higher a b ≡ higher b a
higher_comm none none = refl
higher_comm none (some b) = refl
higher_comm (some a) none = refl
higher_comm (some a) (some b) = ap some (omega arith)

pub higher-none : (a : Option ℕ) → higher a none ≡ a
higher-none none = refl
higher-none (some a) = refl

higher_swap : (a b c : Option ℕ) → higher (higher a b) c ≡ higher (higher a c) b
higher_swap a b c =
    higher_assoc a b c ∙ (ap (higher a) (higher_comm b c) ∙ sym (higher_assoc a c b))

abbrev own : LineCoverage → ℕ → Option ℕ
own l n = if l.line == n then some l.count else none

-- A line whose count is raised to that of another line of its number.
own_raised :
    (x l : LineCoverage) (n : ℕ)
    → (x.line == l.line) ≡ true
    → own (record x { count = max x.count l.count }) n ≡ higher (own x n) (own l n)
own_raised x l n h = elim (Bool-cases (x.line == n)) [
  | inl p ↦ ground (arith, nat_beq_iff x.line l.line, nat_beq_iff x.line n, nat_beq_iff l.line n)
  | inr p ↦ ground (arith, nat_beq_iff x.line l.line, nat_beq_iff x.line n, nat_beq_iff l.line n)
]

highest-merge_line :
    (ls : List LineCoverage) (l : LineCoverage) (n : ℕ)
    → highest (merge_line ls l) n ≡ higher (highest ls n) (own l n)
unfolding highest merge_line
highest-merge_line [] l n = higher-none (own l n)
highest-merge_line (x ∷ xs) l n = elim (Bool-cases (x.line == l.line)) [
  | inl p ↦ rw p (
      ap (λ o. higher o (highest xs n)) (own_raised x l n p)
      ∙ higher_swap (own x n) (own l n) (highest xs n))
  | inr p ↦ rw p (
      ap (higher (own x n)) (highest-merge_line xs l n)
      ∙ sym (higher_assoc (own x n) (highest xs n) (own l n)))
]

highest-merge_lines :
    (ls ks : List LineCoverage) (n : ℕ)
    → highest (merge_lines ls ks) n ≡ higher (highest ls n) (highest ks n)
unfolding highest merge_lines
highest-merge_lines ls [] n = sym (higher-none (highest ls n))
highest-merge_lines ls (k ∷ ks) n =
    highest-merge_lines (merge_line ls k) ks n
    ∙ (ap (λ o. higher o (highest ks n)) (highest-merge_line ls k n)
        ∙ higher_assoc (highest ls n) (own k n) (highest ks n))

highest-insert_line :
    (l : LineCoverage) (ls : List LineCoverage) (n : ℕ)
    → highest (insert_line l ls) n ≡ higher (own l n) (highest ls n)
unfolding highest insert_line
highest-insert_line l [] n = refl
highest-insert_line l (x ∷ xs) n = elim (Bool-cases (leb l.line x.line)) [
  | inl p ↦ rw p refl
  | inr p ↦ rw p (
      ap (higher (own x n)) (highest-insert_line l xs n)
      ∙ (sym (higher_assoc (own x n) (own l n) (highest xs n))
          ∙ (ap (λ o. higher o (highest xs n)) (higher_comm (own x n) (own l n))
              ∙ higher_assoc (own l n) (own x n) (highest xs n))))
]

highest-sort_lines : (ls : List LineCoverage) (n : ℕ) → highest (sort_lines ls) n ≡ highest ls n
unfolding highest sort_lines
highest-sort_lines [] n = refl
highest-sort_lines (l ∷ ls) n =
    highest-insert_line l (sort_lines ls) n ∙ ap (higher (own l n)) (highest-sort_lines ls n)

-- The lines of the file of that path.
abbrev pub lines_of : Files → Text → List LineCoverage
lines_of files path = (target_of files path).lines

-- The greatest count of the line `n` of the file `path` in a source, and in all of them.
unfoldable pub highest_in : Files → Text → ℕ → Option ℕ
highest_in [] path n = none
highest_in ((p, file) ∷ files) path n =
    higher (if p == path then highest file.lines n else none) (highest_in files path n)

unfoldable pub highest_of : List Files → Text → ℕ → Option ℕ
highest_of [] path n = none
highest_of (source ∷ sources) path n = higher (highest_in source path n) (highest_of sources path n)

lines_of-put :
    (files : Files) (p q : Text) (file : FileCoverage)
    → lines_of (put files p file) q ≡ (if p == q then file.lines else lines_of files q)
lines_of-put files p q file = ground (arith, get-put files p q file)

highest-merge_file_self :
    (merged : Files) (p : Text) (file : FileCoverage) (n : ℕ)
    → highest (lines_of (merge_file merged p file) p) n
      ≡ higher (highest (lines_of merged p) n) (highest file.lines n)
unfolding merge_file
highest-merge_file_self merged p file n =
    ap (λ ls. highest ls n) (lines_of-put merged p p _)
    ∙ rw (beq_self p) (highest-merge_lines (lines_of merged p) file.lines n)

pub highest-merge_file :
    (merged : Files) (p path : Text) (file : FileCoverage) (n : ℕ)
    → highest (lines_of (merge_file merged p file) path) n
      ≡ higher (highest (lines_of merged path) n) (if p == path then highest file.lines n else none)
unfolding merge_file
highest-merge_file merged p path file n = elim (Bool-cases (p == path)) [
  | inl e ↦ rw e (
      subst
        (λ q.
          highest (lines_of (merge_file merged p file) q) n
          ≡ higher (highest (lines_of merged q) n) (highest file.lines n))
        ((text_beq_iff p path).0 e) (highest-merge_file_self merged p file n))
  | inr e ↦
      ap (λ ls. highest ls n) (lines_of-put merged p path _)
      ∙ rw e (sym (higher-none (highest (lines_of merged path) n)))
]

highest-merge_source :
    (merged source : Files) (path : Text) (n : ℕ)
    → highest (lines_of (merge_source merged source) path) n
      ≡ higher (highest (lines_of merged path) n) (highest_in source path n)
unfolding merge_source highest_in
highest-merge_source merged [] path n = sym (higher-none (highest (lines_of merged path) n))
highest-merge_source merged ((p, file) ∷ source) path n =
    highest-merge_source (merge_file merged p file) source path n
    ∙ (ap (λ o. higher o (highest_in source path n)) (highest-merge_file merged p path file n)
        ∙ higher_assoc (highest (lines_of merged path) n)
            (if p == path then highest file.lines n else none) (highest_in source path n))

highest-merge_sources :
    (merged : Files) (sources : List Files) (path : Text) (n : ℕ)
    → highest (lines_of (merge_sources merged sources) path) n
      ≡ higher (highest (lines_of merged path) n) (highest_of sources path n)
unfolding merge_sources highest_of
highest-merge_sources merged [] path n = sym (higher-none (highest (lines_of merged path) n))
highest-merge_sources merged (source ∷ sources) path n =
    highest-merge_sources (merge_source merged source) sources path n
    ∙ (ap (λ o. higher o (highest_of sources path n)) (highest-merge_source merged source path n)
        ∙ higher_assoc (highest (lines_of merged path) n) (highest_in source path n)
            (highest_of sources path n))

pub lines_of-sort_files :
    (files : Files) (path : Text)
    → lines_of (sort_files files) path ≡ sort_lines (lines_of files path)
unfolding sort_files sort_lines get
lines_of-sort_files [] path = refl
lines_of-sort_files ((p, file) ∷ files) path = ground (arith, lines_of-sort_files files path)

-- In the merged coverage, the greatest count of each line of each file is the greatest count that
-- any source gives it, and the line is there exactly when some source has it.
pub highest-merge_coverage :
    (sources : List Files) (path : Text) (n : ℕ)
    → highest (lines_of (merge_coverage sources) path) n ≡ highest_of sources path n
unfolding merge_coverage highest get
highest-merge_coverage sources path n =
    ap (λ ls. highest ls n) (lines_of-sort_files (merge_sources [] sources) path)
    ∙ (highest-sort_lines (lines_of (merge_sources [] sources) path) n
        ∙ highest-merge_sources [] sources path n)
