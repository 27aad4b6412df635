-- ===== src/Coverage/Parsers/Ranges.antt =====
-- Where the ranges of functions lie, and the greatest count that they give a line, apart from the code
-- of scripts/lib/cov-reporter/parsers/e2e.ts.
use luna_mbt.Coverage.{CoverageConfig, should_exclude_file}
use luna_mbt.Coverage.Merge.{higher, higher_assoc}
use luna_mbt.Coverage.Parsers.{Mark, Range, SourceMap, range_marks, function_marks, place_of}
use luna_mbt.Coverage.Parsers.Highest.{count_at, highest_mark}
use luna_mbt.Js.Text.{js, contains}
use luna_mbt.Prelude.{
  ℕ, ◌≡◌, ◌≢◌, ◌/◌, ◌+◌, refl, sym, ap, ◌∙◌, subst, inl, inr, Bool, true, false, Option, none, some,
  List, [], ◌∷◌, ◌++◌, arith, Text, text_eq, nat_eq, text_beq_iff, nat_beq_iff, ◌==◌, Bool-cases,
  Option-cases,
}
use mathlib.Core.List.{Memᴰ}
use mathlib.Core.List.Memᴰ.{head, tail}
use luna_mbt.Coverage.Parsers.Greatest.{IsGreatest, IsGreatest-higher}

module _ (relative : Text → Text) (included : Text → Bool) (config : CoverageConfig) where
  -- The range lies, by the line guessed from its offset, in a source of MoonBit that counts.
  pub record Lands (sm : SourceMap) (r : Range) (path : Text) (n : ℕ) : Type 0 where
    pub source : Text
    pub origin : sm (r.start_offset / 50 + 1) 0 ≡ some (source, n)
    pub named : source ≢ []
    pub numbered : n ≢ 0
    pub moonbit : contains source (js ".mbt") ≡ true
    pub shortened : relative source ≡ path
    pub admitted : included path ≡ true
    pub kept : should_exclude_file path config ≡ false

  abbrev pub RangeCounts : SourceMap → List Range → Text → ℕ → ℕ → Type 0
  RangeCounts sm ranges path n c = (r : Range) × Memᴰ r ranges × Lands sm r path n × (r.count ≡ c)

  abbrev pub FunctionCounts : SourceMap → List (List Range) → Text → ℕ → ℕ → Type 0
  FunctionCounts sm functions path n c =
      (ranges : List Range) × Memᴰ ranges functions × RangeCounts sm ranges path n c

  place_of-Lands :
      (sm : SourceMap) (r : Range) (path : Text) (n : ℕ)
      → place_of relative included config (sm (r.start_offset / 50 + 1) 0) ≡ some (path, n)
      → Lands sm r path n
  place_of-Lands sm r path n h = elim (Option-cases (sm (r.start_offset / 50 + 1) 0)) [
    | inl e ↦ ground (arith, ap (place_of relative included config) e)
    | inr ((source, line), e) ↦
        let placed = ap (place_of relative included config) (sym e) ∙ h in
        let same : line ≡ n = ground arith in
        record {
          source = source;
          origin = e ∙ ap (λ l. some (source, l)) same;
          named = ground arith;
          numbered = ground arith;
          moonbit = ground arith;
          shortened = ground arith;
          admitted = ground arith;
          kept = ground arith;
        }
  ]

  Lands-place_of :
      (sm : SourceMap) (r : Range) (path : Text) (n : ℕ)
      → Lands sm r path n
      → place_of relative included config (sm (r.start_offset / 50 + 1) 0) ≡ some (path, n)
  Lands-place_of sm r path n h =
      rw h.origin (ground (arith, h.named, h.numbered, h.moonbit, h.shortened, h.admitted, h.kept))

  placed-IsGreatest :
      (sm : SourceMap) (r : Range) (path : Text) (n : ℕ) (place : Option (Text × ℕ))
      → place_of relative included config (sm (r.start_offset / 50 + 1) 0) ≡ place
      → IsGreatest
          (λ c. Lands sm r path n × (r.count ≡ c))
          (count_at relative included config place r.count path n)
  placed-IsGreatest sm r path n none e = λ c (l, k). ground (arith, Lands-place_of sm r path n l)
  placed-IsGreatest sm r path n (some (p, line)) e = elim (Bool-cases (p == path)) [
    | inl same ↦ elim (Bool-cases (line == n)) [
      | inl same' ↦
          rw (same, same')
            (
              (
                place_of-Lands sm r path n
                    (ground (arith, text_beq_iff p path, nat_beq_iff line n)),
                refl,
              ),
              λ c (l, k). omega arith,
            )
      | inr other ↦
          rw (same, other)
            (λ c (l, k). ground (arith, Lands-place_of sm r path n l, nat_beq_iff line n))
    ]
    | inr other ↦
        rw other (λ c (l, k). ground (arith, Lands-place_of sm r path n l, text_beq_iff p path))
  ]

  range-IsGreatest :
      (sm : SourceMap) (r : Range) (path : Text) (n : ℕ)
      → IsGreatest
          (λ c. Lands sm r path n × (r.count ≡ c))
          (count_at relative included config
            (place_of relative included config (sm (r.start_offset / 50 + 1) 0))
            r.count
            path
            n)
  range-IsGreatest sm r path n =
      placed-IsGreatest sm r path n
        (place_of relative included config (sm (r.start_offset / 50 + 1) 0)) refl

  ranges-IsGreatest :
      (sm : SourceMap) (ranges : List Range) (path : Text) (n : ℕ)
      → IsGreatest
          (RangeCounts sm ranges path n)
          (highest_mark relative included config (range_marks sm ranges) path n)
  unfolding highest_mark
  ranges-IsGreatest sm [] path n = λ c (r, m, l, k). elim m [ ]
  ranges-IsGreatest sm (r ∷ ranges) path n =
      IsGreatest-higher (λ c. Lands sm r path n × (r.count ≡ c)) (RangeCounts sm ranges path n)
        (RangeCounts sm (r ∷ ranges) path n)
        (count_at relative included config
          (place_of relative included config (sm (r.start_offset / 50 + 1) 0)) r.count path n)
        (highest_mark relative included config (range_marks sm ranges) path n)
        (range-IsGreatest sm r path n) (ranges-IsGreatest sm ranges path n)
        (λ c (l, e). (r, head refl, l, e)) (λ c (x, m, l, e). (x, tail m, l, e))
        (λ c (x, m, l, e). elim m [
          | head same ↦ inl (subst (λ y. Lands sm y path n × (y.count ≡ c)) same (l, e))
          | tail k ↦ inr (x, k, l, e)
        ])

  highest_mark-append :
      (ms ns : List Mark) (path : Text) (n : ℕ)
      → highest_mark relative included config (ms ++ ns) path n
        ≡ higher
            (highest_mark relative included config ms path n)
            (highest_mark relative included config ns path n)
  unfolding highest_mark
  highest_mark-append [] ns path n = refl
  highest_mark-append (m ∷ ms) ns path n =
      ap
        (higher (
          count_at relative included config (place_of relative included config m.original) m.count
            path n))
        (highest_mark-append ms ns path n)
      ∙ sym (
          higher_assoc
            (count_at relative included config (place_of relative included config m.original)
              m.count path n)
            (highest_mark relative included config ms path n)
            (highest_mark relative included config ns path n))

  pub functions-IsGreatest :
      (sm : SourceMap) (functions : List (List Range)) (path : Text) (n : ℕ)
      → IsGreatest
          (FunctionCounts sm functions path n)
          (highest_mark relative included config (function_marks sm functions) path n)
  unfolding highest_mark
  functions-IsGreatest sm [] path n = λ c (rs, m, l). elim m [ ]
  functions-IsGreatest sm (rs ∷ functions) path n =
      subst (IsGreatest (FunctionCounts sm (rs ∷ functions) path n))
        (sym (highest_mark-append (range_marks sm rs) (function_marks sm functions) path n))
        (IsGreatest-higher (RangeCounts sm rs path n) (FunctionCounts sm functions path n)
          (FunctionCounts sm (rs ∷ functions) path n)
          (highest_mark relative included config (range_marks sm rs) path n)
          (highest_mark relative included config (function_marks sm functions) path n)
          (ranges-IsGreatest sm rs path n) (functions-IsGreatest sm functions path n)
          (λ c l. (rs, head refl, l)) (λ c (x, m, l). (x, tail m, l))
          (λ c (x, m, l). elim m [
            | head same ↦ inl (subst (λ y. RangeCounts sm y path n c) same l)
            | tail k ↦ inr (x, k, l)
          ]))
