-- ===== src/Luna/Props/Merged.antt =====
-- What a merged property is (js/luna/src/index.ts).
use luna_mbt.Js.Entries.{keys, get, put, get-put}
use luna_mbt.Luna.Props.{
  Prop, function, is_function, functions_of, or_undefined, is_handler, merge_prop, merge_source,
  merge_sources, merge_props,
}
use luna_mbt.Prelude.{
  ℕ, ◌≡◌, refl, sym, ap, subst, ◌∙◌, inl, inr, true, false, Option, none, some, List, [], ◌∷◌, ◌++◌,
  append_assoc, arith, Text, text_eq, text_beq_iff, ◌==◌, All, includes, IsDistinct, Bool-cases,
  Option-cases, append-nil,
}

-- The values that the sources give for a key, in order.
unfoldable pub values_of : List (Option (List (Text × Prop))) → Text → List Prop
values_of [] k = []
values_of (none ∷ sources) k = values_of sources k
values_of (some source ∷ sources) k = elim (get source k) [
  | none ↦ values_of sources k
  | some v ↦ v ∷ values_of sources k
]

abbrev pub IsSource : Option (List (Text × Prop)) → Type 0
IsSource none = Unit
IsSource (some source) = IsDistinct (keys source)

abbrev pub functions_in : List Prop → List ℕ
functions_in [] = []
functions_in (v ∷ vs) = functions_of v ++ functions_in vs

module _ (print : Prop → Text) where
  -- One key, merged on its own.
  unfoldable pub merge_values : Text → Option Prop → List Prop → Option Prop
  merge_values k old [] = old
  merge_values k old (v ∷ vs) = merge_values k (some (merge_prop print k (or_undefined old) v)) vs

  abbrev after : Text → Option Prop → Option Prop → Option Prop
  after k old none = old
  after k old (some v) = some (merge_prop print k (or_undefined old) v)

  get-merge_source_absent :
      (result source : List (Text × Prop)) (k : Text)
      → includes (keys source) k ≡ false
      → get (merge_source print result source) k ≡ get result k
  unfolding merge_source includes
  get-merge_source_absent result [] k h = refl
  get-merge_source_absent result ((j, v) ∷ source) k h =
      let value = merge_prop print j (or_undefined (get result j)) v in
      get-merge_source_absent (put result j value) source k (ground (arith, h))
      ∙ ground (arith, get-put result j k value, h)

  get-merge_source :
      (result source : List (Text × Prop)) (k : Text)
      → IsDistinct (keys source)
      → get (merge_source print result source) k ≡ after k (get result k) (get source k)
  unfolding merge_source get
  get-merge_source result [] k h = refl
  get-merge_source result ((j, v) ∷ source) k h =
      let value = merge_prop print j (or_undefined (get result j)) v in
      elim (Bool-cases (j == k)) [
        | inl same ↦
            let e : j ≡ k = (text_beq_iff j k).0 same in
            let gone : includes (keys source) k ≡ false =
              subst (λ x. includes (keys source) x ≡ false) e (h.0) in
            rw same (
              get-merge_source_absent (put result j value) source k gone
              ∙ rw same at (get-put result j k value)
              ∙ ap (λ x. some (merge_prop print x (or_undefined (get result x)) v)) e)
        | inr other ↦ rw other (
            get-merge_source (put result j value) source k (h.1)
            ∙ ap (λ x. after k x (get source k)) (rw other at (get-put result j k value)))
      ]

  get-merge_sources :
      (result : List (Text × Prop)) (sources : List (Option (List (Text × Prop)))) (k : Text)
      → All IsSource sources
      → get (merge_sources print result sources) k
        ≡ merge_values k (get result k) (values_of sources k)
  unfolding merge_sources values_of merge_values
  get-merge_sources result [] k h = refl
  get-merge_sources result (none ∷ sources) k h = get-merge_sources result sources k (h.1)
  get-merge_sources result (some source ∷ sources) k h =
      let one = get-merge_source result source k (h.0) in
      let more = get-merge_sources (merge_source print result source) sources k (h.1) in
      elim (Option-cases (get source k)) [
        | inl e ↦
            rw (e, values_of)
              (more ∙ ap (λ x. merge_values k x (values_of sources k)) (rw e at one))
        | inr (v, e) ↦
            rw (e, values_of)
              (more ∙ ap (λ x. merge_values k x (values_of sources k)) (rw e at one))
      ]

  merge_values_functions :
      (k : Text) (fs : List ℕ) (vs : List Prop)
      → is_handler k ≡ true
      → All (λ v. is_function v ≡ true) vs
      → merge_values k (some (function fs)) vs ≡ some (function (fs ++ functions_in vs))
  unfolding merge_values merge_prop
  merge_values_functions k fs [] handler h = ap (λ x. some (function x)) (sym (append-nil fs))
  merge_values_functions k fs (v ∷ vs) handler h =
      rw (handler, h.0)
        (merge_values_functions k (fs ++ functions_of v) vs handler (h.1)
          ∙ ap (λ x. some (function x)) (append_assoc fs (functions_of v) (functions_in vs)))

  -- For sources of distinct keys, each key of the merged props is merged on its own from the values
  -- that the sources give for it, in order.
  get-merge_props :
      (sources : List (Option (List (Text × Prop)))) (k : Text)
      → All IsSource sources
      → get (merge_props print sources) k ≡ merge_values k none (values_of sources k)
  unfolding merge_props get
  get-merge_props sources k h = get-merge_sources [] sources k h

  -- For sources of distinct keys, where the key is ref or starts with on, and all values that the
  -- sources give for it are functions, it is in the merged props a function that calls them all, in
  -- the order of the sources.
  pub merge_props_functions :
      (sources : List (Option (List (Text × Prop)))) (k : Text) (v : Prop) (vs : List Prop)
      → All IsSource sources
      → is_handler k ≡ true
      → values_of sources k ≡ v ∷ vs
      → All (λ v. is_function v ≡ true) (v ∷ vs)
      → get (merge_props print sources) k ≡ some (function (functions_in (v ∷ vs)))
  unfolding merge_values merge_prop
  merge_props_functions sources k v vs h handler given functions =
      get-merge_props sources k h
      ∙ ap (λ x. merge_values k none x) given
      ∙ rw (handler, functions.0)
          (merge_values_functions k (functions_of v) vs handler (functions.1))
