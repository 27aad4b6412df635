-- ===== src/Wcr/Define/Life.antt =====
-- Elements over their callbacks (js/wcr/src/define.ts).
use luna_mbt.Js.Entries.{keys, has, put, has-put}
use luna_mbt.Prelude.{
  ◌≡◌, subst, inl, inr, true, false, Option, none, some, List, [], ◌∷◌, arith, Text, text_eq,
  text_beq_iff, Eq, ◌==◌, includes, IsDistinct, Bool-cases, beq_self,
}
use luna_mbt.Wcr.Define.{
  Value, AttrDef, parse_attr, initial_props, set_prop, find_def, change_attribute,
}
use luna_mbt.Wcr.Define.Synced.{
  names, Agree, HasAll, get-set_prop, attribute-change_ne, parse-change, Agree-others,
}

module _ {Number : Type 0} ⦃same : Eq Number⦄ (zero : Number)
    (parse_int parse_float : Text → Option Number) where
  abbrev set_p :
      List (Text × Value Number) → Option Text → AttrDef Number → List (Text × Value Number)
  set_p = set_prop zero parse_int parse_float

  abbrev change : List (Text × Text) → Text → Option Text → List (Text × Text)
  change = change_attribute zero parse_int parse_float

  pub HasAll-find_def :
      (props : List (Text × Value Number)) (defs : List (AttrDef Number)) (name : Text)
      (def : AttrDef Number)
      → HasAll zero parse_int parse_float props defs
      → find_def zero parse_int parse_float defs name ≡ some def
      → (def.name ≡ name) × (has props def.name ≡ true)
  HasAll-find_def props [] name def h found = cc
  HasAll-find_def props (d ∷ defs) name def (p, h) found = elim (Bool-cases (d.name == name)) [
    | inl hit ↦ ground (arith, text_beq_iff d.name name)
    | inr miss ↦ HasAll-find_def props defs name def h (ground arith)
  ]

  Agree-changed_here :
      (attributes : List (Text × Text)) (props : List (Text × Value Number)) (value : Option Text)
      (d : AttrDef Number) (defs : List (AttrDef Number))
      → IsDistinct (keys attributes)
      → includes (names zero parse_int parse_float defs) d.name ≡ false
      → has props d.name ≡ true
      → Agree zero parse_int parse_float attributes props defs
      → Agree zero parse_int parse_float
          (change attributes d.name value)
          (set_p props value d)
          (d ∷ defs)
  Agree-changed_here attributes props value d defs once out p h = (
    ground (
      arith,
      parse-change zero parse_int parse_float attributes value d once,
      get-set_prop zero parse_int parse_float props value d d.name p,
      beq_self d.name,
    ),
    Agree-others zero parse_int parse_float attributes props d value defs p out h,
  )

  pub Agree-changed :
      (attributes : List (Text × Text)) (props : List (Text × Value Number)) (value : Option Text)
      (defs : List (AttrDef Number)) (name : Text) (def : AttrDef Number)
      → IsDistinct (keys attributes)
      → IsDistinct (names zero parse_int parse_float defs)
      → HasAll zero parse_int parse_float props defs
      → find_def zero parse_int parse_float defs name ≡ some def
      → Agree zero parse_int parse_float attributes props defs
      → Agree zero parse_int parse_float (change attributes name value) (set_p props value def) defs
  Agree-changed attributes props value [] name def once distinct all found h = tt
  Agree-changed attributes props value (d ∷ defs) name def once (out, distinct) (p, all) found
        (q, h) =
      elim (Bool-cases (d.name == name)) [
        | inl hit ↦
            let at : d.name ≡ name = (text_beq_iff d.name name).0 hit in
            let it : d ≡ def = ground (arith, hit) in
            subst
              (λ x.
                Agree zero parse_int parse_float (change attributes name value)
                  (set_p props value x) (d ∷ defs))
              it
              (subst
                (λ n.
                  Agree zero parse_int parse_float (change attributes n value) (set_p props value d)
                    (d ∷ defs))
                at (Agree-changed_here attributes props value d defs once out p h))
        | inr miss ↦
            let (at, there) = HasAll-find_def props defs name def all (ground (arith, miss)) in
            (
              ground (
                arith,
                get-set_prop zero parse_int parse_float props value def d.name there,
                attribute-change_ne zero parse_int parse_float attributes name value d,
                text_beq_iff def.name d.name,
                text_beq_iff name d.name,
                text_beq_iff d.name name,
              ),
              Agree-changed attributes props value defs name def once distinct all
                  (ground (arith, miss)) h,
            )
      ]

  pub Agree-unobserved :
      (attributes : List (Text × Text)) (props : List (Text × Value Number)) (value : Option Text)
      (defs : List (AttrDef Number)) (name : Text)
      → find_def zero parse_int parse_float defs name ≡ none
      → Agree zero parse_int parse_float attributes props defs
      → Agree zero parse_int parse_float (change attributes name value) props defs
  Agree-unobserved attributes props value [] name found h = tt
  Agree-unobserved attributes props value (d ∷ defs) name found (q, h) =
      elim (Bool-cases (d.name == name)) [
        | inl hit ↦ ground (arith, hit)
        | inr miss ↦ (
          ground (
            arith,
            attribute-change_ne zero parse_int parse_float attributes name value d,
            text_beq_iff name d.name,
            text_beq_iff d.name name,
          ),
          Agree-unobserved attributes props value defs name (ground (arith, miss)) h,
        )
      ]

  HasAll-put :
      (props : List (Text × Value Number)) (k : Text) (v : Value Number)
      (defs : List (AttrDef Number))
      → HasAll zero parse_int parse_float props defs
      → HasAll zero parse_int parse_float (put props k v) defs
  HasAll-put props k v [] h = tt
  HasAll-put props k v (d ∷ defs) (p, h) =
      (ground (arith, has-put props k d.name v), HasAll-put props k v defs h)

  has-initial_props :
      (props : List (Text × Value Number)) (defs : List (AttrDef Number)) (k : Text)
      → has props k ≡ true
      → has (initial_props zero parse_int parse_float props defs) k ≡ true
  has-initial_props props [] k h = h
  has-initial_props props (d ∷ defs) k h =
      has-initial_props (put props d.name (parse_attr zero parse_int parse_float none d)) defs k
        (ground (arith, has-put props d.name k (parse_attr zero parse_int parse_float none d)))

  pub HasAll-initial_props :
      (props : List (Text × Value Number)) (defs : List (AttrDef Number))
      → HasAll zero parse_int parse_float (initial_props zero parse_int parse_float props defs) defs
  HasAll-initial_props props [] = tt
  HasAll-initial_props props (d ∷ defs) =
      let props' = put props d.name (parse_attr zero parse_int parse_float none d) in
      (
        has-initial_props props' defs d.name (
            ground (
              arith,
              has-put props d.name d.name (parse_attr zero parse_int parse_float none d),
              beq_self d.name,
            )),
        HasAll-initial_props props' defs,
      )
