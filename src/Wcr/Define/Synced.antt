-- ===== src/Wcr/Define/Synced.antt =====
-- The properties of a connected element (js/wcr/src/define.ts).
use luna_mbt.Js.Entries.{keys, get, has, get-put, get-put_self, has-put}
use luna_mbt.Js.Removal.{has-delete_ne, has-delete_self, get-delete_ne, get-delete_self}
use luna_mbt.Prelude.{
  ◌≡◌, refl, true, false, Option, none, some, List, [], ◌∷◌, arith, Text, text_eq, text_beq_iff, Eq,
  ◌==◌, if◌then◌else◌, includes, IsDistinct, beq_self,
}
use luna_mbt.Wcr.Define.{
  Value, AttrDef, parse_attr, set_prop, attribute_of, sync_attributes, change_attribute,
}

module _ {Number : Type 0} ⦃same : Eq Number⦄ (zero : Number)
    (parse_int parse_float : Text → Option Number) where
  abbrev pub names : List (AttrDef Number) → List Text
  names [] = []
  names (def ∷ defs) = def.name ∷ names defs

  -- The property of each attribute has the value of the attribute.
  abbrev pub Agree :
      List (Text × Text) → List (Text × Value Number) → List (AttrDef Number) → Type 0
  Agree attributes props [] = Unit
  Agree attributes props (def ∷ defs) =
      (get props def.name
        ≡ some (
            parse_attr zero parse_int parse_float
              (attribute_of zero parse_int parse_float attributes def) def))
      × Agree attributes props defs

  abbrev pub HasAll : List (Text × Value Number) → List (AttrDef Number) → Type 0
  HasAll props [] = Unit
  HasAll props (def ∷ defs) = (has props def.name ≡ true) × HasAll props defs

  has-set_prop :
      (props : List (Text × Value Number)) (value : Option Text) (def : AttrDef Number)
      (name : Text)
      → has (set_prop zero parse_int parse_float props value def) name ≡ has props name
  unfolding set_prop
  has-set_prop props value def name = ground (
    arith,
    has-put props def.name name (parse_attr zero parse_int parse_float value def),
    text_beq_iff def.name name,
  )

  pub get-set_prop :
      (props : List (Text × Value Number)) (value : Option Text) (def : AttrDef Number)
      (name : Text)
      → has props def.name ≡ true
      → get (set_prop zero parse_int parse_float props value def) name ≡ (
          if def.name == name
          then some (parse_attr zero parse_int parse_float value def)
          else get props name)
  unfolding set_prop
  get-set_prop props value def name there =
      ground (arith, get-put props def.name name (parse_attr zero parse_int parse_float value def))

  pub HasAll-set_prop :
      (props : List (Text × Value Number)) (value : Option Text) (def : AttrDef Number)
      (defs : List (AttrDef Number))
      → HasAll props defs
      → HasAll (set_prop zero parse_int parse_float props value def) defs
  HasAll-set_prop props value def [] h = tt
  HasAll-set_prop props value def (d ∷ defs) (p, h) =
      (rw (has-set_prop props value def d.name) p, HasAll-set_prop props value def defs h)

  pub HasAll-sync_attributes :
      (attributes : List (Text × Text)) (props : List (Text × Value Number))
      (defs all_defs : List (AttrDef Number))
      → HasAll props all_defs
      → HasAll (sync_attributes zero parse_int parse_float attributes props defs) all_defs
  unfolding sync_attributes
  HasAll-sync_attributes attributes props [] all_defs h = h
  HasAll-sync_attributes attributes props (def ∷ defs) all_defs h =
      let value = attribute_of zero parse_int parse_float attributes def in
      HasAll-sync_attributes attributes (set_prop zero parse_int parse_float props value def) defs
        all_defs (HasAll-set_prop props value def all_defs h)

  get-sync_attributes :
      (attributes : List (Text × Text)) (props : List (Text × Value Number))
      (defs : List (AttrDef Number)) (name : Text)
      → HasAll props defs
      → includes (names defs) name ≡ false
      → get (sync_attributes zero parse_int parse_float attributes props defs) name ≡ get props name
  unfolding sync_attributes includes
  get-sync_attributes attributes props [] name h out = refl
  get-sync_attributes attributes props (def ∷ defs) name (p, h) out =
      let value = attribute_of zero parse_int parse_float attributes def in
      ground (
        arith,
        get-sync_attributes attributes (set_prop zero parse_int parse_float props value def) defs
            name (HasAll-set_prop props value def defs h),
        get-set_prop props value def name p,
      )

  pub Agree-sync_attributes :
      (attributes : List (Text × Text)) (props : List (Text × Value Number))
      (defs : List (AttrDef Number))
      → HasAll props defs
      → IsDistinct (names defs)
      → Agree attributes (sync_attributes zero parse_int parse_float attributes props defs) defs
  unfolding sync_attributes
  Agree-sync_attributes attributes props [] h distinct = tt
  Agree-sync_attributes attributes props (def ∷ defs) (p, h) (out, distinct) =
      let value = attribute_of zero parse_int parse_float attributes def in
      let kept = HasAll-set_prop props value def defs h in
      (
        ground (
          arith,
          get-sync_attributes attributes (set_prop zero parse_int parse_float props value def) defs
              def.name kept out,
          get-set_prop props value def def.name p,
          beq_self def.name,
        ),
        Agree-sync_attributes attributes (set_prop zero parse_int parse_float props value def) defs
            kept distinct,
      )

  pub attribute-change_ne :
      (attributes : List (Text × Text)) (name : Text) (value : Option Text) (d : AttrDef Number)
      → (name == d.name) ≡ false
      → attribute_of zero parse_int parse_float
          (change_attribute zero parse_int parse_float attributes name value)
          d
        ≡ attribute_of zero parse_int parse_float attributes d
  attribute-change_ne attributes name none d other = ground (
    arith,
    get-delete_ne attributes name d.name other,
    has-delete_ne attributes name d.name other,
  )
  attribute-change_ne attributes name (some value) d other =
      ground (arith, get-put attributes name d.name value, has-put attributes name d.name value)

  -- What the attribute is read as after the change, but for the text of a Boolean one.
  pub parse-change :
      (attributes : List (Text × Text)) (value : Option Text) (d : AttrDef Number)
      → IsDistinct (keys attributes)
      → parse_attr zero parse_int parse_float
          (attribute_of zero parse_int parse_float
            (change_attribute zero parse_int parse_float attributes d.name value)
            d)
          d
        ≡ parse_attr zero parse_int parse_float value d
  unfolding parse_attr
  parse-change attributes none d once =
      ground (arith, get-delete_self attributes d.name once, has-delete_self attributes d.name once)
  parse-change attributes (some value) d once = ground (
    arith,
    get-put_self attributes d.name value,
    has-put attributes d.name d.name value,
    beq_self d.name,
  )

  -- The properties whose attributes have another name are as they were.
  pub Agree-others :
      (attributes : List (Text × Text)) (props : List (Text × Value Number)) (def : AttrDef Number)
      (value : Option Text) (defs : List (AttrDef Number))
      → has props def.name ≡ true
      → includes (names defs) def.name ≡ false
      → Agree attributes props defs
      → Agree
          (change_attribute zero parse_int parse_float attributes def.name value)
          (set_prop zero parse_int parse_float props value def)
          defs
  unfolding includes
  Agree-others attributes props def value [] there out h = tt
  Agree-others attributes props def value (d ∷ defs) there out (p, h) = (
    ground (
      arith,
      attribute-change_ne attributes def.name value d,
      get-set_prop props value def d.name there,
      text_beq_iff d.name def.name,
      text_beq_iff def.name d.name,
    ),
    Agree-others attributes props def value defs there (ground arith) h,
  )
