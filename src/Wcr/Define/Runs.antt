-- ===== src/Wcr/Define/Runs.antt =====
-- All lives of an element (js/wcr/src/define.ts).
use luna_mbt.Js.Entries.{keys, put-IsDistinct}
use luna_mbt.Js.Removal.{IsDistinct-keys-delete}
use luna_mbt.Prelude.{
  ◌≡◌, refl, sym, subst, inl, inr, true, false, Option, none, some, List, [], arith, Text, text_eq,
  Eq, if◌then◌else◌, IsDistinct, Bool-cases, Option-cases,
}
use luna_mbt.Wcr.Define.{
  Shadow, Value, AttrDef, Root, Element, construct, set_prop, sync_attributes, set_up_root,
  connected_callback, disconnected_callback, find_def, changed_prop, change_attribute,
  set_attribute,
}
use luna_mbt.Wcr.Define.Life.{Agree-changed, Agree-unobserved, HasAll-initial_props}
use luna_mbt.Wcr.Define.Synced.{
  names, Agree, HasAll, HasAll-set_prop, HasAll-sync_attributes, Agree-sync_attributes,
}

module _ {Number : Type 0} ⦃same : Eq Number⦄ (zero : Number)
    (parse_int parse_float : Text → Option Number) (defs : List (AttrDef Number)) (mode : Shadow)
    (template : Option (List (Text × Value Number) → Text))
    (setup : List (Text × Value Number) → Option Text × List Text) where
  pub data Step (el : Element Number) : Element Number → Type 0 where
    connected :
        {el' : Element Number}
        → connected_callback zero parse_int parse_float defs mode template setup el ≡ some el'
        → Step el el'
    disconnected : Step el (disconnected_callback zero parse_int parse_float el)
    attribute_set :
        (name : Text) (value : Option Text)
        → Step el (set_attribute zero parse_int parse_float defs el name value)

  pub data Reach : Element Number → Type 0 where
    start :
        (attributes : List (Text × Text)) (root : Option Root)
        → IsDistinct (keys attributes)
        → Reach (construct zero parse_int parse_float defs attributes root)
    later : {el el' : Element Number} → Reach el → Step el el' → Reach el'

  -- While the element is connected its properties have the values of its attributes; while it is
  -- not, no function of the component waits to be called.
  pub record IsFaithful (el : Element Number) : Type 0 where
    pub once : IsDistinct (keys el.attributes)
    pub all : HasAll zero parse_int parse_float el.props defs
    pub synced : el.connected ≡ true → Agree zero parse_int parse_float el.attributes el.props defs
    pub idle : el.connected ≡ false → (el.dispose ≡ none) × (el.cleanups ≡ [])

  connected-IsFaithful :
      (el el' : Element Number)
      → IsDistinct (names zero parse_int parse_float defs)
      → IsFaithful el
      → connected_callback zero parse_int parse_float defs mode template setup el ≡ some el'
      → IsFaithful el'
  unfolding connected_callback
  connected-IsFaithful el el' distinct h q =
      let props = sync_attributes zero parse_int parse_float el.attributes el.props defs in
      elim (Option-cases (set_up_root zero parse_int parse_float mode template props el.root)) [
        | inl p ↦ ground (arith, p)
        | inr (root, p) ↦
            let news : el'.props ≡ props = ground (arith, p) in
            let old : el'.attributes ≡ el.attributes = ground (arith, p) in
            record {
              once = ground (arith, p, h.once);
              all =
                  subst (λ x. HasAll zero parse_int parse_float x defs) (sym news)
                    (HasAll-sync_attributes zero parse_int parse_float el.attributes el.props defs
                      defs h.all);
              synced = λ on.
                  subst (λ a. Agree zero parse_int parse_float a el'.props defs) (sym old)
                    (subst (λ x. Agree zero parse_int parse_float el.attributes x defs) (sym news)
                      (Agree-sync_attributes zero parse_int parse_float el.attributes el.props defs
                        h.all distinct));
              idle = λ off. ground (arith, p);
            }
      ]

  change-IsDistinct :
      (attributes : List (Text × Text)) (name : Text) (value : Option Text)
      → IsDistinct (keys attributes)
      → IsDistinct (keys (change_attribute zero parse_int parse_float attributes name value))
  change-IsDistinct attributes name none h = IsDistinct-keys-delete attributes name h
  change-IsDistinct attributes name (some value) h = put-IsDistinct attributes name value h

  abbrev changed : Element Number → Text → Option Text → Element Number
  changed el name value = record el {
    attributes = change_attribute zero parse_int parse_float el.attributes name value;
  }

  abbrev changed_to : Element Number → Text → Option Text → AttrDef Number → Element Number
  changed_to el name value def = record (changed el name value) {
    props = set_prop zero parse_int parse_float el.props value def;
  }

  changed-IsFaithful :
      (el : Element Number) (name : Text) (value : Option Text) (o : Option (AttrDef Number))
      → IsDistinct (names zero parse_int parse_float defs)
      → IsFaithful el
      → find_def zero parse_int parse_float defs name ≡ o
      → IsFaithful (changed_prop zero parse_int parse_float (changed el name value) value o)
  changed-IsFaithful el name value none distinct h p = record {
    once = change-IsDistinct el.attributes name value h.once;
    all = h.all;
    synced = λ on.
        Agree-unobserved zero parse_int parse_float el.attributes el.props value defs name p
          (h.synced on);
    idle = h.idle;
  }
  changed-IsFaithful el name value (some def) distinct h p = elim (Bool-cases el.connected) [
    | inl on ↦
        subst (λ b. IsFaithful (if b then changed_to el name value def else changed el name value))
          (sym on)
          (record {
            once = change-IsDistinct el.attributes name value h.once;
            all = HasAll-set_prop zero parse_int parse_float el.props value def defs h.all;
            synced = λ _.
                Agree-changed zero parse_int parse_float el.attributes el.props value defs name def
                  h.once distinct h.all p (h.synced on);
            idle = h.idle;
          })
    | inr off ↦
        subst (λ b. IsFaithful (if b then changed_to el name value def else changed el name value))
          (sym off)
          (record {
            once = change-IsDistinct el.attributes name value h.once;
            all = h.all;
            synced = λ on. cc;
            idle = h.idle;
          })
  ]

  disconnected-IsFaithful :
      (el : Element Number)
      → IsFaithful el
      → IsFaithful (disconnected_callback zero parse_int parse_float el)
  unfolding disconnected_callback
  disconnected-IsFaithful el h = record {
    once = h.once;
    all = h.all;
    synced = λ on. cc;
    idle = λ off. (refl, refl);
  }

  -- For attributes of distinct names, over every sequence of connections that do not throw,
  -- disconnections and changes of attributes: while the element is connected, each property has
  -- the value to which `parseAttr` turns the present state of its attribute, and while it is not,
  -- no dispose function or cleanup of an earlier `setup` is left to be called.
  pub Reach-IsFaithful :
      {el : Element Number}
      → IsDistinct (names zero parse_int parse_float defs)
      → Reach el
      → IsFaithful el
  unfolding construct set_attribute
  Reach-IsFaithful distinct (start attributes root once) = record {
    once = once;
    all = HasAll-initial_props zero parse_int parse_float [] defs;
    synced = λ on. cc;
    idle = λ off. (refl, refl);
  }
  Reach-IsFaithful distinct (later r (connected q)) =
      connected-IsFaithful _ _ distinct (Reach-IsFaithful distinct r) q
  Reach-IsFaithful distinct (later r disconnected) =
      disconnected-IsFaithful _ (Reach-IsFaithful distinct r)
  Reach-IsFaithful distinct (later r (attribute_set name value)) =
      changed-IsFaithful _ name value (find_def zero parse_int parse_float defs name) distinct
        (Reach-IsFaithful distinct r) refl
