-- ===== src/Wcr/Define/Defects.antt =====
-- A defect of js/wcr/src/define.ts, for all elements that have it.
use luna_mbt.Prelude.{◌≡◌, Option, none, some, List, arith, Text, Eq}
use luna_mbt.Wcr.Define.{
  closed_root, Value, AttrDef, Element, set_up_root, connected_callback, disconnected_callback,
}

module _ {Number : Type 0} ⦃same : Eq Number⦄ (zero : Number)
    (parse_int parse_float : Text → Option Number) where
  -- An element of a component with a closed shadow root, once connected and taken out of the
  -- document, throws when it is connected again.
  connected_callback_closed :
      (defs : List (AttrDef Number)) (template : Option (List (Text × Value Number) → Text))
      (setup : List (Text × Value Number) → Option Text × List Text) (el el' : Element Number)
      → el.root ≡ none
      → connected_callback zero parse_int parse_float defs closed_root template setup el ≡ some el'
      → connected_callback zero parse_int parse_float defs closed_root template setup
          (disconnected_callback zero parse_int parse_float el')
        ≡ none
  unfolding connected_callback disconnected_callback set_up_root
  connected_callback_closed defs template setup el el' bare q = ground (arith, bare)
