-- ===== src/Wcr/Define.antt =====
-- `defineComponent` of js/wcr/src/define.ts: attributes and the callbacks of an element. Numbers,
-- `parseInt` and `parseFloat` are parameters (`none` is NaN). A property's signal is its value. The
-- `setup` function is a parameter too: it gives the function that it returns and those that it
-- registers by `onCleanup`, by their names, and writes no property. Names of attributes are compared
-- as they are written.
pub mod Synced
pub mod Life
pub mod Runs
pub mod Defects
use luna_mbt.Js.Entries.{get, has, put, delete}
use luna_mbt.Js.Text.{js}
use luna_mbt.Prelude.{
  Bool, ◌&&◌, not, true, false, Option, none, some, List, [], ◌∷◌, ◌++◌, Text, text_eq, Eq, ◌==◌,
  if◌then◌else◌,
}

pub data AttrType : Type 0 where
  string int float bool : AttrType

pub data Shadow : Type 0 where
  open_root closed_root no_root : Shadow

pub data Value (Number : Type 0) : Type 0 where
  text : Text → Value Number
  number : Number → Value Number
  flag : Bool → Value Number

pub record AttrDef (Number : Type 0) : Type 0 where
  pub name : Text
  pub kind : AttrType
  pub default : Option (Value Number)

-- A shadow root: whether it is open, whether it comes from the markup and was not attached since,
-- and its contents.
pub record Root : Type 0 where
  pub is_open : Bool
  pub declarative : Bool
  pub contents : Text

-- The element: its attributes and its shadow root, as the document has them, and the fields of the
-- class. `called` is a log of the functions that were called on disconnection.
pub record Element (Number : Type 0) : Type 0 where
  pub attributes : List (Text × Text)
  pub root : Option Root
  pub props : List (Text × Value Number)
  pub dispose : Option Text
  pub cleanups : List Text
  pub connected : Bool
  pub called : List Text

module _ {Number : Type 0} ⦃same : Eq Number⦄ (zero : Number)
    (parse_int parse_float : Text → Option Number) where
  abbrev pub or_default : Option (Value Number) → Value Number → Value Number
  or_default none v = v
  or_default (some d) v = d

  -- `n || (def.default ?? 0)`
  abbrev pub or_zero : Option Number → Option (Value Number) → Value Number
  or_zero none default = or_default default (number zero)
  or_zero (some n) default = if n == zero then or_default default (number zero) else number n

  -- The value of an attribute that is not there.
  abbrev missing : AttrType → Option (Value Number) → Value Number
  missing bool default = flag false
  missing string default = or_default default (text [])
  missing int default = or_default default (number zero)
  missing float default = or_default default (number zero)

  abbrev present : AttrType → Option (Value Number) → Text → Value Number
  present string default value = text value
  present int default value = or_zero (parse_int value) default
  present float default value = or_zero (parse_float value) default
  present bool default value = flag true

  -- `parseAttr`
  unfoldable pub parse_attr : Option Text → AttrDef Number → Value Number
  parse_attr none def = missing def.kind def.default
  parse_attr (some value) def = present def.kind def.default value

  abbrev pub initial_props :
      List (Text × Value Number) → List (AttrDef Number) → List (Text × Value Number)
  initial_props props [] = props
  initial_props props (def ∷ defs) = initial_props (put props def.name (parse_attr none def)) defs

  -- The constructor, on an element with these attributes and this shadow root.
  unfoldable pub construct :
      List (AttrDef Number) → List (Text × Text) → Option Root → Element Number
  construct defs attributes root = record {
    attributes = attributes;
    root = root;
    props = initial_props [] defs;
    dispose = none;
    cleanups = [];
    connected = false;
    called = [];
  }

  -- `signal.set(parseAttr(value, attr))`, if the property is there
  unfoldable pub set_prop :
      List (Text × Value Number) → Option Text → AttrDef Number → List (Text × Value Number)
  set_prop props value def =
      if has props def.name then put props def.name (parse_attr value def) else props

  abbrev pub attribute_of : List (Text × Text) → AttrDef Number → Option Text
  attribute_of attributes def = elim def.kind [
    | bool ↦ if has attributes def.name then some [] else none
    | _ ↦ get attributes def.name
  ]

  -- `#syncAttributes`
  unfoldable pub sync_attributes :
      List (Text × Text)
      → List (Text × Value Number)
      → List (AttrDef Number)
      → List (Text × Value Number)
  unfolding set_prop
  sync_attributes attributes props [] = props
  sync_attributes attributes props (def ∷ defs) =
      sync_attributes attributes (set_prop props (attribute_of attributes def) def) defs

  -- `attachShadow`, which throws (`none`) on an element that has a shadow root, unless it comes from
  -- the markup and has the same mode; and the contents from the template, if there is one.
  abbrev pub attach : Bool → Text → Option Root → Option (Option Root)
  attach is_open contents none =
      some (some (record { is_open = is_open; declarative = false; contents = contents }))
  attach is_open contents (some root) =
      if root.declarative && not root.is_open && not is_open
      then some (some (record { is_open = false; declarative = false; contents = contents }))
      else none

  abbrev is_visible : Option Root → Bool
  is_visible none = false
  is_visible (some root) = root.is_open

  abbrev rendered : Option (List (Text × Value Number) → Text) → List (Text × Value Number) → Text
  rendered none props = []
  rendered (some template) props = template props

  -- The set-up of the shadow root; `this.shadowRoot` is there if it is open.
  unfoldable pub set_up_root :
      Shadow
      → Option (List (Text × Value Number) → Text)
      → List (Text × Value Number)
      → Option Root
      → Option (Option Root)
  set_up_root no_root template props root = some root
  set_up_root open_root template props root =
      if is_visible root then some root else attach true (rendered template props) root
  set_up_root closed_root template props root =
      if is_visible root then some root else attach false (rendered template props) root

  -- `connectedCallback`; `none` where it throws
  unfoldable pub connected_callback :
      List (AttrDef Number)
      → Shadow
      → Option (List (Text × Value Number) → Text)
      → (List (Text × Value Number) → Option Text × List Text)
      → Element Number
      → Option (Element Number)
  unfolding sync_attributes set_up_root
  connected_callback defs mode template setup el =
      let props = sync_attributes el.attributes el.props defs in
      elim (set_up_root mode template props el.root) [
        | none ↦ none
        | some root ↦
            let (returned, registered) = setup props in
            some (record el {
              connected = true;
              props = props;
              root = root;
              dispose = elim returned [ none ↦ el.dispose | some f ↦ some f ];
              cleanups = el.cleanups ++ registered;
            })
      ]

  abbrev called_first : Option Text → List Text
  called_first none = []
  called_first (some f) = f ∷ []

  -- `disconnectedCallback`
  unfoldable pub disconnected_callback : Element Number → Element Number
  disconnected_callback el = record el {
    connected = false;
    dispose = none;
    cleanups = [];
    called = el.called ++ (called_first el.dispose ++ el.cleanups);
  }

  abbrev pub find_def : List (AttrDef Number) → Text → Option (AttrDef Number)
  find_def [] name = none
  find_def (def ∷ defs) name = if def.name == name then some def else find_def defs name

  abbrev pub changed_prop : Element Number → Option Text → Option (AttrDef Number) → Element Number
  changed_prop el value none = el
  changed_prop el value (some def) =
      if el.connected then record el { props = set_prop el.props value def } else el

  -- `attributeChangedCallback`
  unfoldable pub attribute_changed :
      List (AttrDef Number) → Element Number → Text → Option Text → Element Number
  attribute_changed defs el name value = changed_prop el value (find_def defs name)

  -- What the document does with an attribute: it sets or removes it, then calls the callback if the
  -- attribute is observed.
  abbrev pub change_attribute : List (Text × Text) → Text → Option Text → List (Text × Text)
  change_attribute attributes name none = delete attributes name
  change_attribute attributes name (some value) = put attributes name value

  unfoldable pub set_attribute :
      List (AttrDef Number) → Element Number → Text → Option Text → Element Number
  unfolding attribute_changed
  set_attribute defs el name value =
      attribute_changed defs (record el { attributes = change_attribute el.attributes name value })
        name value
