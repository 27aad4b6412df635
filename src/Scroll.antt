-- ===== src/Scroll.antt =====
-- `ScrollManager` of js/loader/src/router/scroll.ts. `sessionStorage` and `JSON` on positions are
-- parameters; an operation of the storage that throws is `none`. Scrolling itself is the browser's.
pub mod Eviction
pub mod Persistence
pub mod Reload
use luna_mbt.Js.Entries.{get, put, delete, keys}
use luna_mbt.Js.Text.{is_empty, starts_with}
use luna_mbt.Prelude.{
  ℕ, ◌-◌, Bool, true, false, Option, none, some, List, [], ◌∷◌, ◌++◌, Text, text_eq, ltb,
  if◌then◌else◌, length, take, drop, filter,
}

pub record Storage (Store : Type 0) : Type 0 where
  pub key_list : Store → Option (List Text)
  pub get_item : Store → Text → Option Text
  pub set_item : Store → Text → Text → Option Store
  pub remove_item : Store → Text → Option Store

pub record Codec (Position : Type 0) : Type 0 where
  pub stringify : Position → Text
  -- `none` if `JSON.parse` throws or a coordinate is no number
  pub parse : Text → Option Position

pub record Options : Type 0 where
  pub storage_prefix : Text
  pub use_storage : Bool
  pub max_entries : ℕ

pub record ScrollManager (Store Position : Type 0) : Type 0 where
  pub options : Options
  pub positions : List (Text × Position)
  pub storage : Store

abbrev pub or_same {ℓ} : {A : Type ℓ} → A → Option A → A
or_same a none = a
or_same a (some b) = b

module _ {Store Position : Type 0} (io : Storage Store) (json : Codec Position) where
  -- One round of the loop of `loadFromStorage`.
  unfoldable pub load_key : Text → Store → List (Text × Position) → Text → List (Text × Position)
  load_key prefix storage positions key = elim (io.get_item storage key) [
    | none ↦ positions
    | some value ↦ if is_empty value then positions else elim (json.parse value) [
      | none ↦ positions
      | some position ↦ put positions (drop (length prefix) key) position
    ]
  ]

  unfoldable pub load_keys :
      Text → Store → List (Text × Position) → List Text → List (Text × Position)
  unfolding load_key
  load_keys prefix storage positions [] = positions
  load_keys prefix storage positions (key ∷ rest) =
      load_keys prefix storage (load_key prefix storage positions key) rest

  -- `loadFromStorage`
  unfoldable pub load_from_storage : Options → Store → List (Text × Position)
  unfolding load_keys
  load_from_storage o storage = elim (io.key_list storage) [
    | none ↦ []
    | some found ↦
        load_keys o.storage_prefix storage [] (filter (λ k. starts_with k o.storage_prefix) found)
  ]

  -- The constructor.
  unfoldable pub construct : Options → Store → ScrollManager Store Position
  unfolding load_from_storage
  construct o storage = record {
    options = o;
    positions = if o.use_storage then load_from_storage o storage else [];
    storage = storage;
  }

  -- `saveToStorage`
  unfoldable pub save_to_storage : Options → Store → Text → Position → Store
  save_to_storage o storage path position =
      or_same storage (io.set_item storage (o.storage_prefix ++ path) (json.stringify position))

  -- The loop of `cleanup` over the entries to remove.
  unfoldable pub remove_entries :
      List (Text × Position) → ScrollManager Store Position → ScrollManager Store Position
  remove_entries [] m = m
  remove_entries ((path, _) ∷ rest) m =
      let storage' =
        or_same m.storage (io.remove_item m.storage (m.options.storage_prefix ++ path)) in
      remove_entries rest (record m {
        positions = delete m.positions path;
        storage = if m.options.use_storage then storage' else m.storage;
      })

  -- `cleanup`
  unfoldable pub cleanup : ScrollManager Store Position → ScrollManager Store Position
  unfolding remove_entries
  cleanup m = remove_entries (take (length m.positions - m.options.max_entries) m.positions) m

  -- The first half of `save`: the position is set, and stored if the options say so.
  unfoldable pub record_position :
      Text → Position → ScrollManager Store Position → ScrollManager Store Position
  unfolding save_to_storage
  record_position path position m =
      let storage' = save_to_storage m.options m.storage path position in
      record m {
        positions = put m.positions path position;
        storage = if m.options.use_storage then storage' else m.storage;
      }

  -- `save`, at the scroll position `position` of the window
  unfoldable pub save :
      Text → Position → ScrollManager Store Position → ScrollManager Store Position
  save path position m =
      let m' = record_position path position m in
      if ltb m.options.max_entries (length m'.positions) then cleanup m' else m'

  -- The loop of `clearStorage`, which a throwing `removeItem` ends.
  unfoldable pub remove_items : List Text → Store → Store
  remove_items [] storage = storage
  remove_items (key ∷ rest) storage = elim (io.remove_item storage key) [
    | none ↦ storage
    | some storage' ↦ remove_items rest storage'
  ]

  -- `clearStorage`
  unfoldable pub clear_storage : Options → Store → Store
  unfolding remove_items
  clear_storage o storage = elim (io.key_list storage) [
    | none ↦ storage
    | some found ↦ remove_items (filter (λ k. starts_with k o.storage_prefix) found) storage
  ]

  -- `clear`
  unfoldable pub clear : ScrollManager Store Position → ScrollManager Store Position
  unfolding clear_storage
  clear m = record m {
    positions = [];
    storage = if m.options.use_storage then clear_storage m.options m.storage else m.storage;
  }

module _ {Store Position : Type 0} where
  -- `get`
  unfoldable pub position_of : ScrollManager Store Position → Text → Option Position
  position_of m path = get m.positions path

  -- `restore`: the position to scroll to, if there is one
  unfoldable pub restore : ScrollManager Store Position → Text → Option Position × Bool
  restore m path = elim (get m.positions path) [
    | none ↦ (none, false)
    | some position ↦ (some position, true)
  ]
