-- ===== src/Luna/Store.antt =====
-- `createStore` of js/luna/src/index.ts. The signals of the runtime are a map of their values.
pub mod Written
pub mod Above
pub mod Joined
pub mod Fresh
use luna_mbt.Js.Entries.{has, put}
use luna_mbt.Js.Text.{js, join, split, starts_with}
use luna_mbt.Luna.Heap.{
  Value, ref, string, Heap, Object, object_at, alloc, empty_object, empty_array, all_digits,
  is_nullish, get_key, put_key,
}
use luna_mbt.Prelude.{
  ℕ, Bool, true, false, not, ◌&&◌, ◌||◌, Option, none, some, List, [], ◌∷◌, ◌++◌, Text, text_eq,
  ◌==◌, if◌then◌else◌,
}

-- `getValueAtPath`
unfoldable pub get_value_at_path : Heap → Value → List Text → Value
unfolding get_key
get_value_at_path h v [] = v
get_value_at_path h v (k ∷ ks) =
    let rest = get_value_at_path h (get_key h v k) ks in
    if is_nullish v then Value.undefined else rest

-- `/^\d+$/.test(key)`
abbrev pub is_digits : Text → Bool
unfolding all_digits
is_digits [] = false
is_digits (c ∷ s) = all_digits (c ∷ s)

-- The object or the array that is put where there is none, by the next key.
abbrev pub container : Text → Object
container next = if is_digits next then empty_array else empty_object

-- `setValueAtPath`, on the heap; `none` where it throws.
unfoldable pub set_value_at_path : Heap → Value → List Text → Value → Option Heap
unfolding get_key put_key
set_value_at_path h current [] v = some h
set_value_at_path h current (k ∷ []) v = put_key h current k v
set_value_at_path h current (k ∷ next ∷ ks) v =
    let (h', a) = alloc h (container next) in
    elim (is_nullish (get_key h current k)) [
      | false ↦ set_value_at_path h (get_key h current k) (next ∷ ks) v
      | true ↦ elim (put_key h' current k (ref a)) [
        | none ↦ none
        | some h'' ↦ set_value_at_path h'' (ref a) (next ∷ ks) v
      ]
    ]

-- The heap with the store, the signals in the order of their creation, and a log of the keys that were
-- set.
pub record Store : Type 0 where
  pub heap : Heap
  pub store : ℕ
  pub signals : List (Text × Value)
  pub notified : List Text

-- `structuredClone` is the caller's: the store is the clone, with what it shares within itself.
unfoldable pub create_store : Heap → ℕ → Store
create_store h clone = record { heap = h; store = clone; signals = []; notified = [] }

abbrev pub key_of : List Text → Text
key_of path = join (js ".") path

-- `getSignal`
unfoldable pub get_signal : Store → List Text → Store
unfolding get_value_at_path
get_signal s path = if has s.signals (key_of path) then s else record s {
  signals = put s.signals (key_of path) (get_value_at_path s.heap (ref s.store) path);
}

-- The getters of the proxies, from the store's own on: a signal for each path on the way.
unfoldable pub read : Store → List Text → List Text → Store
unfolding get_signal
read s path [] = s
read s path (k ∷ ks) = read (get_signal s (path ++ k ∷ [])) (path ++ k ∷ []) ks

-- The test of `notifyPath`
unfoldable pub covers : Text → Text → Bool
covers path_str key = (key == path_str) || starts_with key (path_str ++ js ".")

-- The loop over the signals, for those that `test` admits.
unfoldable pub set_signals :
    (Text → Bool) → Heap → Value → List (Text × Value) → List (Text × Value)
unfolding get_value_at_path
set_signals test h store [] = []
set_signals test h store ((key, v) ∷ signals) =
    (key, if test key then get_value_at_path h store (split b'.' key) else v)
    ∷ set_signals test h store signals

unfoldable pub admitted : (Text → Bool) → List (Text × Value) → List Text
admitted test [] = []
admitted test ((key, v) ∷ signals) =
    if test key then key ∷ admitted test signals else admitted test signals

abbrev pub notify : Store → (Text → Bool) → Heap → Store
notify s test h = record s {
  heap = h;
  signals = set_signals test h (ref s.store) s.signals;
  notified = s.notified ++ admitted test s.signals;
}

-- The arguments of `setState`: texts, other values, and functions, which may also change objects.
pub data Arg : Type 0 where
  key : Text → Arg
  value : Value → Arg
  updater : (Heap → Value → Heap × Value) → Arg

-- The path and the value or updater; what follows the first argument that is no text is not read.
unfoldable pub parse_args : List Arg → Option (List Text × Arg)
parse_args [] = none
parse_args (a ∷ []) = some ([], a)
parse_args (key k ∷ a ∷ as') = elim (parse_args (a ∷ as')) [
  | none ↦ none
  | some (path, last) ↦ some (k ∷ path, last)
]
parse_args (a ∷ b ∷ as') = some ([], a)

-- `{ ...a, ...b }`: a new object with the fields of both.
unfoldable pub spread : List (Text × Value) → List (Text × Value) → List (Text × Value)
spread fields [] = fields
spread fields ((k, v) ∷ more) = spread (put fields k v) more

abbrev pub spread_in : Heap → Option Object → Option Object → Value → Heap × Value
unfolding spread
spread_in h (some current) (some given) v =
    if not current.is_array && not given.is_array
    then (let (h', a) =
          alloc h
            (record empty_object { fields = spread (spread [] current.fields) given.fields }) in
        (h', ref a))
    else (h, v)
spread_in h _ _ v = (h, v)

abbrev pub target : Heap → Value → Option Object
unfolding object_at
target h (ref a) = object_at h a
target h v = none

-- The merge of objects, but not of arrays or into one; all else is replaced.
abbrev pub new_value : Heap → Value → Arg → Heap × Value
new_value h current (key k) = (h, string k)
new_value h current (value v) = spread_in h (target h current) (target h v) v
new_value h current (updater f) = f h current

abbrev pub notified_at : Store → List Text → Option Heap → Option Store
notified_at s path none = none
notified_at s path (some h) = some (notify s (covers (key_of path)) h)

-- An update at a path, also the empty one: `setValueAtPath` and `notifyPath`.
unfoldable pub update_at : Store → List Text → Arg → Option Store
unfolding set_value_at_path get_value_at_path covers spread
update_at s path a =
    let (h, v) = new_value s.heap (get_value_at_path s.heap (ref s.store) path) a in
    notified_at s path (set_value_at_path h (ref s.store) path v)

-- `Object.assign(store, value)`
unfoldable pub assign_all : Heap → ℕ → List (Text × Value) → Option Heap
unfolding put_key
assign_all h a [] = some h
assign_all h a ((k, v) ∷ fields) = elim (put_key h (ref a) k v) [
  | none ↦ none
  | some h' ↦ assign_all h' a fields
]

abbrev assigned : Store → Option Object → Option Heap
unfolding assign_all
assigned s none = some s.heap
assigned s (some o) = assign_all s.heap s.store o.fields

abbrev all_notified : Store → Option Heap → Option Store
all_notified s none = none
all_notified s (some h) = some (notify s (λ key. true) h)

-- An update without a path: an object is assigned to the store, and all signals are set.
unfoldable pub set_root : Store → Arg → Option Store
unfolding object_at set_signals admitted update_at assign_all
set_root s (value (ref b)) = all_notified s (assigned s (object_at s.heap b))
set_root s a = update_at s [] a

abbrev pub set_at : Store → Option (List Text × Arg) → Option Store
unfolding set_root update_at
set_at s none = some s
set_at s (some ([], a)) = set_root s a
set_at s (some (k ∷ ks, a)) = update_at s (k ∷ ks) a

-- `setState`
unfoldable pub set_state : Store → List Arg → Option Store
unfolding parse_args set_at
set_state s args = set_at s (parse_args args)

-- The setter of the proxy that was made for the object `target` at a path: `obj[prop] = value`.
unfoldable pub assign : Store → Value → List Text → Text → Value → Option Store
unfolding put_key covers set_signals admitted
assign s target path prop v = notified_at s (path ++ prop ∷ []) (put_key s.heap target prop v)
