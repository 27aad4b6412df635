-- ===== src/Tests/Store.antt =====
-- A store of js/luna/src/index.ts with three signals, and one with shared objects.
use luna_mbt.Js.Entries.{get}
use luna_mbt.Js.Text.{js}
use luna_mbt.Luna.Heap.{Value, undefined, string, natural, ref, Heap, Object, get_key, object_at}
use luna_mbt.Luna.Store.{
  get_value_at_path, set_value_at_path, Store, key_of, key, value, update_at, set_state,
  create_store,
}
use luna_mbt.Luna.Store.Above.{IsClosed}
use luna_mbt.Luna.Store.Fresh.{signals-update_at, update_at_above}
use luna_mbt.Prelude.{
  ℕ, zero, suc, ◌≡◌, ◌≢◌, ◌⊎◌, refl, some, List, [], ◌∷◌, ◌++◌, Text, text_eq, arith, true, false,
}

abbrev plain : List (Text × Value) → Object
plain fields = record { is_array = false; size = 0; fields = fields }

abbrev user_of : Text → Object
user_of name = plain ((js "name", string name) ∷ (js "age", natural 1) ∷ [])

abbrev watched : Store
watched = record {
  heap = plain ((js "user", ref 1) ∷ []) ∷ user_of (js "a") ∷ [];
  store = 0;
  signals =
      (js "user", ref 1) ∷ (js "user.name", string (js "a")) ∷ (js "user.age", natural 1) ∷ [];
  notified = [];
}

abbrev renamed : Store
renamed = record {
  heap = plain ((js "user", ref 1) ∷ []) ∷ user_of (js "b") ∷ [];
  store = 0;
  signals =
      (js "user", ref 1) ∷ (js "user.name", string (js "b")) ∷ (js "user.age", natural 1) ∷ [];
  notified = js "user.name" ∷ [];
}

covered_example :
    (((r : List Text) × (js "user" ∷ js "name" ∷ [] ≡ (js "user" ∷ js "name" ∷ []) ++ r))
      × (get renamed.signals (key_of (js "user" ∷ js "name" ∷ []))
          ≡ some (get_value_at_path renamed.heap (ref 0) (js "user" ∷ js "name" ∷ []))))
    ⊎ (((r : List Text) → js "user" ∷ js "name" ∷ [] ≢ (js "user" ∷ js "name" ∷ []) ++ r)
        × (get renamed.signals (key_of (js "user" ∷ js "name" ∷ [])) ≡ some (string (js "a"))))
unfolding update_at get luna_mbt.Prelude.text_beq luna_mbt.Js.Entries.put
    luna_mbt.Luna.Store.set_signals luna_mbt.Luna.Store.admitted luna_mbt.Js.Text.join
    luna_mbt.Js.Text.starts_with luna_mbt.Js.Text.split
covered_example =
    signals-update_at watched renamed (js "user") (js "name" ∷ []) (value (string (js "b")))
      (js "user") (js "name" ∷ []) (string (js "a")) refl (ground arith) (ground arith) refl

abbrev bare_store : Store
bare_store = record {
  heap = plain [] ∷ [];
  store = 0;
  signals = (js "user", undefined) ∷ [];
  notified = [];
}

abbrev filled_store : Store
filled_store = record {
  heap = plain ((js "user", ref 1) ∷ []) ∷ plain ((js "name", string (js "b")) ∷ []) ∷ [];
  store = 0;
  signals = (js "user", undefined) ∷ [];
  notified = [];
}

bare-IsClosed : IsClosed bare_store.heap
unfolding get_key object_at get
bare-IsClosed zero d k e = ground arith
bare-IsClosed (suc c) d k e = ground arith

above_example :
    (get filled_store.signals (key_of (js "user" ∷ [])) ≡ some undefined)
    × (get_value_at_path filled_store.heap (ref 0) (js "user" ∷ []) ≢ undefined)
unfolding update_at get get_value_at_path luna_mbt.Prelude.text_beq luna_mbt.Js.Entries.put
    luna_mbt.Luna.Store.set_signals luna_mbt.Luna.Store.admitted luna_mbt.Js.Text.join
    luna_mbt.Js.Text.starts_with
above_example =
    update_at_above bare_store filled_store (js "user") [] (js "name") [] (value (string (js "b")))
      refl bare-IsClosed (omega arith) refl refl

-- Two fields with one object change together, and a new item makes an array longer.
abbrev shared : Heap
shared =
    plain ((js "a", ref 1) ∷ (js "b", ref 1) ∷ (js "list", ref 2) ∷ [])
    ∷ plain ((js "x", natural 1) ∷ [])
    ∷ record { is_array = true; size = 1; fields = (js "0", natural 7) ∷ [] }
    ∷ []

aliased_example :
    (h : Heap) × (set_value_at_path shared (ref 0) (js "a" ∷ js "x" ∷ []) (natural 2) ≡ some h)
    × (get_value_at_path h (ref 0) (js "b" ∷ js "x" ∷ []) ≡ natural 2)
unfolding set_value_at_path get_value_at_path get luna_mbt.Prelude.text_beq luna_mbt.Js.Entries.put
    object_at
aliased_example = (
  plain ((js "a", ref 1) ∷ (js "b", ref 1) ∷ (js "list", ref 2) ∷ [])
      ∷ plain ((js "x", natural 2) ∷ [])
      ∷ record { is_array = true; size = 1; fields = (js "0", natural 7) ∷ [] }
      ∷ [],
  refl,
  refl,
)

longer_example :
    (h : Heap) × (set_value_at_path shared (ref 0) (js "list" ∷ js "1" ∷ []) (natural 8) ≡ some h)
    × (get_value_at_path h (ref 0) (js "list" ∷ js "length" ∷ []) ≡ natural 2)
unfolding set_value_at_path get_value_at_path get luna_mbt.Prelude.text_beq luna_mbt.Js.Entries.put
    object_at
longer_example = (
  plain ((js "a", ref 1) ∷ (js "b", ref 1) ∷ (js "list", ref 2) ∷ [])
      ∷ plain ((js "x", natural 1) ∷ [])
      ∷ record {
        is_array = true;
        size = 2;
        fields = (js "0", natural 7) ∷ (js "1", natural 8) ∷ [];
      }
      ∷ [],
  refl,
  refl,
)

-- What follows a number among the arguments is not read.
abbrev with_xs : Value → Heap
with_xs v = plain ((js "xs", v) ∷ []) ∷ []

number_dropped :
    set_state
      (create_store (with_xs undefined) 0)
      (key (js "xs") ∷ value (natural 0) ∷ key (js "done") ∷ [])
    ≡ some (create_store (with_xs (natural 0)) 0)
unfolding set_state create_store get luna_mbt.Prelude.text_beq luna_mbt.Js.Entries.put
number_dropped = refl
