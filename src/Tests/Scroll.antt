-- ===== src/Tests/Scroll.antt =====
-- The scroll manager of js/loader/src/router/scroll.ts over a storage kept as a list.
use luna_mbt.Js.Entries.{get}
use luna_mbt.Js.Keys.{add, includes-add, add-IsDistinct}
use luna_mbt.Js.Text.{js}
use luna_mbt.Prelude.{
  ◌≡◌, ◌≢◌, ◌↔◌, refl, true, Option, none, some, List, [], ◌∷◌, ◌++◌, Text, ◌+◌, ◌-◌, arith,
  text_eq, text_beq_iff, ◌==◌, if◌then◌else◌, includes, IsDistinct, length, drop, text_beq,
}
use luna_mbt.Js.Entries.{has, keys}
use luna_mbt.Scroll.{Storage, Codec, Options, ScrollManager, construct, save, position_of}
use luna_mbt.Scroll.Eviction.{IsBounded, keys-save}
use luna_mbt.Scroll.Persistence.{IsStorage, IsCodec}
use luna_mbt.Scroll.Reload.{save-construct}

abbrev Items : Type 0
Items = List (Text × Text)

unfoldable key_list : Items → List Text
key_list [] = []
key_list ((k, v) ∷ s) = add (key_list s) k

unfoldable remove_all : Items → Text → Items
remove_all [] k = []
remove_all ((j, v) ∷ s) k = if j == k then remove_all s k else (j, v) ∷ remove_all s k

abbrev memory : Storage Items
memory = record {
  key_list = λ s. some (key_list s);
  get_item = get;
  set_item = λ s k v. some ((k, v) ∷ s);
  remove_item = λ s k. some (remove_all s k);
}

key_list-IsDistinct : (s : Items) → IsDistinct (key_list s)
unfolding key_list
key_list-IsDistinct [] = tt
key_list-IsDistinct ((k, v) ∷ s) = add-IsDistinct (key_list s) k (key_list-IsDistinct s)

includes-key_list : (s : Items) (k : Text) → (includes (key_list s) k ≡ true) ↔ (get s k ≢ none)
unfolding key_list get includes
includes-key_list [] k = ground arith
includes-key_list ((j, v) ∷ s) k =
    ground (arith, includes-add (key_list s) j k, includes-key_list s k)

get-remove_all :
    (s : Items) (k j : Text) → get (remove_all s k) j ≡ (if k == j then none else get s j)
unfolding get remove_all
get-remove_all [] k j = ground arith
get-remove_all ((i, v) ∷ s) k j =
    ground (arith, get-remove_all s k j, text_beq_iff i k, text_beq_iff i j, text_beq_iff k j)

memory-IsStorage : IsStorage memory
unfolding get
memory-IsStorage = record {
  listing = λ s. (key_list s, refl, key_list-IsDistinct s, includes-key_list s);
  get-set = λ s s' k j v e. ground arith;
  get-remove = λ s s' k j e. ground (arith, get-remove_all s k j);
}

-- A position is printed behind a letter.
abbrev parse : Text → Option Text
parse [] = none
parse (c ∷ s) = some s

abbrev json : Codec Text
json = record { stringify = λ p. b'p' ∷ p; parse = parse }

json-IsCodec : IsCodec json
json-IsCodec = record { inverse = λ p. refl; filled = λ p. refl }

abbrev options : Options
options = record { storage_prefix = js "scroll:"; use_storage = true; max_entries = 2 }

-- A full manager.
abbrev manager : ScrollManager Items Text
manager = record {
  options = options;
  positions = (js "/a", js "1") ∷ (js "/b", js "2") ∷ [];
  storage = (js "scroll:/a", js "p1") ∷ (js "scroll:/b", js "p2") ∷ [];
}

manager-IsBounded : IsBounded manager
unfolding includes text_beq
manager-IsBounded = record { fits = omega arith; distinct = (refl, (refl, tt)) }

reload_example :
    position_of
      (construct memory json options (save memory json (js "/c") (js "3") manager).storage)
      (js "/c")
    ≡ some (js "3")
reload_example =
    save-construct memory json (js "/c") (js "3") manager
      ((js "scroll:/c", js "p3") ∷ manager.storage) memory-IsStorage json-IsCodec manager-IsBounded
      (omega arith) refl refl

keys_example : keys (save memory json (js "/c") (js "3") manager).positions ≡ (
    if has manager.positions (js "/c")
    then keys manager.positions
    else drop (length manager.positions + 1 - 2) (keys manager.positions) ++ js "/c" ∷ [])
keys_example = keys-save memory json (js "/c") (js "3") manager manager-IsBounded (omega arith)
