-- ===== src/Luna/Heap.antt =====
-- The objects and arrays on which js/luna/src/index.ts works: they live at addresses, so that two
-- fields can hold the same one. Properties that come from a prototype are not modelled.
pub mod Objects
use luna_mbt.Js.Entries.{get, put}
use luna_mbt.Js.Text.{js}
use luna_mbt.Prelude.{
  ℕ, zero, suc, ◌||◌, ◌+◌, ◌*◌, ◌-◌, max, Bool, true, false, not, ◌&&◌, Option, none, some, List,
  [], ◌∷◌, ◌++◌, filter, length, Text, text_eq, nat_beq, ◌==◌, leb, ltb, if◌then◌else◌,
}

-- Values: natural numbers are apart from the other ones, which are their printed forms; an object or
-- an array is its address.
pub data Value : Type 0 where
  undefined null : Value
  flag : Bool → Value
  string : Text → Value
  natural : ℕ → Value
  number : Text → Value
  ref : ℕ → Value

pub record Object : Type 0 where
  pub is_array : Bool
  -- that of an array
  pub size : ℕ
  pub fields : List (Text × Value)

-- `current == null`
abbrev pub is_nullish : Value → Bool
is_nullish undefined = true
is_nullish null = true
is_nullish _ = false

-- The objects at the addresses from zero on.
abbrev pub Heap : Type 0
Heap = List Object

unfoldable pub object_at : Heap → ℕ → Option Object
object_at [] a = none
object_at (o ∷ h) zero = some o
object_at (o ∷ h) (suc a) = object_at h a

unfoldable pub write_at : Heap → ℕ → Object → Heap
write_at [] a o = []
write_at (p ∷ h) zero o = o ∷ h
write_at (p ∷ h) (suc a) o = p ∷ write_at h a o

-- A new object and its address
abbrev pub alloc : Heap → Object → Heap × ℕ
alloc h o = (h ++ o ∷ [], length h)

abbrev pub empty_object : Object
empty_object = record { is_array = false; size = 0; fields = [] }

abbrev pub empty_array : Object
empty_array = record { is_array = true; size = 0; fields = [] }

unfoldable pub all_digits : Text → Bool
all_digits [] = true
all_digits (c ∷ s) = leb b'0' c && leb c b'9' && all_digits s

unfoldable pub value_of_digits : ℕ → Text → ℕ
value_of_digits n [] = n
value_of_digits n (c ∷ s) = value_of_digits (10 * n + (c - b'0')) s

-- The index that a key is: a decimal numeral without leading zeros, below 2^32 - 1.
unfoldable pub index_of : Text → Option ℕ
unfolding all_digits value_of_digits
index_of [] = none
index_of (c ∷ s) =
    let n = value_of_digits 0 (c ∷ s) in
    if all_digits (c ∷ s) && (not (nat_beq c b'0') || nat_beq (length s) 0) && ltb n 4294967295
    then some n
    else none

abbrev pub or_undefined : Option Value → Value
or_undefined none = undefined
or_undefined (some v) = v

abbrev pub field_of : Object → Text → Value
field_of o k =
    if o.is_array && (k == js "length") then natural o.size else or_undefined (get o.fields k)

unfoldable pub char_at : Text → ℕ → Value
char_at [] n = undefined
char_at (c ∷ s) zero = string (c ∷ [])
char_at (c ∷ s) (suc n) = char_at s n

abbrev pub char_of : Text → Option ℕ → Value
char_of s none = undefined
char_of s (some n) = char_at s n

abbrev pub field_at : Option Object → Text → Value
field_at none k = undefined
field_at (some o) k = field_of o k

-- `v[k]`, where `v` is neither undefined nor null
unfoldable pub get_key : Heap → Value → Text → Value
unfolding index_of object_at char_at
get_key h (ref a) k = field_at (object_at h a) k
get_key h (string s) k = if k == js "length" then natural (length s) else char_of s (index_of k)
get_key h v k = undefined

-- The length that a value gives to an array, where it gives one. Of the texts, only those that are
-- an index or empty do so here.
abbrev pub to_length : Value → Option ℕ
unfolding index_of
to_length (natural n) = if ltb n 4294967296 then some n else none
to_length null = some 0
to_length (flag b) = some (if b then 1 else 0)
to_length (string []) = some 0
to_length (string s) = index_of s
to_length _ = none

abbrev is_within : ℕ → Text → Bool
unfolding index_of
is_within n k = elim (index_of k) [ none ↦ true | some i ↦ ltb i n ]

-- An array that is cut to a length, or made longer
abbrev resized : Object → Option ℕ → Option Object
unfolding index_of
resized o none = none
resized o (some n) =
    some (record o { size = n; fields = filter (λ (k, v). is_within n k) o.fields })

-- An index that lies beyond the end makes the array longer.
abbrev grown : ℕ → Option ℕ → ℕ
grown size none = size
grown size (some i) = max size (i + 1)

-- `o[k] = v`, which throws for a length that is none
unfoldable pub put_field : Object → Text → Value → Option Object
unfolding index_of
put_field o k v =
    if not o.is_array
    then some (record o { fields = put o.fields k v })
    else if k == js "length"
    then resized o (to_length v)
    else some (record o { size = grown o.size (index_of k); fields = put o.fields k v })

abbrev pub written : Heap → ℕ → Option Object → Option Heap
unfolding write_at
written h a none = none
written h a (some o) = some (write_at h a o)

abbrev pub put_object : Heap → ℕ → Option Object → Text → Value → Option Heap
unfolding put_field write_at
put_object h a none k v = none
put_object h a (some o) k v = written h a (put_field o k v)

-- `current[k] = v`, which throws on a primitive, as modules are strict
unfoldable pub put_key : Heap → Value → Text → Value → Option Heap
unfolding put_field object_at write_at
put_key h (ref a) k v = put_object h a (object_at h a) k v
put_key h current k v = none
