-- ===== src/Ssr/Parts.antt =====
-- The parts of js/wcssr/src/parts.ts on one parent node: its children are a list. Elements and
-- markers have numbers as their identity. `parseTemplate` is not modelled.
pub mod Attribute
pub mod Commit
pub mod Markers
use luna_mbt.Js.Entries.{put}
use luna_mbt.Js.Text.{js, starts_with}
use luna_mbt.Prelude.{
  ℕ, Bool, true, false, not, ◌&&◌, Option, none, some, List, [], ◌∷◌, ◌++◌, Text, text_eq, Eq, ◌==◌,
  nat_beq, nat_eq, length, take, drop, ◌-◌, if◌then◌else◌,
}

-- A child: a text, a comment, or another node.
pub data Node : Type 0 where
  text : Text → Node
  comment : ℕ → Text → Node
  element : ℕ → Node

-- What `value` can be; a number is its printed form. Arrays and document fragments have an identity
-- and the nodes that they hold; the items of an array that are no nodes are texts here. A node has its number.
pub data Value : Type 0 where
  undefined null : Value
  flag : Bool → Value
  string number : Text → Value
  node : ℕ → Value
  array fragment : ℕ → List Node → Value

abbrev same_node : Node → Node → Bool
same_node (comment a s) (comment b t) = nat_beq a b
same_node (element a) (element b) = nat_beq a b
same_node _ _ = false

abbrev bool_beq : Bool → Bool → Bool
bool_beq true b = b
bool_beq false b = not b

-- `===`: the number that is no number is not itself.
unfoldable pub same_value : Value → Value → Bool
same_value undefined undefined = true
same_value null null = true
same_value (flag a) (flag b) = bool_beq a b
same_value (string a) (string b) = a == b
same_value (number a) (number b) = a == b && not (a == js "NaN")
same_value (node a) (node b) = nat_beq a b
same_value (array a xs) (array b ys) = nat_beq a b
same_value (fragment a xs) (fragment b ys) = nat_beq a b
same_value _ _ = false

-- `String(value)` of what is no object
abbrev pub printed : Value → Text
printed undefined = js "undefined"
printed null = js "null"
printed (flag true) = js "true"
printed (flag false) = js "false"
printed (string s) = s
printed (number s) = s
printed _ = []

abbrev pub is_marker : ℕ → Node → Bool
is_marker m (comment a s) = nat_beq a m
is_marker m _ = false

-- A child node part: its markers, its value, and the value that was committed last; the flag tells
-- a `ChildNodePartFromMarkers`.
pub record Part : Type 0 where
  pub from_markers : Bool
  pub start_marker : ℕ
  pub end_marker : ℕ
  pub value : Value
  pub committed : Value

-- The siblings from the end marker on.
unfoldable pub from_marker : ℕ → List Node → List Node
from_marker m [] = []
from_marker m (c ∷ cs) = if is_marker m c then c ∷ cs else from_marker m cs

unfoldable pub until_marker : ℕ → List Node → List Node
until_marker m [] = []
until_marker m (c ∷ cs) = if is_marker m c then [] else c ∷ until_marker m cs

-- `clearContent`: what stands behind the start marker goes, up to the end marker.
unfoldable pub clear_content : ℕ → ℕ → List Node → List Node
unfolding from_marker
clear_content s e [] = []
clear_content s e (c ∷ cs) =
    if is_marker s c then c ∷ from_marker e cs else c ∷ clear_content s e cs

-- `getCurrentContent`: the nodes between the markers (their clones, in the source).
unfoldable pub current_content : ℕ → ℕ → List Node → List Node
unfolding until_marker
current_content s e [] = []
current_content s e (c ∷ cs) = if is_marker s c then until_marker e cs else current_content s e cs

-- A node that is a child already is moved by an insertion.
unfoldable pub remove_node : Node → List Node → List Node
remove_node n [] = []
remove_node n (c ∷ cs) = if same_node n c then cs else c ∷ remove_node n cs

-- The place before a marker; `none` is the exception where it is no child.
unfoldable pub place_before : ℕ → Node → List Node → Option (List Node)
place_before m n [] = none
place_before m n (c ∷ cs) =
    if is_marker m c
    then some (n ∷ c ∷ cs)
    else elim (place_before m n cs) [ none ↦ none | some ds ↦ some (c ∷ ds) ]

-- `insertBefore(n, endMarker)`
unfoldable pub insert_before : ℕ → Node → List Node → Option (List Node)
unfolding remove_node place_before
insert_before m n cs = place_before m n (remove_node n cs)

-- The loop over the items of an array, and the insertion of a fragment.
unfoldable pub insert_all : ℕ → List Node → List Node → Option (List Node)
unfolding insert_before
insert_all m [] cs = some cs
insert_all m (n ∷ ns) cs = elim (insert_before m n cs) [
  | none ↦ none
  | some ds ↦ insert_all m ns ds
]

-- The nodes that a `commit` inserts for a value. An array is one text, its `String`, for a part that
-- was made from its markers.
abbrev pub nodes_of : (List Node → Text) → Bool → Value → List Node
nodes_of print_array from_markers undefined = []
nodes_of print_array from_markers null = []
nodes_of print_array from_markers (node a) = element a ∷ []
nodes_of print_array from_markers (array a ns) =
    if from_markers then text (print_array ns) ∷ [] else ns
nodes_of print_array from_markers (fragment a ns) = ns
nodes_of print_array from_markers v = text (printed v) ∷ []

abbrev commit_as : List Node → Part → Option (List Node) → Option (List Node × Part)
commit_as cs p none = none
commit_as cs p (some ds) = some (ds, record p { committed = p.value })

module _ (print_array : List Node → Text) where
  -- `commit` of both classes
  unfoldable pub commit : Part → List Node → Option (List Node × Part)
  unfolding same_value clear_content insert_all
  commit p cs =
      if same_value p.value p.committed
      then some (cs, p)
      else commit_as cs p (
          insert_all p.end_marker (nodes_of print_array p.from_markers p.value)
            (clear_content p.start_marker p.end_marker cs))

  -- `PartGroup.commit`, of child node parts of one parent
  unfoldable pub commit_all : List Part → List Node → Option (List Node × List Part)
  unfolding commit
  commit_all [] cs = some (cs, [])
  commit_all (p ∷ ps) cs = elim (commit p cs) [
    | none ↦ none
    | some (ds, p') ↦ elim (commit_all ps ds) [ none ↦ none | some (es, ps') ↦ some (es, p' ∷ ps') ]
  ]

-- `hydratePartsFromElement`, on the children of one node: a comment that starts with two braces is a
-- start marker, and the second sibling behind it is its end marker if it is a comment.
abbrev pub end_marker_of : List Node → Option ℕ
end_marker_of (n ∷ comment e t ∷ cs) = some e
end_marker_of _ = none

-- `data.slice(2, -2)`
unfoldable pub marker_name : Text → Text
marker_name t = drop 2 (take (length t - 2) t)

abbrev text_of : Node → Text
text_of (text t) = t
text_of _ = []

-- `getCurrentTextContent` of the part
unfoldable pub text_content : List Node → Text
text_content [] = []
text_content (c ∷ cs) = text_of c ++ text_content cs

abbrev pub part_of : ℕ → Option ℕ → List Node → Option Part
part_of s none cs = none
part_of s (some e) cs =
    let content = string (text_content (until_marker e cs)) in
    some (record {
      from_markers = true;
      start_marker = s;
      end_marker = e;
      value = content;
      committed = content;
    })

abbrev kept : List (Text × Part) → Text → Option Part → List (Text × Part)
kept parts name none = parts
kept parts name (some p) = put parts name p

unfoldable pub hydrate_parts : List (Text × Part) → List Node → List (Text × Part)
unfolding marker_name text_content until_marker
hydrate_parts parts [] = parts
hydrate_parts parts (text t ∷ cs) = hydrate_parts parts cs
hydrate_parts parts (element a ∷ cs) = hydrate_parts parts cs
hydrate_parts parts (comment s t ∷ cs) =
    hydrate_parts
      (if starts_with t (js "{{")
        then kept parts (marker_name t) (part_of s (end_marker_of cs) cs)
        else parts)
      cs
