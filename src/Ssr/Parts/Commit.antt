-- ===== src/Ssr/Parts/Commit.antt =====
-- What a commit does to the children (js/wcssr/src/parts.ts).
use luna_mbt.Prelude.{
  ℕ, ◌≡◌, refl, ap, ◌∙◌, Bool, false, ◌||◌, some, List, [], ◌∷◌, ◌++◌, arith, Text, text_eq,
  nat_beq_iff, any, append_assoc, inl, inr, Bool-cases,
}
use luna_mbt.Ssr.Parts.{
  Node, comment, same_node, same_value, is_marker, Part, from_marker, clear_content, remove_node,
  place_before, insert_before, insert_all, nodes_of, commit,
}

-- The nodes can be put before the marker `e` one after the other: none of them is the marker, or is
-- there already.
abbrev pub Insertable : ℕ → List Node → List Node → List Node → Type 0
Insertable e [] before after = Unit
Insertable e (n ∷ ns) before after =
    (any (same_node n) (before ++ after) ≡ false)
    × (is_marker e n ≡ false)
    × Insertable e ns (before ++ n ∷ []) after

remove_node_absent :
    (n : Node) (cs : List Node) → any (same_node n) cs ≡ false → remove_node n cs ≡ cs
unfolding any remove_node
remove_node_absent n [] h = refl
remove_node_absent n (c ∷ cs) h = ground (arith, remove_node_absent n cs)

place_before-append :
    (e : ℕ) (n : Node) (before after : List Node) (t : Text)
    → any (is_marker e) before ≡ false
    → place_before e n (before ++ comment e t ∷ after) ≡ some (before ++ n ∷ comment e t ∷ after)
unfolding any place_before
place_before-append e n [] after t h = ground (arith, nat_beq_iff e e)
place_before-append e n (c ∷ before) after t h =
    ground (arith, place_before-append e n before after t)

any-append : (p : Node → Bool) (xs ys : List Node) → any p (xs ++ ys) ≡ (any p xs || any p ys)
unfolding any
any-append p [] ys = refl
any-append p (x ∷ xs) ys = ground (arith, any-append p xs ys)

insert_before-append :
    (e : ℕ) (n : Node) (before after : List Node) (t : Text)
    → any (is_marker e) before ≡ false
    → any (same_node n) (before ++ comment e t ∷ after) ≡ false
    → insert_before e n (before ++ comment e t ∷ after) ≡ some (before ++ n ∷ comment e t ∷ after)
unfolding insert_before
insert_before-append e n before after t h absent =
    ap (place_before e n) (remove_node_absent n (before ++ comment e t ∷ after) absent)
    ∙ place_before-append e n before after t h

insert_all-append :
    (e : ℕ) (ns before after : List Node) (t : Text)
    → any (is_marker e) before ≡ false
    → Insertable e ns before (comment e t ∷ after)
    → insert_all e ns (before ++ comment e t ∷ after) ≡ some (before ++ (ns ++ comment e t ∷ after))
unfolding insert_all any
insert_all-append e [] before after t h k = refl
insert_all-append e (n ∷ ns) before after t h (absent, plain, k) =
    let step = insert_before-append e n before after t h absent in
    let rest =
      insert_all-append e ns (before ++ n ∷ []) after t
        (ground (arith, any-append (is_marker e) before (n ∷ []))) k in
    rw (step, insert_all) (simp append_assoc at rest)

-- Everything behind the start marker goes, up to the end marker.
from_marker-append :
    (e : ℕ) (content after : List Node) (t : Text)
    → any (is_marker e) content ≡ false
    → from_marker e (content ++ comment e t ∷ after) ≡ comment e t ∷ after
unfolding from_marker any
from_marker-append e [] after t h = ground (arith, nat_beq_iff e e)
from_marker-append e (c ∷ content) after t h = ground (arith, from_marker-append e content after t)

clear_content-append :
    (s e : ℕ) (before content after : List Node) (t u : Text)
    → any (is_marker s) before ≡ false
    → any (is_marker e) content ≡ false
    → clear_content s e (before ++ comment s t ∷ (content ++ comment e u ∷ after))
      ≡ before ++ comment s t ∷ comment e u ∷ after
unfolding clear_content any
clear_content-append s e [] content after t u h k =
    ground (arith, nat_beq_iff s s, from_marker-append e content after u)
clear_content-append s e (c ∷ before) content after t u h k =
    ground (arith, clear_content-append s e before content after t u)

-- Nodes that can be put before a marker are not the marker.
Insertable-any :
    (e : ℕ) (ns before after : List Node)
    → Insertable e ns before after
    → any (is_marker e) ns ≡ false
unfolding any
Insertable-any e [] before after h = refl
Insertable-any e (n ∷ ns) before after (absent, plain, h) =
    rw plain (Insertable-any e ns (before ++ n ∷ []) after h)

module _ (print_array : List Node → Text) where
  commit_new :
      (p : Part) (before content after : List Node) (t u : Text)
      → same_value p.value p.committed ≡ false
      → any (is_marker p.start_marker) before ≡ false
      → any (is_marker p.end_marker) content ≡ false
      → any (is_marker p.end_marker) (before ++ comment p.start_marker t ∷ []) ≡ false
      → Insertable p.end_marker
          (nodes_of print_array p.from_markers p.value)
          (before ++ comment p.start_marker t ∷ [])
          (comment p.end_marker u ∷ after)
      → commit print_array p
          (before ++ comment p.start_marker t ∷ (content ++ comment p.end_marker u ∷ after))
        ≡ some (
          before
              ++ comment p.start_marker t
                ∷ (nodes_of print_array p.from_markers p.value ++ comment p.end_marker u ∷ after),
          record p { committed = p.value },
        )
  unfolding commit
  commit_new p before content after t u new first plain order h =
      let cleared =
        clear_content-append p.start_marker p.end_marker before content after t u first plain in
      let inserted =
        insert_all-append p.end_marker (nodes_of print_array p.from_markers p.value)
          (before ++ comment p.start_marker t ∷ []) after u order h in
      let inserted' = simp append_assoc at inserted in rw (new, cleared, inserted') refl

  -- Where the markers of a part stand in their order among the children, and the nodes of its value
  -- are not there outside of the markers, the commit of a value that is not the last committed one
  -- replaces what stands between the markers by these nodes, leaves all else in its place, and a
  -- second commit changes nothing.
  pub commit-append :
      (p : Part) (before content after : List Node) (t u : Text)
      → same_value p.value p.committed ≡ false
      → any (is_marker p.start_marker) before ≡ false
      → any (is_marker p.end_marker) content ≡ false
      → any (is_marker p.end_marker) (before ++ comment p.start_marker t ∷ []) ≡ false
      → Insertable p.end_marker
          (nodes_of print_array p.from_markers p.value)
          (before ++ comment p.start_marker t ∷ [])
          (comment p.end_marker u ∷ after)
      → let cs = before ++ comment p.start_marker t ∷ (content ++ comment p.end_marker u ∷ after) in
        let ds =
          before
          ++ comment p.start_marker t
            ∷ (nodes_of print_array p.from_markers p.value ++ comment p.end_marker u ∷ after) in
        let p' = record p { committed = p.value } in
        (commit print_array p cs ≡ some (ds, p')) × (commit print_array p' ds ≡ some (ds, p'))
  unfolding commit
  commit-append p before content after t u new first plain order h = (
    commit_new p before content after t u new first plain order h,
    elim (Bool-cases (same_value p.value p.value)) [
      | inl same ↦ rw same refl
      | inr other ↦
          commit_new (record p { committed = p.value }) before
            (nodes_of print_array p.from_markers p.value) after t u other first
            (Insertable-any p.end_marker (nodes_of print_array p.from_markers p.value)
              (before ++ comment p.start_marker t ∷ []) (comment p.end_marker u ∷ after) h)
            order h
    ],
  )
