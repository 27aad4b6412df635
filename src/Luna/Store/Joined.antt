-- ===== src/Luna/Store/Joined.antt =====
-- Paths and the keys of their signals (js/luna/src/index.ts).
use luna_mbt.Js.Affix.{starts_with_append, starts_with-split}
use luna_mbt.Js.Text.{js, join, split, split_from, starts_with}
use luna_mbt.Luna.Store.{key_of, covers}
use luna_mbt.Prelude.{
  ◌≡◌, ◌≤◌, refl, sym, ap, ◌∙◌, subst, inl, inr, true, false, List, [], ◌∷◌, ◌++◌, arith, Text,
  text_eq, text_beq_iff, ◌==◌, nat_beq, All, append-nil, append_assoc, length, drop, length-append,
  Bool-cases, beq_self,
}

-- A key of an object without a dot.
abbrev pub IsDotless : Text → Type 0
IsDotless [] = Unit
IsDotless (c ∷ s) = (nat_beq c b'.' ≡ false) × IsDotless s

split_from-dotless :
    (cur s rest : Text)
    → IsDotless s
    → split_from b'.' cur (s ++ rest) ≡ split_from b'.' (cur ++ s) rest
unfolding split_from
split_from-dotless cur [] rest h = rw (append-nil cur) refl
split_from-dotless cur (c ∷ s) rest (p, h) =
    ground (arith, p, split_from-dotless (cur ++ c ∷ []) s rest h, append_assoc cur (c ∷ []) s)

-- The key of a path without dots in its keys gives the path back.
pub split-key_of :
    (k : Text) (ks : List Text) → All IsDotless (k ∷ ks) → split b'.' (key_of (k ∷ ks)) ≡ k ∷ ks
unfolding split join split_from
split-key_of k [] (h, hs) =
    subst (λ x. split_from b'.' [] x ≡ k ∷ []) (append-nil k) (split_from-dotless [] k [] h)
split-key_of k (j ∷ ks) (h, hs) =
    split_from-dotless [] k (js "." ++ key_of (j ∷ ks)) h ∙ ap (λ xs. k ∷ xs) (split-key_of j ks hs)

key_of-append :
    (k : Text) (p : List Text) (x : Text) (r : List Text)
    → key_of ((k ∷ p) ++ x ∷ r) ≡ key_of (k ∷ p) ++ (js "." ++ key_of (x ∷ r))
unfolding join
key_of-append k [] x r = refl
key_of-append k (j ∷ p) x r =
    ap (λ t. k ++ (js "." ++ t)) (key_of-append j p x r)
    ∙ sym (append_assoc k (js "." ++ key_of (j ∷ p)) (js "." ++ key_of (x ∷ r)))

-- The keys of a path and of those below it are covered.
pub covers-key_of :
    (k : Text) (p r : List Text) → covers (key_of (k ∷ p)) (key_of ((k ∷ p) ++ r)) ≡ true
unfolding covers
covers-key_of k p [] = rw (append-nil (k ∷ p)) (ground (arith, beq_self (key_of (k ∷ p))))
covers-key_of k p (x ∷ r) =
    let e = key_of-append k p x r ∙ sym (append_assoc (key_of (k ∷ p)) (js ".") (key_of (x ∷ r))) in
    rw e (ground (arith, starts_with_append (key_of (k ∷ p) ++ js ".") (key_of (x ∷ r))))

starts_with-length : (s t : Text) → starts_with s t ≡ true → length t ≤ length s
unfolding starts_with
starts_with-length s [] h = omega arith
starts_with-length [] (b ∷ t) h = cc
starts_with-length (a ∷ s) (b ∷ t) h = ground (arith, starts_with-length s t)

-- The keys of the paths above are not.
pub covers-key_of_above :
    (k : Text) (q : List Text) (x : Text) (r : List Text)
    → covers (key_of ((k ∷ q) ++ x ∷ r)) (key_of (k ∷ q)) ≡ false
unfolding covers
covers-key_of_above k q x r =
    let e = ap length (key_of-append k q x r) in
    let n = length-append (key_of (k ∷ q)) (js "." ++ key_of (x ∷ r)) in
    let path = key_of ((k ∷ q) ++ x ∷ r) in
    ground (
      arith,
      e,
      n,
      length-append path (js "."),
      starts_with-length (key_of (k ∷ q)) (path ++ js "."),
      text_beq_iff (key_of (k ∷ q)) path,
    )

split-key_of-append :
    (k : Text) (ks : List Text) (t : Text)
    → All IsDotless (k ∷ ks)
    → split_from b'.' [] (key_of (k ∷ ks) ++ b'.' ∷ t) ≡ (k ∷ ks) ++ split_from b'.' [] t
unfolding join split_from
split-key_of-append k [] t (h, hs) = split_from-dotless [] k (b'.' ∷ t) h
split-key_of-append k (j ∷ ks) t (h, hs) =
    ap (split_from b'.' []) (append_assoc k (b'.' ∷ key_of (j ∷ ks)) (b'.' ∷ t))
    ∙ split_from-dotless [] k (b'.' ∷ (key_of (j ∷ ks) ++ b'.' ∷ t)) h
    ∙ ap (λ xs. k ∷ xs) (split-key_of-append j ks t hs)

-- Of paths without dots in their keys, only those at or below a path are covered by its key.
pub covers-extends :
    (k : Text) (p : List Text) (j : Text) (q : List Text)
    → All IsDotless (k ∷ p)
    → All IsDotless (j ∷ q)
    → covers (key_of (k ∷ p)) (key_of (j ∷ q)) ≡ true
    → (r : List Text) × (j ∷ q ≡ (k ∷ p) ++ r)
unfolding covers split
covers-extends k p j q h i e = elim (Bool-cases (key_of (j ∷ q) == key_of (k ∷ p))) [
  | inl same ↦
      let keys = (text_beq_iff (key_of (j ∷ q)) (key_of (k ∷ p))).0 same in
      (
        [],
        sym (split-key_of j q i)
            ∙ ap (split b'.') keys
            ∙ split-key_of k p h
            ∙ sym (append-nil (k ∷ p)),
      )
  | inr other ↦
      let begins : starts_with (key_of (j ∷ q)) (key_of (k ∷ p) ++ js ".") ≡ true = ground arith in
      let t = drop (length (key_of (k ∷ p) ++ js ".")) (key_of (j ∷ q)) in
      let keys =
        starts_with-split (key_of (j ∷ q)) (key_of (k ∷ p) ++ js ".") begins
        ∙ append_assoc (key_of (k ∷ p)) (js ".") t in
      (
        split_from b'.' [] t,
        sym (split-key_of j q i) ∙ ap (split_from b'.' []) keys ∙ split-key_of-append k p t h,
      )
]
