-- ===== src/Js/Affix.antt =====
-- `startsWith` and `endsWith` as equations.
use luna_mbt.Js.Text.{starts_with, ends_with}
use luna_mbt.Prelude.{
  ℕ, zero, suc, ◌-◌, ◌≡◌, refl, sym, ap, ◌∙◌, true, [], ◌∷◌, ◌++◌, arith, Text, length, take, drop,
  length-append, length-drop, drop-length-append,
}

pub starts_with-split : (k p : Text) → starts_with k p ≡ true → k ≡ p ++ drop (length p) k
unfolding starts_with
starts_with-split k [] h = refl
starts_with-split [] (b ∷ p) h = cc
starts_with-split (a ∷ k) (b ∷ p) h = ground (arith, starts_with-split k p)

pub starts_with_append : (p t : Text) → starts_with (p ++ t) p ≡ true
unfolding starts_with
starts_with_append [] [] = refl
starts_with_append [] (c ∷ t) = refl
starts_with_append (b ∷ p) t = ground (arith, starts_with_append p t)

pub starts_with_self : (t : Text) → starts_with t t ≡ true
unfolding starts_with
starts_with_self [] = refl
starts_with_self (b ∷ t) = ground (arith, starts_with_self t)

pub append_cancel : (p s t : Text) → p ++ s ≡ p ++ t → s ≡ t
append_cancel p s t e =
    sym (drop-length-append p s) ∙ (ap (drop (length p)) e ∙ drop-length-append p t)

take-append-drop : (n : ℕ) (s : Text) → take n s ++ drop n s ≡ s
take-append-drop zero s = refl
take-append-drop (suc n) [] = refl
take-append-drop (suc n) (a ∷ s) = ap (◌∷◌ a) (take-append-drop n s)

take-length-append : (p t : Text) → take (length p) (p ++ t) ≡ p
take-length-append [] t = refl
take-length-append (a ∷ p) t = ap (◌∷◌ a) (take-length-append p t)

starts_with_whole : (u t : Text) → starts_with u t ≡ true → length u ≡ length t → u ≡ t
unfolding starts_with
starts_with_whole [] [] h e = refl
starts_with_whole [] (b ∷ t) h e = cc
starts_with_whole (a ∷ u) [] h e = absurd (omega arith)
starts_with_whole (a ∷ u) (b ∷ t) h e = ground (arith, starts_with_whole u t)

pub ends_with-split : (s t : Text) → ends_with s t ≡ true → s ≡ take (length s - length t) s ++ t
unfolding ends_with
ends_with-split s t h =
    let n = length s - length t in
    let tail : drop n s ≡ t =
      starts_with_whole (drop n s) t (ground arith) (ground (arith, length-drop n s)) in
    sym (take-append-drop n s) ∙ ap (◌++◌ (take n s)) tail

pub ends_with_append : (p t : Text) → ends_with (p ++ t) t ≡ true
unfolding ends_with
ends_with_append p t =
    let n : length (p ++ t) - length t ≡ length p = omega (arith, length-append p t) in
    rw (n, drop-length-append p t) (ground (arith, length-append p t, starts_with_self t))

pub take_append : (p t : Text) → take (length (p ++ t) - length t) (p ++ t) ≡ p
take_append p t =
    let n : length (p ++ t) - length t ≡ length p = omega (arith, length-append p t) in
    rw n (take-length-append p t)
