-- ===== src/Ssr/Escape/Json/Sequence.antt =====
-- One escape sequence, a backslash and digits: writing it, and replacing it back.
use luna_mbt.Js.Affix.{starts_with_append}
use luna_mbt.Js.Text.{starts_with, replace_char, replace_from, replace_text}
use luna_mbt.Prelude.{
  ℕ, zero, suc, ◌≡◌, ◌≢◌, refl, true, false, ◌&&◌, [], ◌∷◌, ◌++◌, arith, Text, nat_beq,
  if◌then◌else◌, length, All,
}

abbrev pub backslash : ℕ
backslash = b'\\'

abbrev pub NoBackslash : Text → Type 0
NoBackslash = All (λ c. c ≢ backslash)

-- None of the first `k` code units is `ch`.
abbrev Clear : ℕ → ℕ → Text → Type 0
Clear ch zero s = Unit
Clear ch (suc k) [] = Unit
Clear ch (suc k) (a ∷ s) = (a ≢ ch) × Clear ch k s

Clear-of_starts_with :
    (ch : ℕ) (q s : Text) → All (λ c. c ≢ ch) q → starts_with s q ≡ true → Clear ch (length q) s
unfolding starts_with
Clear-of_starts_with ch [] s h e = tt
Clear-of_starts_with ch (b ∷ q) [] h e = tt
Clear-of_starts_with ch (b ∷ q) (a ∷ s) (p, h) e =
    (ground arith, Clear-of_starts_with ch q s h (ground arith))

-- An escape written into the text starts with a backslash, so it matches no digits.
starts_with-replace_char :
    (ch : ℕ) (r q s : Text)
    → NoBackslash q
    → All (λ c. c ≢ ch) q
    → starts_with (replace_char ch (backslash ∷ r) s) q ≡ starts_with s q
unfolding starts_with replace_char
starts_with-replace_char ch r [] [] n h = refl
starts_with-replace_char ch r [] (a ∷ s) n h = ground arith
starts_with-replace_char ch r (b ∷ q) [] n h = refl
starts_with-replace_char ch r (b ∷ q) (a ∷ s) (n0, n) (h0, h) =
    ground (arith, starts_with-replace_char ch r q s n h)

replace_from_skip :
    (pat rep : Text) (k a : ℕ) (s : Text)
    → replace_from pat rep (suc k) (a ∷ s) ≡ replace_from pat rep k s
unfolding replace_from
replace_from_skip pat rep k a s = refl

replace_from_nil : (pat rep : Text) (k : ℕ) → replace_from pat rep k [] ≡ []
unfolding replace_from
replace_from_nil pat rep zero = refl
replace_from_nil pat rep (suc k) = refl

replace_from_past :
    (pat rep q t : Text) → replace_from pat rep (length q) (q ++ t) ≡ replace_from pat rep 0 t
unfolding replace_from
replace_from_past pat rep [] t = refl
replace_from_past pat rep (b ∷ q) t = replace_from_past pat rep q t

replace_from_cons :
    (q rep : Text) (a : ℕ) (s : Text)
    → replace_from (backslash ∷ q) rep 0 (a ∷ s) ≡ (
        if nat_beq a backslash && starts_with s q
        then rep ++ replace_from (backslash ∷ q) rep (length q) s
        else a ∷ replace_from (backslash ∷ q) rep 0 s)
unfolding replace_from
replace_from_cons q rep a s = ground arith

replace_from_free :
    (q rep s t : Text)
    → NoBackslash s
    → replace_from (backslash ∷ q) rep 0 (s ++ t) ≡ s ++ replace_from (backslash ∷ q) rep 0 t
replace_from_free q rep [] t h = refl
replace_from_free q rep (a ∷ s) t (p, h) =
    ground (arith, replace_from_cons q rep a (s ++ t), replace_from_free q rep s t h)

pub replace_from_free_all :
    (q rep s : Text) → NoBackslash s → replace_from (backslash ∷ q) rep 0 s ≡ s
replace_from_free_all q rep [] h = replace_from_nil (backslash ∷ q) rep 0
replace_from_free_all q rep (a ∷ s) (p, h) =
    ground (arith, replace_from_cons q rep a s, replace_from_free_all q rep s h)

module _ (q : Text) (ch : ℕ) (digits : NoBackslash q) (other : All (λ c. c ≢ ch) q) where
  -- Replacing an escape back, over a text in which `ch` was written by that escape.
  same_from :
      (k : ℕ) (s : Text)
      → ch ≢ backslash
      → Clear ch k s
      → replace_from (backslash ∷ q) (ch ∷ []) k (replace_char ch (backslash ∷ q) s)
        ≡ replace_from (backslash ∷ q) (ch ∷ []) k s
  unfolding replace_char
  same_from zero [] plain h = refl
  same_from (suc k) [] plain h = refl
  same_from (suc k) (a ∷ s) plain (p, h) = ground (
    arith,
    replace_from_skip (backslash ∷ q) (ch ∷ []) k a s,
    replace_from_skip (backslash ∷ q) (ch ∷ []) k a (replace_char ch (backslash ∷ q) s),
    same_from k s plain h,
  )
  same_from zero (a ∷ s) plain h = ground (
    arith,
    replace_from_cons q (ch ∷ []) a s,
    replace_from_cons q (ch ∷ []) a (replace_char ch (backslash ∷ q) s),
    replace_from_cons q (ch ∷ []) backslash (q ++ replace_char ch (backslash ∷ q) s),
    starts_with_append q (replace_char ch (backslash ∷ q) s),
    replace_from_past (backslash ∷ q) (ch ∷ []) q (replace_char ch (backslash ∷ q) s),
    starts_with-replace_char ch q q s digits other,
    same_from 0 s plain tt,
    same_from (length q) s plain,
    Clear-of_starts_with ch q s other,
  )

  pub unescape_same :
      (s : Text)
      → ch ≢ backslash
      → replace_text (backslash ∷ q) (ch ∷ []) (replace_char ch (backslash ∷ q) s)
        ≡ replace_text (backslash ∷ q) (ch ∷ []) s
  unfolding replace_text
  unescape_same s plain = same_from 0 s plain tt

module _ (q r : Text) (c ch : ℕ) (digits : NoBackslash q) (other : All (λ a. a ≢ ch) q) where
  -- Replacing an escape back, over a text in which another escape was written for `ch`.
  other_from :
      (k : ℕ) (s : Text)
      → NoBackslash r
      → ((t : Text) → starts_with (r ++ t) q ≡ false)
      → ch ≢ backslash
      → c ≢ ch
      → Clear ch k s
      → replace_from (backslash ∷ q) (c ∷ []) k (replace_char ch (backslash ∷ r) s)
        ≡ replace_char ch (backslash ∷ r) (replace_from (backslash ∷ q) (c ∷ []) k s)
  unfolding replace_char
  other_from zero [] clean apart plain ne h = rw (replace_from_nil (backslash ∷ q) (c ∷ []) 0)
  other_from (suc k) [] clean apart plain ne h =
      rw (replace_from_nil (backslash ∷ q) (c ∷ []) (suc k))
  other_from (suc k) (a ∷ s) clean apart plain ne (p, h) = ground (
    arith,
    replace_from_skip (backslash ∷ q) (c ∷ []) k a s,
    replace_from_skip (backslash ∷ q) (c ∷ []) k a (replace_char ch (backslash ∷ r) s),
    other_from k s clean apart plain ne h,
  )
  other_from zero (a ∷ s) clean apart plain ne h = ground (
    arith,
    replace_from_cons q (c ∷ []) a s,
    replace_from_cons q (c ∷ []) a (replace_char ch (backslash ∷ r) s),
    replace_from_cons q (c ∷ []) backslash (r ++ replace_char ch (backslash ∷ r) s),
    apart (replace_char ch (backslash ∷ r) s),
    replace_from_free q (c ∷ []) r (replace_char ch (backslash ∷ r) s) clean,
    starts_with-replace_char ch r q s digits other,
    other_from 0 s clean apart plain ne tt,
    other_from (length q) s clean apart plain ne,
    Clear-of_starts_with ch q s other,
  )

  pub unescape_other :
      (s : Text)
      → NoBackslash r
      → ((t : Text) → starts_with (r ++ t) q ≡ false)
      → ch ≢ backslash
      → c ≢ ch
      → replace_text (backslash ∷ q) (c ∷ []) (replace_char ch (backslash ∷ r) s)
        ≡ replace_char ch (backslash ∷ r) (replace_text (backslash ∷ q) (c ∷ []) s)
  unfolding replace_text
  unescape_other s clean apart plain ne = other_from 0 s clean apart plain ne tt
