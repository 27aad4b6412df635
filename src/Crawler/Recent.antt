-- ===== src/Crawler/Recent.antt =====
-- The action history of js/playwright-chaos/src/crawler.ts is the end of the list of actions.
use luna_mbt.Crawler.State.{Crawler, add_to_history}
use luna_mbt.Crawler.Types.{ActionResult, CrawlerOptions}
use luna_mbt.Prelude.{
  ◌≡◌, refl, sym, inl, inr, ℕ, zero, suc, ◌+◌, ◌-◌, true, false, List, [], ◌∷◌, ◌++◌, arith,
  if◌then◌else◌, ltb, length, drop, length-append, length-drop, drop-append_of_le, Bool-cases,
}

-- The last `n` elements of a list.
abbrev pub last_n {ℓ} : {A : Type ℓ} → ℕ → List A → List A
last_n n xs = drop (length xs - n) xs

abbrev pub IsRecent : CrawlerOptions → Crawler → Type 0
IsRecent o s = s.action_history ≡ last_n o.recovery_history_size s.actions

pub last_n_nil {ℓ} : {A : Type ℓ} (n : ℕ) → [] ≡ drop {A = A} n []
last_n_nil zero = refl
last_n_nil (suc n) = refl

drop_one {ℓ} : {A : Type ℓ} (n : ℕ) (xs : List A) → drop 1 (drop n xs) ≡ drop (suc n) xs
drop_one zero xs = refl
drop_one (suc n) [] = refl
drop_one (suc n) (x ∷ xs) = drop_one n xs

short_lem : (n size : ℕ) → ltb n size ≡ true → (n - size ≡ 0) × (n + 1 - size ≡ 0)
short_lem n size h = (ground arith, ground arith)

long_lem : (n size : ℕ) → ltb n size ≡ false → n + 1 - size ≡ suc (n - size)
long_lem n size h = ground arith

shift_lem {ℓ} :
    {A : Type ℓ} (size : ℕ) (xs : List A) (a : A)
    → let h = last_n size xs ++ a ∷ [] in
      (if ltb size (length h) then drop 1 h else h) ≡ last_n size (xs ++ a ∷ [])
shift_lem size xs a = rw (sym (drop-append_of_le (length xs - size) xs (a ∷ []) (omega arith))) (
    rw (length-drop (length xs - size) (xs ++ a ∷ [])) (
      rw (length-append xs (a ∷ [])) (elim (Bool-cases (ltb (length xs) size)) [
        | inl short ↦
            rw ((short_lem (length xs) size short).0, (short_lem (length xs) size short).1)
              (ground arith)
        | inr long ↦
            rw (long_lem (length xs) size long)
              (ground (arith, drop_one (length xs - size) (xs ++ a ∷ [])))
      ])))

-- Recording an action keeps the history the last `recoveryHistorySize` actions.
pub add_to_history-IsRecent :
    (o : CrawlerOptions) (s : Crawler) (a : ActionResult)
    → IsRecent o s
    → IsRecent o (add_to_history o (record s { actions = s.actions ++ a ∷ [] }) a)
unfolding add_to_history
add_to_history-IsRecent o s a h = rw h (shift_lem o.recovery_history_size s.actions a)
