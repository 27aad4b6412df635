-- ===== src/Crawler/Targets/Choice.antt =====
-- Which target a random number selects (js/playwright-chaos/src/crawler.ts).
use luna_mbt.Crawler.Targets.{WeightedTarget, total_weight, pick, select}
use luna_mbt.Prelude.{
  ℕ, ◌≡◌, ◌≤◌, ◌+◌, ◌-◌, refl, ap, inl, inr, some, List, [], ◌∷◌, ◌++◌, arith, leb, Bool-cases,
}

-- A target of the list, with those before it and those behind it, whose share of the total weight
-- has the number in it.
pub record Share (random : ℕ) (targets : List WeightedTarget) : Type 0 where
  pub before : List WeightedTarget
  pub target : WeightedTarget
  pub after : List WeightedTarget
  pub splits : targets ≡ before ++ target ∷ after
  pub above : total_weight before + 1 ≤ random
  pub below : random ≤ total_weight before + target.weight

pick-Share :
    (random : ℕ) (targets : List WeightedTarget)
    → 1 ≤ random
    → random ≤ total_weight targets
    → (s : Share random targets) × (pick random targets ≡ some s.target)
unfolding total_weight pick
pick-Share random [] h k = absurd (omega (arith, h, k))
pick-Share random (t ∷ targets) h k = elim (Bool-cases (leb random t.weight)) [
  | inl here ↦ (
    record {
      before = [];
      target = t;
      after = targets;
      splits = refl;
      above = h;
      below = ground (arith, here);
    },
    rw here refl,
  )
  | inr later ↦
      let (s, e) =
        pick-Share (random - t.weight) targets (ground (arith, later)) (ground (arith, k, later)) in
      (
        record {
          before = t ∷ s.before;
          target = s.target;
          after = s.after;
          splits = ap (λ ts. t ∷ ts) s.splits;
          above = ground (arith, s.above, later);
          below = ground (arith, s.below, later);
        },
        rw later e,
      )
]

-- A random number from one to the total weight selects the target in whose share of the total it
-- lies, where the shares lie one after the other in the order of the targets and each is as long as
-- the target's weight.
pub select-Share :
    (random : ℕ) (targets : List WeightedTarget)
    → 1 ≤ random
    → random ≤ total_weight targets
    → (s : Share random targets) × (select random targets ≡ some s.target)
unfolding select
select-Share random targets h k =
    let (s, e) = pick-Share random targets h k in (s, rw (e, select) refl)
