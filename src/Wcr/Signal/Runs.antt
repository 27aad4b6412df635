-- ===== src/Wcr/Signal/Runs.antt =====
-- The runs of a store of signals (js/wcr/src/signal.ts).
use luna_mbt.Prelude.{
  ℕ, ◌≡◌, refl, inl, inr, false, Option, none, some, [], arith, Eq, ◌==◌, nat_eq, includes,
  Bool-cases,
}
use luna_mbt.Wcr.Signal.{
  Body, Effect, Store, update, run, effect, disposal, dispose, set, update_with,
}
use luna_mbt.Wcr.Signal.Live.{
  IsTracked, IsLive, AllLive, rerun-AllLive, notify-AllLive, write-AllLive,
}

module _ {V O : Type 0} where
  set-AllLive :
      ⦃same : Eq V⦄ (w : Store V O) (s : ℕ) (v : V) → AllLive w [] → AllLive (set w s v) []
  unfolding set
  set-AllLive ⦃same⦄ w s v h = elim (Bool-cases (w.values s == v)) [
    | inl old ↦ rw old h
    | inr new ↦ rw new (
        notify-AllLive (record w { values = update w.values s v }) (w.subscribers s)
          (write-AllLive w s v h))
  ]

  abbrev new_effect : Body V O → Effect V O
  new_effect body = record {
    body = body;
    disposed = false;
    cleanup = false;
    shown = none;
    cleaned = 0;
  }

  effect-AllLive :
      (w : Store V O) (e : ℕ) (body : Body V O) → AllLive w [] → AllLive (effect w e body) []
  unfolding effect run includes
  effect-AllLive w e body h =
      let w' = record w { effects = update w.effects e (some (new_effect body)) } in
      rerun-AllLive w' e (w'.effects e) [] refl (λ d f q on tracked fresh.
        let live = h d f (ground arith) on tracked refl in
        record { shows_now = live.shows_now; subscribed = live.subscribed })

  disposal-AllLive :
      (w : Store V O) (e : ℕ) (o : Option (Effect V O)) → AllLive w [] → AllLive (disposal w e o) []
  unfolding includes
  disposal-AllLive w e none h = h
  disposal-AllLive w e (some g) h = λ d f q on tracked fresh.
      let live = h d f (ground arith) on tracked refl in
      record { shows_now = live.shows_now; subscribed = live.subscribed }

  dispose-AllLive : (w : Store V O) (e : ℕ) → AllLive w [] → AllLive (dispose w e) []
  unfolding dispose
  dispose-AllLive w e h = disposal-AllLive w e (w.effects e) h

  module _ ⦃same : Eq V⦄ where
    pub data Step (w : Store V O) : Store V O → Type 0 where
      created : (e : ℕ) (body : Body V O) → w.effects e ≡ none → Step w (effect w e body)
      written : (s : ℕ) (v : V) → Step w (set w s v)
      updated : (s : ℕ) (f : V → V) → Step w (update_with w s f)
      disposed : (e : ℕ) → Step w (dispose w e)

    pub data Reach : Store V O → Type 0 where
      start : {w : Store V O} → ((e : ℕ) → w.effects e ≡ none) → Reach w
      later : {w w' : Store V O} → Reach w → Step w w' → Reach w'

    Reach-AllLive : {w : Store V O} → Reach w → AllLive w []
    unfolding update_with
    Reach-AllLive (start h) = λ e f q. cc (h e)
    Reach-AllLive (later r (created e body p)) = effect-AllLive _ e body (Reach-AllLive r)
    Reach-AllLive (later r (written s v)) = set-AllLive _ s v (Reach-AllLive r)
    Reach-AllLive (later r (updated s f)) = set-AllLive _ s _ (Reach-AllLive r)
    Reach-AllLive (later r (disposed e)) = dispose-AllLive _ e (Reach-AllLive r)

    -- Whatever the sequence of new effects, writes, updates and disposals, each effect that is not
    -- disposed and reads its signals by `get` shows what its function gives at the values that the
    -- signals have now, and is subscribed to each signal that it reads at them.
    pub Reach-IsLive :
        {w : Store V O} (e : ℕ) (f : Effect V O)
        → Reach w
        → w.effects e ≡ some f
        → f.disposed ≡ false
        → IsTracked f.body
        → IsLive w e f
    unfolding includes
    Reach-IsLive e f r q on tracked = Reach-AllLive r e f q on tracked refl
