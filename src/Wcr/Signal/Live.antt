-- ===== src/Wcr/Signal/Live.antt =====
-- Effects follow their signals (js/wcr/src/signal.ts).
use luna_mbt.Js.Keys
use luna_mbt.Js.Keys.{includes-add}
use luna_mbt.Prelude.{
  ℕ, ◌≡◌, refl, sym, ap, ◌∙◌, subst, inl, inr, true, false, Option, none, some, List, [], ◌∷◌,
  arith, nat_beq, nat_eq, nat_beq_iff, includes, Bool-cases, if◌then◌else◌,
}
use luna_mbt.Wcr.Signal.{
  Body, done, get, peek, Effect, Store, update, call, called, ran, run, rerun, notify,
}

-- What a function shows at given values of the signals.
pub shows : {V O : Type 0} → Body V O → (ℕ → V) → O
shows (done shown cleanup) values = shown
shows (get s k) values = shows (k (values s)) values
shows (peek s k) values = shows (k (values s)) values

-- The function reads by `get` only.
abbrev pub IsTracked : {V O : Type 0} → Body V O → Type 0
IsTracked (done shown cleanup) = Unit
IsTracked {V} (get s k) = (v : V) → IsTracked (k v)
IsTracked (peek s k) = ⊥

-- The effect `e` is subscribed to each signal that its function reads at these values.
abbrev pub Subscribed : {V O : Type 0} → ℕ → Body V O → (ℕ → V) → (ℕ → List ℕ) → Type 0
Subscribed e (done shown cleanup) values subs = Unit
Subscribed e (get s k) values subs =
    (includes (subs s) e ≡ true) × Subscribed e (k (values s)) values subs
Subscribed e (peek s k) values subs = Subscribed e (k (values s)) values subs

module _ {V O : Type 0} where
  -- What `call` gives, and that no subscription is lost.
  call-shows :
      (e : ℕ) (b : Body V O) (values : ℕ → V) (subs : ℕ → List ℕ)
      → (call e b values subs).1 ≡ shows b values
  unfolding call shows
  call-shows e (done shown cleanup) values subs = refl
  call-shows e (get s k) values subs = call-shows e (k (values s)) values _
  call-shows e (peek s k) values subs = call-shows e (k (values s)) values subs

  call_keeps :
      (e : ℕ) (b : Body V O) (values : ℕ → V) (subs : ℕ → List ℕ) (d s : ℕ)
      → includes (subs s) d ≡ true
      → includes ((call e b values subs).0 s) d ≡ true
  unfolding call
  call_keeps e (done shown cleanup) values subs d s h = h
  call_keeps e (get t k) values subs d s h =
      call_keeps e (k (values t)) values (update subs t (Keys.add (subs t) e)) d s
        (ground (arith, includes-add (subs t) e d))
  call_keeps e (peek t k) values subs d s h = call_keeps e (k (values t)) values subs d s h

  Subscribed-mono :
      (d : ℕ) (b : Body V O) (values : ℕ → V) (subs subs' : ℕ → List ℕ)
      → ((s : ℕ) → includes (subs s) d ≡ true → includes (subs' s) d ≡ true)
      → Subscribed d b values subs
      → Subscribed d b values subs'
  Subscribed-mono d (done shown cleanup) values subs subs' more h = tt
  Subscribed-mono d (get s k) values subs subs' more (p, h) =
      (more s p, Subscribed-mono d (k (values s)) values subs subs' more h)
  Subscribed-mono d (peek s k) values subs subs' more h =
      Subscribed-mono d (k (values s)) values subs subs' more h

  call-Subscribed :
      (e : ℕ) (b : Body V O) (values : ℕ → V) (subs : ℕ → List ℕ)
      → Subscribed e b values ((call e b values subs).0)
  unfolding call
  call-Subscribed e (done shown cleanup) values subs = tt
  call-Subscribed e (get s k) values subs = (
    call_keeps e (k (values s)) values (update subs s (Keys.add (subs s) e)) e s
        (ground (arith, includes-add (subs s) e e)),
    call-Subscribed e (k (values s)) values (update subs s (Keys.add (subs s) e)),
  )
  call-Subscribed e (peek s k) values subs = call-Subscribed e (k (values s)) values subs

  -- An effect that shows what its function gives now, and is subscribed to all that it reads.
  pub record IsLive (w : Store V O) (e : ℕ) (f : Effect V O) : Type 0 where
    pub shows_now : f.shown ≡ some (shows f.body w.values)
    pub subscribed : Subscribed e f.body w.values w.subscribers

  -- All effects that are not disposed and read by `get` only, but those listed, are live.
  abbrev pub AllLive : Store V O → List ℕ → Type 0
  AllLive w stale =
      (e : ℕ) (f : Effect V O)
      → w.effects e ≡ some f
      → f.disposed ≡ false
      → IsTracked f.body
      → includes stale e ≡ false
      → IsLive w e f

  called-IsLive : (w : Store V O) (e : ℕ) (f : Effect V O) → IsLive (ran w e f) e (called w e f)
  called-IsLive w e f = record {
    shows_now = ap some (call-shows e f.body w.values w.subscribers);
    subscribed = call-Subscribed e f.body w.values w.subscribers;
  }

  ran-IsLive :
      (w : Store V O) (e : ℕ) (g : Effect V O) (d : ℕ) (f : Effect V O)
      → IsLive w d f
      → IsLive (ran w e g) d f
  ran-IsLive w e g d f h = record {
    shows_now = h.shows_now;
    subscribed =
        Subscribed-mono d f.body w.values w.subscribers (ran w e g).subscribers
          (call_keeps e g.body w.values w.subscribers d) h.subscribed;
  }

  ran-AllLive :
      (w : Store V O) (e : ℕ) (g : Effect V O) (stale : List ℕ)
      → AllLive w (e ∷ stale)
      → AllLive (ran w e g) stale
  unfolding includes
  ran-AllLive w e g stale h d f q on tracked fresh = elim (Bool-cases (nat_beq e d)) [
    | inl same ↦
        let here : e ≡ d = (nat_beq_iff e d).0 same in
        let now : called w e g ≡ f = ground (arith, same) in
        subst (λ x. IsLive (ran w e g) x f) here
          (subst (λ x. IsLive (ran w e g) e x) now (called-IsLive w e g))
    | inr other ↦ ran-IsLive w e g d f (h d f (ground arith) on tracked (ground arith))
  ]

  pub rerun-AllLive :
      (w : Store V O) (e : ℕ) (o : Option (Effect V O)) (stale : List ℕ)
      → w.effects e ≡ o
      → AllLive w (e ∷ stale)
      → AllLive (rerun w e o) stale
  unfolding includes
  rerun-AllLive w e none stale p h =
      λ d f q on tracked fresh. h d f q on tracked (ground (arith, nat_beq_iff e d))
  rerun-AllLive w e (some g) stale p h = elim (Bool-cases g.disposed) [
    | inl off ↦
        subst (λ b. AllLive (if b then w else ran w e g) stale) (sym off)
          (λ d f q on tracked fresh. h d f q on tracked (ground (arith, nat_beq_iff e d)))
    | inr live ↦
        subst (λ b. AllLive (if b then w else ran w e g) stale) (sym live)
          (ran-AllLive w e g stale h)
  ]

  pub notify-AllLive :
      (w : Store V O) (stale : List ℕ) → AllLive w stale → AllLive (notify w stale) []
  unfolding notify run
  notify-AllLive w [] h = h
  notify-AllLive w (e ∷ stale) h =
      notify-AllLive (run w e) stale (rerun-AllLive w e (w.effects e) stale refl h)

  -- A write to a signal that the function does not read changes nothing for it.
  shows-update :
      (e : ℕ) (b : Body V O) (values : ℕ → V) (subs : ℕ → List ℕ) (s : ℕ) (v : V)
      → IsTracked b
      → includes (subs s) e ≡ false
      → Subscribed e b values subs
      → (shows b (update values s v) ≡ shows b values) × Subscribed e b (update values s v) subs
  unfolding shows
  shows-update e (done shown cleanup) values subs s v tracked out h = (refl, tt)
  shows-update e (get t k) values subs s v tracked out (p, h) =
      let apart : nat_beq s t ≡ false = ground (arith, nat_beq_iff s t) in
      let same : update values s v t ≡ values t = ground (arith, apart) in
      let rest = shows-update e (k (values t)) values subs s v (tracked (values t)) out h in
      (
        rw same (rest.0),
        (p, subst (λ u. Subscribed e (k u) (update values s v) subs) (sym same) (rest.1)),
      )
  shows-update e (peek t k) values subs s v tracked out h = absurd tracked

  pub write-AllLive :
      (w : Store V O) (s : ℕ) (v : V)
      → AllLive w []
      → AllLive (record w { values = update w.values s v }) (w.subscribers s)
  unfolding includes
  write-AllLive w s v h e f q on tracked out =
      let live = h e f q on tracked refl in
      let kept = shows-update e f.body w.values w.subscribers s v tracked out live.subscribed in
      record { shows_now = live.shows_now ∙ ap some (sym (kept.0)); subscribed = kept.1 }
