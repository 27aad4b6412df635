-- ===== src/Wcr/Signal.antt =====
-- `Signal` and `effect` of js/wcr/src/signal.ts, on a store: signals and effects have numbers as
-- their addresses. The function of an effect is a tree of the signals that it reads, in the order in
-- which it reads them; it ends in what it shows and in whether it returns a cleanup. Functions that
-- write signals or throw are not modelled.
pub mod Live
pub mod Runs
use luna_mbt.Js.Keys
use luna_mbt.Prelude.{
  ℕ, ◌+◌, Bool, true, false, Option, none, some, List, [], ◌∷◌, foldl, Eq, ◌==◌, nat_beq, nat_eq,
  includes, if◌then◌else◌,
}

pub data Body (V O : Type 0) : Type 0 where
  done : O → Bool → Body V O
  get : ℕ → (V → Body V O) → Body V O
  peek : ℕ → (V → Body V O) → Body V O

-- An effect: its function, the variables `disposed` and `cleanup`, what it shows since its last
-- run, and the number of cleanups that were called.
pub record Effect (V O : Type 0) : Type 0 where
  pub body : Body V O
  pub disposed : Bool
  pub cleanup : Bool
  pub shown : Option O
  pub cleaned : ℕ

pub record Store (V O : Type 0) : Type 0 where
  pub values : ℕ → V
  pub subscribers : ℕ → List ℕ
  pub effects : ℕ → Option (Effect V O)

abbrev pub update {ℓ} : {A : Type ℓ} → (ℕ → A) → ℕ → A → ℕ → A
update f n a m = if nat_beq n m then a else f m

abbrev cleanups : Bool → ℕ → ℕ
cleanups cleanup n = if cleanup then n + 1 else n

module _ {V O : Type 0} where
  -- The function of the effect `e` with `currentEffect` set to its `run`: `get` subscribes it.
  unfoldable pub call : ℕ → Body V O → (ℕ → V) → (ℕ → List ℕ) → (ℕ → List ℕ) × O × Bool
  call e (done shown cleanup) values subs = (subs, shown, cleanup)
  call e (get s k) values subs = call e (k (values s)) values (update subs s (Keys.add (subs s) e))
  call e (peek s k) values subs = call e (k (values s)) values subs

  -- The effect after a call of its function.
  abbrev pub called : Store V O → ℕ → Effect V O → Effect V O
  called w e f = record f {
    shown = some (call e f.body w.values w.subscribers).1;
    cleanup = (call e f.body w.values w.subscribers).2;
    cleaned = cleanups f.cleanup f.cleaned;
  }

  abbrev pub ran : Store V O → ℕ → Effect V O → Store V O
  ran w e f = record w {
    subscribers = (call e f.body w.values w.subscribers).0;
    effects = update w.effects e (some (called w e f));
  }

  abbrev pub rerun : Store V O → ℕ → Option (Effect V O) → Store V O
  rerun w e none = w
  rerun w e (some f) = if f.disposed then w else ran w e f

  -- The function `run` of an effect.
  unfoldable pub run : Store V O → ℕ → Store V O
  run w e = rerun w e (w.effects e)

  -- `#notify`, over the copy of the subscribers
  unfoldable pub notify : Store V O → List ℕ → Store V O
  unfolding run
  notify w [] = w
  notify w (e ∷ subs) = notify (run w e) subs

  -- `effect`, at a new address
  unfoldable pub effect : Store V O → ℕ → Body V O → Store V O
  unfolding run
  effect w e body =
      run
        (record w {
          effects = update w.effects e (
              some (record {
                body = body;
                disposed = false;
                cleanup = false;
                shown = none;
                cleaned = 0;
              }));
        })
        e

  abbrev pub disposal : Store V O → ℕ → Option (Effect V O) → Store V O
  disposal w e none = w
  disposal w e (some f) = record w {
    effects =
        update w.effects e
          (some (record f { disposed = true; cleaned = cleanups f.cleanup f.cleaned }));
  }

  -- The function that `effect` returns.
  unfoldable pub dispose : Store V O → ℕ → Store V O
  dispose w e = disposal w e (w.effects e)

  -- `subscribe`, of an effect's function at a new address
  unfoldable pub subscribe : Store V O → ℕ → ℕ → Store V O
  unfolding run
  subscribe w s e =
      run (record w { subscribers = update w.subscribers s (Keys.add (w.subscribers s) e) }) e

  -- The function that `subscribe` returns.
  unfoldable pub unsubscribe : Store V O → ℕ → ℕ → Store V O
  unsubscribe w s e = record w {
    subscribers = update w.subscribers s (Keys.delete (w.subscribers s) e);
  }

  module _ ⦃same : Eq V⦄ where
    -- `set`
    unfoldable pub set : Store V O → ℕ → V → Store V O
    unfolding notify
    set w s v =
        if w.values s == v
        then w
        else notify (record w { values = update w.values s v }) (w.subscribers s)

    -- `update`
    unfoldable pub update_with : Store V O → ℕ → (V → V) → Store V O
    unfolding set
    update_with w s f = set w s (f (w.values s))
