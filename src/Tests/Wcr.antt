-- ===== src/Tests/Wcr.antt =====
-- Signals and custom elements of js/wcr/src.
use luna_mbt.Js.Text.{js}
use luna_mbt.Prelude.{
  ℕ, ◌≡◌, ◌≢◌, ◌+◌, refl, Bool, true, false, Option, none, some, List, [], ◌∷◌, Text, text_eq,
  nat_eq, nat_beq, arith, if◌then◌else◌,
}
use luna_mbt.Wcr.Define.{
  int, bool, open_root, Value, number, flag, AttrDef, Element, parse_attr, construct,
  connected_callback, set_attribute,
}
use luna_mbt.Wcr.Define.Runs
use luna_mbt.Wcr.Define.Runs.{IsFaithful, Reach-IsFaithful, connected, attribute_set}
use luna_mbt.Wcr.Signal.{Body, done, get, Effect, Store, effect, set, dispose}
use luna_mbt.Wcr.Signal.Live.{IsLive}
use luna_mbt.Wcr.Signal.Runs as SignalRuns
use luna_mbt.Wcr.Signal.Runs.{Reach-IsLive, created, written}

-- An effect that shows the sum of two signals.
abbrev sum_body : Body ℕ ℕ
sum_body = get 0 (λ a. get 1 (λ b. done (a + b) true))

abbrev bare_store : Store ℕ ℕ
bare_store = record { values = λ s. 2; subscribers = λ s. []; effects = λ e. none }

abbrev sum_effect : Effect ℕ ℕ
sum_effect = record {
  body = sum_body;
  disposed = false;
  cleanup = true;
  shown = some 9;
  cleaned = 1;
}

signals_example : IsLive (set (effect bare_store 0 sum_body) 0 7) 0 sum_effect
unfolding effect set luna_mbt.Wcr.Signal.call luna_mbt.Js.Keys.add luna_mbt.Prelude.includes
signals_example =
    Reach-IsLive 0 sum_effect
      (SignalRuns.later
        (SignalRuns.later (SignalRuns.start {w = bare_store} (λ e. refl)) (created 0 sum_body refl))
        (written 0 7))
      refl refl (λ a b. tt)

-- The function that `effect` returns calls the cleanup each time.
dispose_twice :
    (dispose (dispose (effect bare_store 0 sum_body) 0) 0).effects 0
    ≡ some
        (record { body = sum_body; disposed = true; cleanup = true; shown = some 4; cleaned = 2 })
unfolding effect dispose luna_mbt.Wcr.Signal.call
dispose_twice = refl

-- Numbers of one digit.
abbrev digit : Text → Option ℕ
digit [] = none
digit (c ∷ s) = if nat_beq c b'0' then some 0 else if nat_beq c b'7' then some 7 else none

abbrev count_def : AttrDef ℕ
count_def = record { name = js "count"; kind = int; default = some (number 5) }

abbrev open_def : AttrDef ℕ
open_def = record { name = js "open"; kind = bool; default = none }

abbrev no_setup : List (Text × Value ℕ) → Option Text × List Text
no_setup props = (some (js "dispose"), js "cleanup" ∷ [])

abbrev connected_element : Element ℕ
connected_element = record {
  attributes = (js "count", js "7") ∷ [];
  root = some (record { is_open = true; declarative = false; contents = [] });
  props = (js "count", number 7) ∷ (js "open", flag false) ∷ [];
  dispose = some (js "dispose");
  cleanups = js "cleanup" ∷ [];
  connected = true;
  called = [];
}

life_example : IsFaithful 0 digit digit (count_def ∷ open_def ∷ []) open_root none no_setup (
    set_attribute 0 digit digit (count_def ∷ open_def ∷ []) connected_element (js "open") (some []))
unfolding connected_callback construct luna_mbt.Js.Entries.get luna_mbt.Js.Entries.has
    luna_mbt.Js.Entries.put parse_attr luna_mbt.Prelude.text_beq luna_mbt.Prelude.includes
life_example =
    Reach-IsFaithful 0 digit digit (count_def ∷ open_def ∷ []) open_root none no_setup
      (ground arith)
      (Runs.later
        (Runs.later (Runs.start ((js "count", js "7") ∷ []) none (ground arith)) (connected refl))
        (attribute_set (js "open") (some [])))
