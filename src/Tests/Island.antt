-- ===== src/Tests/Island.antt =====
-- Islands and their hot updates (js/loader/src/loader.ts, js/loader/src/hmr-client.ts), with a JSON
-- value as its text.
use luna_mbt.Island.{
  Element, Call, Loader, Setup, when_ready, when_visible, when_media, never, value, setup_trigger,
  hydrate, unload, state_parsed, imported, parse_state,
}
use luna_mbt.Island.Hmr.{bust, update_island}
use luna_mbt.Island.Once
use luna_mbt.Island.Once.{triggered, unloaded, Reach-begun}
use luna_mbt.Island.Update.{busted, calls-update_island}
use luna_mbt.Js.Text.{js}
use luna_mbt.Loader.Chunks.Once.{times}
use luna_mbt.Prelude.{
  ℕ, ◌≡◌, ◌+◌, ◌≤◌, refl, Bool, true, false, Option, none, some, List, [], ◌∷◌, ◌++◌, Text, text_eq,
  arith,
}

abbrev counter : Element
counter = record {
  id = some (js "counter");
  url = some (js "/c.js?t=1");
  state = some (js "0");
  export_name = none;
  trigger = none;
}

abbrev new_loader : Loader Text
new_loader = record { states = []; loaded = []; begun = []; unloaded = []; calls = [] }

begun_example :
    times (js "counter") (
      (hydrate
        (unload (hydrate new_loader counter false).0 (js "counter")).0
        counter
        false).0.begun)
    ≤ times (js "counter") (
        (hydrate
          (unload (hydrate new_loader counter false).0 (js "counter")).0
          counter
          false).0.unloaded)
      + 1
begun_example = Reach-begun (js "counter") (
    Once.later
      (Once.later
        (Once.later (Once.start (record { no_loaded = refl; no_begun = refl }))
          (triggered counter false))
        (unloaded (js "counter")))
      (triggered counter false))

abbrev parse : Text → Option Text
parse s = some s

abbrev text_of : Text → Option Text
text_of id = none

abbrev live_loader : Loader Text
live_loader = record {
  states = (js "counter", some (js "41")) ∷ [];
  loaded = js "counter" ∷ [];
  begun = js "counter" ∷ [];
  unloaded = [];
  calls = [];
}

update_example :
    let (page', l', r) = update_island (counter ∷ []) live_loader (js "counter") (js "2") in
    let l'' =
      (state_parsed l' (js "counter") (parse_state parse text_of (busted (js "2") counter))).0 in
    (r ≡ some (busted (js "2") counter, true))
    × ((imported l'' (busted (js "2") counter) false (js "hydrate" ∷ [])).calls
        ≡ []
          ++ record {
            url = bust (js "2") (js "/c.js?t=1");
            export_name = js "hydrate";
            state = some (js "0");
            id = js "counter";
            is_rerender = false;
          }
            ∷ [])
unfolding parse_state luna_mbt.Island.Hmr.find_island luna_mbt.Prelude.includes
    luna_mbt.Prelude.text_beq
update_example =
    calls-update_island parse text_of (counter ∷ []) live_loader (js "2") counter (some (js "0"))
      (js "hydrate" ∷ []) (js "hydrate") (ground arith) refl refl refl refl refl

bust_again : bust (js "2") (js "/c.js?t=1") ≡ js "/c.js?t=2"
unfolding bust
bust_again = refl

trigger_media :
    setup_trigger (js "media:(min-width: 1px)") false (λ q. false)
    ≡ when_media (js "(min-width: 1px)")
unfolding setup_trigger luna_mbt.Prelude.text_beq
trigger_media = refl
