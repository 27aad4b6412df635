-- ===== src/Island/Update.antt =====
-- What a hot update gives an island (js/loader/src/hmr-client.ts, js/loader/src/loader.ts).
use luna_mbt.Island.{
  Element, Loader, value, attr, state_of, function_of, parse_state, hydrate, state_parsed, imported,
  unload,
}
use luna_mbt.Island.Hmr.{before_query, bust, restored, find_island, updated, update_island}
use luna_mbt.Js.Entries.{get-put_self}
use luna_mbt.Js.Keys
use luna_mbt.Js.Keys.{includes-delete_self}
use luna_mbt.Js.Text.{is_empty}
use luna_mbt.Prelude.{
  ◌≡◌, refl, sym, ap, ◌∙◌, subst, inl, inr, true, false, Option, none, some, List, [], ◌∷◌, ◌++◌,
  arith, Text, text_eq, nat_beq, includes, IsDistinct, Bool-cases,
}

-- A second update of the same island replaces the time of the first.
pub bust-bust : (first second url : Text) → bust second (bust first url) ≡ bust second url
unfolding bust before_query
bust-bust first second [] = refl
bust-bust first second (c ∷ s) = elim (Bool-cases (nat_beq c b'?')) [
  | inl query ↦ rw query refl
  | inr path ↦ ground (arith, path, bust-bust first second s)
]

bust_nonempty : (timestamp url : Text) → is_empty (bust timestamp url) ≡ false
unfolding bust before_query
bust_nonempty timestamp [] = refl
bust_nonempty timestamp (c ∷ s) = ground arith

abbrev pub busted : Text → Element → Element
busted timestamp el = record el { url = some (bust timestamp (attr el.url)) }

module _ {Json : Type 0} where
  hydrate_lem :
      (l : Loader Json) (el : Element)
      → is_empty (attr el.id) ≡ false
      → includes l.loaded (attr el.id) ≡ false
      → is_empty (attr el.url) ≡ false
      → hydrate l el false ≡ (
        record l { loaded = Keys.add l.loaded (attr el.id); begun = l.begun ++ attr el.id ∷ [] },
        true,
      )
  unfolding hydrate
  hydrate_lem l el named fresh there = rw (named, fresh, there) refl

  loaded-restored :
      (l : Loader Json) (id : Text) (v : Option Json)
      → ((restored l id v).loaded ≡ l.loaded) × ((restored l id v).calls ≡ l.calls)
  loaded-restored l id none = (refl, refl)
  loaded-restored l id (some v) = (refl, refl)

  imported_lem :
      (l : Loader Json) (el : Element) (exports : List Text) (name : Text)
      → function_of (attr el.export_name) exports ≡ some name
      → (imported l el false exports).calls
        ≡ l.calls
          ++ record {
            url = attr el.url;
            export_name = name;
            state = state_of l (attr el.id);
            id = attr el.id;
            is_rerender = false;
          }
            ∷ []
  unfolding imported
  imported_lem l el exports name h = rw (h, imported) refl

  abbrev rehydrated : Loader Json → Text → Loader Json
  rehydrated l id = record l { loaded = Keys.add l.loaded id; begun = l.begun ++ id ∷ [] }

  round :
      (page : List Element) (l : Loader Json) (timestamp : Text) (el : Element)
      → IsDistinct l.loaded
      → is_empty (attr el.id) ≡ false
      → is_empty (attr el.url) ≡ false
      → ((updated page l (attr el.id) timestamp (some el)).2 ≡ some (busted timestamp el, true))
        × ((updated page l (attr el.id) timestamp (some el)).1
            ≡ rehydrated
                (restored (unload l (attr el.id)).0 (attr el.id) (state_of l (attr el.id)))
                (attr el.id))
  unfolding unload
  round page l timestamp el distinct named there =
      let l1 = restored (unload l (attr el.id)).0 (attr el.id) (state_of l (attr el.id)) in
      let kept = loaded-restored (unload l (attr el.id)).0 (attr el.id) (state_of l (attr el.id)) in
      let gone : includes l1.loaded (attr el.id) ≡ false =
        subst (λ x. includes x (attr el.id) ≡ false) (sym (kept.0))
          (includes-delete_self l.loaded (attr el.id) distinct) in
      let step =
        hydrate_lem l1 (busted timestamp el) named gone (bust_nonempty timestamp (attr el.url)) in
      (rw (there, step) refl, rw (there, step) refl)

  parsed_lem :
      (l : Loader Json) (id : Text) (v : Option Json)
      → (state_of (state_parsed l id (value v)).0 id ≡ v)
        × ((state_parsed l id (value v)).0.calls ≡ l.calls)
  unfolding state_parsed
  parsed_lem l id v = (rw (get-put_self l.states id v, state_of) refl, refl)

  -- An update of the first island of the page with its id, which has a URL, hydrates it again, and
  -- once its state is parsed and its module imported, calls the module's function, of the URL with
  -- the new time, with the state that the island's attribute gives: whatever state the loader held
  -- for the island before is lost.
  pub calls-update_island :
      (parse : Text → Option Json) (text_of : Text → Option Text) (page : List Element)
      (l : Loader Json) (timestamp : Text) (el : Element) (v : Option Json) (exports : List Text)
      (name : Text)
      → IsDistinct l.loaded
      → is_empty (attr el.id) ≡ false
      → find_island page (attr el.id) ≡ some el
      → is_empty (attr el.url) ≡ false
      → parse_state parse text_of el ≡ value v
      → function_of (attr el.export_name) exports ≡ some name
      → let (page', l', r) = update_island page l (attr el.id) timestamp in
        let el' = busted timestamp el in
        let l'' = (state_parsed l' (attr el.id) (parse_state parse text_of el')).0 in
        (r ≡ some (el', true))
        × ((imported l'' el' false exports).calls
            ≡ l.calls
              ++ record {
                url = bust timestamp (attr el.url);
                export_name = name;
                state = v;
                id = attr el.id;
                is_rerender = false;
              }
                ∷ [])
  unfolding update_island parse_state unload
  calls-update_island parse text_of page l timestamp el v exports name distinct named found there
        state exported =
      let r = round page l timestamp el distinct named there in
      let kept = loaded-restored (unload l (attr el.id)).0 (attr el.id) (state_of l (attr el.id)) in
      let l' = (updated page l (attr el.id) timestamp (some el)).1 in
      let done = parsed_lem l' (attr el.id) v in
      let call =
        imported_lem (state_parsed l' (attr el.id) (value v)).0 (busted timestamp el) exports name
          exported in
      let old : l'.calls ≡ l.calls = ap (λ (x : Loader Json). x.calls) (r.1) ∙ kept.1 in
      rw (found, state) (r.0, rw (done.0, done.1, old) at call)
