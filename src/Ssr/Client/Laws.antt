-- ===== src/Ssr/Client/Laws.antt =====
-- What the element keeps in step: its state attribute, and the listeners on its shadow tree.
use luna_mbt.Js.Entries.{get}
use luna_mbt.Js.Text.{is_empty}
use luna_mbt.Prelude.{
  ℕ, ◌≡◌, refl, false, inl, inr, Option, none, some, List, [], ◌∷◌, arith, Text, text_eq,
  Option-cases,
}
use luna_mbt.Ssr.Escape.{escape_json}
use luna_mbt.Ssr.Escape.Json.{unescape_state-escape_json_self}
use luna_mbt.Ssr.Escape.Json.Sequence.{NoBackslash}
use luna_mbt.Ssr.Renderer.{CssStrategy, adoptable}
use luna_mbt.Ssr.Client.{
  Payload, Listener, Component, Element, restore, construct, connected_callback, set_state, emit,
  emit_all, listeners_on, dispatch, adopt, react,
}

-- What is asked of a component's `serialize` and `deserialize`: they are inverse, and the text is
-- not empty and has no backslash.
pub record IsCodec {S : Type 0} (c : Component S) : Type 0 where
  pub inverse : (s : S) → c.deserialize (c.serialize s) ≡ some s
  pub filled : (s : S) → is_empty (escape_json (c.serialize s)) ≡ false
  pub plain : (s : S) → NoBackslash (c.serialize s)

module _ {S : Type 0} (c : Component S) (bound : Text → Text → List (ℕ × Text)) where
  -- A new element made from the state attribute would have the element's state.
  abbrev pub IsSynced : Element S → Type 0
  IsSynced el = restore c el.data_state ≡ el.state

  restore-serialize : IsCodec c → (s : S) → restore c (some (escape_json (c.serialize s))) ≡ s
  unfolding restore
  restore-serialize k s =
      ground (
        arith,
        k.filled s,
        k.inverse s,
        unescape_state-escape_json_self (c.serialize s) (k.plain s),
      )

  construct-IsSynced :
      (root : Option Text) (data_css option_css : Option CssStrategy) (data_state : Option Text)
      → IsSynced (construct c root data_css option_css data_state)
  unfolding construct
  construct-IsSynced root data_css option_css data_state = refl

  adopt_kept :
      (css : CssStrategy) (el : Element S)
      → ((adopt c bound css el).state ≡ el.state)
        × ((adopt c bound css el).data_state ≡ el.data_state)
        × ((adopt c bound css el).shadow ≡ el.shadow)
        × ((adopt c bound css el).listeners ≡ el.listeners)
  adopt_kept adoptable el = (refl, refl, refl, refl)
  adopt_kept _ el = (refl, refl, refl, refl)

  connected_callback_kept :
      (el : Element S)
      → ((connected_callback c bound el).state ≡ el.state)
        × ((connected_callback c bound el).data_state ≡ el.data_state)
  unfolding connected_callback
  connected_callback_kept el = ground (arith, adopt_kept el.css_strategy el)

  connected_callback-IsSynced :
      (el : Element S) → IsSynced el → IsSynced (connected_callback c bound el)
  connected_callback-IsSynced el h = ground (arith, connected_callback_kept el)

  set_state-IsSynced :
      (el : Element S) (new_state : S) → IsCodec c → IsSynced (set_state c bound el new_state)
  unfolding set_state
  set_state-IsSynced el new_state k = restore-serialize k new_state

  emit-IsSynced :
      (name : Text) (payload : Payload) (el : Element S)
      → IsCodec c
      → IsSynced el
      → IsSynced (emit c bound name payload el)
  unfolding emit
  emit-IsSynced name payload el k h = elim (Option-cases (get c.handlers name)) [
    | inl e ↦ rw (e, emit) h
    | inr (handler, e) ↦ elim (Option-cases (handler el.state payload)) [
      | inl same ↦ rw (e, emit, same) h
      | inr (new_state, changed) ↦ rw (e, emit, changed) (set_state-IsSynced el new_state k)
    ]
  ]

  emit_all-IsSynced :
      (ls : List Listener) (payload : Payload) (el : Element S)
      → IsCodec c
      → IsSynced el
      → IsSynced (emit_all c bound ls payload el)
  unfolding emit_all
  emit_all-IsSynced [] payload el k h = h
  emit_all-IsSynced (l ∷ ls) payload el k h =
      emit_all-IsSynced ls payload (emit c bound l.handler payload el) k
        (emit-IsSynced l.handler payload el k h)

  dispatch-IsSynced :
      (listeners : List Listener) (path : List ℕ) (payload : Payload) (el : Element S)
      → IsCodec c
      → IsSynced el
      → IsSynced (dispatch c bound listeners path payload el)
  unfolding dispatch
  dispatch-IsSynced listeners [] payload el k h = h
  dispatch-IsSynced listeners (n ∷ path) payload el k h =
      let ls = listeners_on listeners payload.type n in
      dispatch-IsSynced listeners path payload (emit_all c bound ls payload el) k
        (emit_all-IsSynced ls payload el k h)

  -- Where the component's serializer and deserializer are inverse and write neither backslashes nor
  -- the empty text, and an element's state is the one that a new element would restore from its
  -- `data-state` attribute, it still is after any sequence of insertions and events, whatever nodes
  -- the events reach.
  pub react-IsSynced :
      (acts : List (Option (List ℕ × Payload))) (el : Element S)
      → IsCodec c
      → IsSynced el
      → IsSynced (react c bound acts el)
  unfolding react
  react-IsSynced [] el k h = h
  react-IsSynced (none ∷ acts) el k h =
      react-IsSynced acts (connected_callback c bound el) k (connected_callback-IsSynced el h)
  react-IsSynced (some (path, payload) ∷ acts) el k h =
      react-IsSynced acts (dispatch c bound el.listeners path payload el) k
        (dispatch-IsSynced el.listeners path payload el k h)
