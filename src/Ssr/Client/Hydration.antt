-- ===== src/Ssr/Client/Hydration.antt =====
-- The listeners that insertions of an element leave on its shadow tree.
use luna_mbt.Js.Entries.{get}
use luna_mbt.Prelude.{
  ℕ, ◌≡◌, refl, ap, ◌∙◌, ◌+◌, ◌*◌, count, count-append, inl, inr, true, false, Option, none, some,
  List, [], ◌∷◌, ◌++◌, arith, Text, text_eq, Option-cases,
}
use luna_mbt.Ssr.Renderer.{CssStrategy, adoptable}
use luna_mbt.Ssr.Client.Counts.{is_listener, listeners_count, attributes_count, count-event_types}
use luna_mbt.Ssr.Client.{
  Payload, Listener, Component, Element, event_types, listeners_on, emit_all, new_listeners,
  connected_callback, adopt, set_state, emit, dispatch, react,
}

module _ {S : Type 0} (c : Component S) (bound : Text → Text → List (ℕ × Text)) where
  adopt_listeners :
      (css : CssStrategy) (el : Element S)
      → ((adopt c bound css el).listeners ≡ el.listeners)
        × ((adopt c bound css el).shadow ≡ el.shadow)
        × ((adopt c bound css el).is_ssr ≡ el.is_ssr)
  adopt_listeners adoptable el = (refl, refl, refl)
  adopt_listeners _ el = (refl, refl, refl)

  -- An element that rendered itself, with as many listeners on each node, for each event and each
  -- handler, as its markup has `data-on-…` attributes.
  pub record IsOwn (el : Element S) : Type 0 where
    pub by_client : el.is_ssr ≡ false
    pub once :
        (n : ℕ) (event handler : Text)
        → listeners_count el.listeners n event handler
          ≡ attributes_count bound el.shadow n event handler

  IsOwn-new_listeners :
      (el : Element S)
      → el.is_ssr ≡ false
      → el.listeners ≡ new_listeners bound el.shadow event_types
      → IsOwn el
  IsOwn-new_listeners el h k = record {
    by_client = h;
    once = λ n event handler.
        ap (λ ls. listeners_count ls n event handler) k
        ∙ count-event_types bound el.shadow n event handler;
  }

  connected_callback-IsOwn :
      (el : Element S) → el.is_ssr ≡ false → IsOwn (connected_callback c bound el)
  unfolding connected_callback
  connected_callback-IsOwn el h =
      IsOwn-new_listeners (connected_callback c bound el)
        (ground (arith, adopt_listeners el.css_strategy el)) (ground arith)

  emit-IsOwn :
      (name : Text) (payload : Payload) (el : Element S)
      → IsOwn el
      → IsOwn (emit c bound name payload el)
  unfolding emit set_state
  emit-IsOwn name payload el h = elim (Option-cases (get c.handlers name)) [
    | inl e ↦ rw (e, emit) h
    | inr (handler, e) ↦ elim (Option-cases (handler el.state payload)) [
      | inl same ↦ rw (e, emit, same) h
      | inr (new_state, changed) ↦
          rw (e, emit, changed)
            (IsOwn-new_listeners (set_state c bound el new_state) h.by_client refl)
    ]
  ]

  emit_all-IsOwn :
      (ls : List Listener) (payload : Payload) (el : Element S)
      → IsOwn el
      → IsOwn (emit_all c bound ls payload el)
  unfolding emit_all
  emit_all-IsOwn [] payload el h = h
  emit_all-IsOwn (l ∷ ls) payload el h =
      emit_all-IsOwn ls payload (emit c bound l.handler payload el)
        (emit-IsOwn l.handler payload el h)

  dispatch-IsOwn :
      (listeners : List Listener) (path : List ℕ) (payload : Payload) (el : Element S)
      → IsOwn el
      → IsOwn (dispatch c bound listeners path payload el)
  unfolding dispatch
  dispatch-IsOwn listeners [] payload el h = h
  dispatch-IsOwn listeners (n ∷ path) payload el h =
      let ls = listeners_on listeners payload.type n in
      dispatch-IsOwn listeners path payload (emit_all c bound ls payload el)
        (emit_all-IsOwn ls payload el h)

  -- An element that rendered itself has, over any sequence of insertions and events, on each node of
  -- its current markup and for each event of `EVENT_TYPES` and each handler of a non-empty name, as
  -- many listeners as the node has `data-on-…` attributes of the event that name the handler, and no
  -- other listeners.
  pub react-IsOwn :
      (acts : List (Option (List ℕ × Payload))) (el : Element S)
      → IsOwn el
      → IsOwn (react c bound acts el)
  unfolding react
  react-IsOwn [] el h = h
  react-IsOwn (none ∷ acts) el h =
      react-IsOwn acts (connected_callback c bound el) (connected_callback-IsOwn el h.by_client)
  react-IsOwn (some (path, payload) ∷ acts) el h =
      react-IsOwn acts (dispatch c bound el.listeners path payload el)
        (dispatch-IsOwn el.listeners path payload el h)

  connected_callback-ssr :
      (el : Element S)
      → el.is_ssr ≡ true
      → ((connected_callback c bound el).listeners
          ≡ el.listeners ++ new_listeners bound el.shadow event_types)
        × ((connected_callback c bound el).shadow ≡ el.shadow)
        × ((connected_callback c bound el).is_ssr ≡ true)
  unfolding connected_callback
  connected_callback-ssr el h = ground (arith, adopt_listeners el.css_strategy el)

  count-ssr :
      (el : Element S) (n : ℕ) (event handler : Text)
      → el.is_ssr ≡ true
      → listeners_count (connected_callback c bound el).listeners n event handler
        ≡ listeners_count el.listeners n event handler
          + attributes_count bound el.shadow n event handler
  count-ssr el n event handler h =
      ap (λ ls. listeners_count ls n event handler) (connected_callback-ssr el h).0
      ∙ count-append (is_listener n event handler) el.listeners
          (new_listeners bound el.shadow event_types)
      ∙ ap (λ k. listeners_count el.listeners n event handler + k)
          (count-event_types bound el.shadow n event handler)

  -- Inserting a server-rendered element, which has no listeners yet, gives each node, for each event
  -- of `EVENT_TYPES` and each handler of a non-empty name, as many listeners as the node has
  -- `data-on-…` attributes of the event that name the handler; a second insertion, as
  -- `hydrateElement` makes it, leaves twice as many on the same markup.
  pub connected_callback_twice :
      (el : Element S) (n : ℕ) (event handler : Text)
      → el.is_ssr ≡ true
      → el.listeners ≡ []
      → let once = connected_callback c bound el in
        let twice = connected_callback c bound once in
        let attributes = attributes_count bound el.shadow n event handler in
        (listeners_count once.listeners n event handler ≡ attributes)
        × (listeners_count twice.listeners n event handler ≡ 2 * attributes)
        × (twice.shadow ≡ el.shadow)
  unfolding count
  connected_callback_twice el n event handler ssr new =
      let (listeners, markup, still) = connected_callback-ssr el ssr in
      let again = connected_callback-ssr (connected_callback c bound el) still in
      let none_yet = ap (λ ls. listeners_count ls n event handler) new in
      let first = count-ssr el n event handler ssr in
      let second = count-ssr (connected_callback c bound el) n event handler still in
      let same = ap (λ html. attributes_count bound html n event handler) markup in
      (omega arith, omega arith, again.1 ∙ markup)
