-- ===== src/Ssr/Client/Counts.antt =====
-- How many listeners `attachEventListeners` adds (js/wcssr/src/client.ts).
use luna_mbt.Js.Text.{is_empty}
use luna_mbt.Prelude.{
  ℕ, ◌≡◌, refl, ap, ◌∙◌, Bool, not, ◌&&◌, count, count-append, includes, IsDistinct, nat_beq,
  text_beq_iff, text_beq, if◌then◌else◌, inl, inr, List, [], ◌∷◌, arith, Text, text_eq, ◌==◌,
  Bool-cases,
}
use luna_mbt.Ssr.Client.{Listener, event_types, listeners_for, new_listeners}

-- The listeners of a node for an event that call a handler
abbrev pub is_listener : ℕ → Text → Text → Listener → Bool
is_listener n event handler l = nat_beq l.node n && (l.event == event && l.handler == handler)

abbrev pub listeners_count : List Listener → ℕ → Text → Text → ℕ
listeners_count listeners n event handler = count (is_listener n event handler) listeners

abbrev is_attribute : ℕ → Text → ℕ × Text → Bool
is_attribute n handler a = nat_beq a.0 n && (a.1 == handler)

count-listeners_for :
    (event : Text) (attributes : List (ℕ × Text)) (n : ℕ) (e handler : Text)
    → listeners_count (listeners_for event attributes) n e handler ≡ (
        if event == e && not (is_empty handler)
        then count (is_attribute n handler) attributes
        else 0)
unfolding listeners_for count
count-listeners_for event [] n e handler = ground arith
count-listeners_for event ((m, g) ∷ attributes) n e handler =
    ground (arith, count-listeners_for event attributes n e handler, text_beq_iff g handler)

event_types-IsDistinct : IsDistinct event_types
unfolding includes text_beq
event_types-IsDistinct = (refl, (refl, (refl, (refl, (refl, (refl, (refl, (refl, (refl, tt)))))))))

module _ (bound : Text → Text → List (ℕ × Text)) where
  -- How many `data-on-…` attributes of the markup, of an event of `EVENT_TYPES` and on a node, name a
  -- handler, whose name is not empty.
  abbrev pub attributes_count : Text → ℕ → Text → Text → ℕ
  attributes_count html n event handler =
      if includes event_types event && not (is_empty handler)
      then count (is_attribute n handler) (bound html event)
      else 0

  count-new_listeners :
      (html : Text) (events : List Text) (n : ℕ) (e handler : Text)
      → IsDistinct events
      → listeners_count (new_listeners bound html events) n e handler ≡ (
          if includes events e && not (is_empty handler)
          then count (is_attribute n handler) (bound html e)
          else 0)
  unfolding new_listeners includes count
  count-new_listeners html [] n e handler h = refl
  count-new_listeners html (event ∷ events) n e handler (new, h) =
      count-append (is_listener n e handler) (listeners_for event (bound html event))
        (new_listeners bound html events)
      ∙ elim (Bool-cases (event == e)) [
        | inl same ↦
            let p = (text_beq_iff event e).0 same in
            ground (
              arith,
              count-listeners_for event (bound html event) n e handler,
              count-new_listeners html events n e handler h,
              ap (includes events) p,
              ap (λ x. count (is_attribute n handler) (bound html x)) p,
            )
        | inr other ↦ ground (
          arith,
          count-listeners_for event (bound html event) n e handler,
          count-new_listeners html events n e handler h,
        )
      ]

  pub count-event_types :
      (html : Text) (n : ℕ) (e handler : Text)
      → listeners_count (new_listeners bound html event_types) n e handler
        ≡ attributes_count html n e handler
  count-event_types html n e handler =
      count-new_listeners html event_types n e handler event_types-IsDistinct
