-- ===== src/Ssr/Client.antt =====
-- The element class that `registerComponent` of js/wcssr/src/client.ts defines, as a record with
-- one function for each method. The browser is a parameter: `upgrades` gives, for a markup and an
-- event type, the elements of the parsed markup that have a `data-on-…` attribute, by their numbers
-- in the markup, and the attribute's value (`querySelectorAll` and `getAttribute`). Assigning
-- `innerHTML` drops the old nodes; an event keeps the nodes that were on its path when it was
-- dispatched, and these keep their listeners. Between renderings the markup does not change.
pub mod Laws
pub mod Counts
pub mod Hydration
use luna_mbt.Js.Entries.{get}
use luna_mbt.Js.Text.{js, is_empty}
use luna_mbt.Prelude.{
  ℕ, nat_beq, filter, ◌&&◌, Bool, true, false, Option, none, some, List, [], ◌∷◌, ◌++◌, map, Text,
  text_eq, ◌==◌, if◌then◌else◌,
}
use luna_mbt.Ssr.Escape.{escape_json, unescape_state}
use luna_mbt.Ssr.Renderer.{CssStrategy, adoptable, inline}

-- `EventPayload`, as far as the runtime passes it through.
pub record Payload : Type 0 where
  pub type : Text
  pub value : Option Text

-- A listener: its node of the shadow tree, the event type, and the handler that `emit` is given.
pub record Listener : Type 0 where
  pub node : ℕ
  pub event : Text
  pub handler : Text

-- `ComponentDef` with what the client reads; `deserialize` may throw, which is `none`. An update
-- is `none` if the handler returned the very state that it was given (`newState !== this._state`).
pub record Component (S : Type 0) : Type 0 where
  pub name : Text
  pub styles : Text
  pub initial_state : S
  pub render : S → Text
  pub handlers : List (Text × (S → Payload → Option S))
  pub deserialize : Text → Option S
  pub serialize : S → Text

pub record Element (S : Type 0) : Type 0 where
  -- `_state`, `_isSSR`, `_cssStrategy`
  pub state : S
  pub is_ssr : Bool
  pub css_strategy : CssStrategy
  -- `dataset.state`
  pub data_state : Option Text
  -- `shadowRoot.innerHTML`, the listeners on its nodes, and `adoptedStyleSheets`
  pub shadow : Text
  pub listeners : List Listener
  pub adopted : Option Text

-- `EVENT_TYPES`
abbrev pub event_types : List Text
event_types =
    js "click"
    ∷ js "input"
    ∷ js "change"
    ∷ js "keypress"
    ∷ js "keydown"
    ∷ js "keyup"
    ∷ js "submit"
    ∷ js "focus"
    ∷ js "blur"
    ∷ []

abbrev or_css : Option CssStrategy → Option CssStrategy → CssStrategy
or_css (some css) _ = css
or_css none (some css) = css
or_css none none = inline

-- The listeners for the attribute values of one event type; an empty value is skipped.
unfoldable pub listeners_for : Text → List (ℕ × Text) → List Listener
listeners_for event [] = []
listeners_for event ((n, handler) ∷ rest) =
    if is_empty handler
    then listeners_for event rest
    else record { node = n; event = event; handler = handler } ∷ listeners_for event rest

-- The listeners that a node has for an event, in the order in which they were added.
unfoldable pub listeners_on : List Listener → Text → ℕ → List Listener
listeners_on listeners event n = filter (λ l. nat_beq l.node n && (l.event == event)) listeners

module _ (bound : Text → Text → List (ℕ × Text)) where
  -- The loop of `attachEventListeners` over the event types: the listeners that it adds.
  unfoldable pub new_listeners : Text → List Text → List Listener
  unfolding listeners_for
  new_listeners html [] = []
  new_listeners html (event ∷ events) =
      listeners_for event (bound html event) ++ new_listeners html events

module _ {S : Type 0} (c : Component S) where
  -- The state that the constructor restores from `dataset.state`; an empty text counts as absent.
  unfoldable pub restore : Option Text → S
  restore none = c.initial_state
  restore (some text) =
      if is_empty text then c.initial_state else elim (c.deserialize (unescape_state text)) [
        | some state ↦ state
        | none ↦ c.initial_state
      ]

  -- The constructor. `root` is the markup of the declarative shadow root, if there is one, and
  -- the strategies are those of `dataset.css` and of the registration's options.
  unfoldable pub construct :
      Option Text → Option CssStrategy → Option CssStrategy → Option Text → Element S
  construct root data_css option_css data_state = record {
    state = restore data_state;
    is_ssr = elim root [ none ↦ false | some _ ↦ true ];
    css_strategy = or_css data_css option_css;
    data_state = data_state;
    shadow = elim root [ none ↦ [] | some html ↦ html ];
    listeners = [];
    adopted = none;
  }

  abbrev pub style_html : CssStrategy → Text
  style_html adoptable = []
  style_html _ = js "<style>" ++ (c.styles ++ js "</style>")

  module _ (bound : Text → Text → List (ℕ × Text)) where
    -- `attachEventListeners`
    unfoldable pub attach_event_listeners : Element S → Element S
    unfolding new_listeners
    attach_event_listeners el = record el {
      listeners = el.listeners ++ new_listeners bound el.shadow event_types;
    }

    -- `render`
    unfoldable pub render : Element S → Element S
    unfolding attach_event_listeners
    render el =
        let html = style_html el.css_strategy ++ c.render el.state in
        attach_event_listeners (record el { shadow = html; listeners = [] })

    abbrev pub adopt : CssStrategy → Element S → Element S
    adopt adoptable el = record el { adopted = some c.styles }
    adopt _ el = el

    -- `connectedCallback`; `hydrate` is `attachEventListeners`.
    unfoldable pub connected_callback : Element S → Element S
    unfolding render
    connected_callback el =
        let el' = adopt el.css_strategy el in
        if el.is_ssr then attach_event_listeners el' else render el'

    -- `setState`
    unfoldable pub set_state : Element S → S → Element S
    unfolding render
    set_state el new_state =
        render
          (record el { state = new_state; data_state = some (escape_json (c.serialize new_state)) })

    -- `emit`
    unfoldable pub emit : Text → Payload → Element S → Element S
    emit name payload el = elim (get c.handlers name) [
      | none ↦ el
      | some handler ↦ elim (handler el.state payload) [
        | none ↦ el
        | some new_state ↦ set_state el new_state
      ]
    ]

    -- The listeners of one node run one after the other.
    unfoldable pub emit_all : List Listener → Payload → Element S → Element S
    unfolding emit
    emit_all [] payload el = el
    emit_all (l ∷ ls) payload el = emit_all ls payload (emit l.handler payload el)

    -- An event runs, node by node along its path through the shadow tree, the listeners of its type
    -- that the nodes have.
    unfoldable pub dispatch : List Listener → List ℕ → Payload → Element S → Element S
    unfolding emit_all listeners_on
    dispatch listeners [] payload el = el
    dispatch listeners (n ∷ path) payload el =
        dispatch listeners path payload
          (emit_all (listeners_on listeners payload.type n) payload el)

    -- What the page does to an element: it is inserted into the document, or an event of one of its
    -- nodes is dispatched, with the nodes on whose listeners it calls.
    unfoldable pub react : List (Option (List ℕ × Payload)) → Element S → Element S
    unfolding dispatch connected_callback
    react [] el = el
    react (none ∷ rest) el = react rest (connected_callback el)
    react (some (path, payload) ∷ rest) el = react rest (dispatch el.listeners path payload el)
