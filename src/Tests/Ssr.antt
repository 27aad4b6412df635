-- ===== src/Tests/Ssr.antt =====
-- Escaping, rendering and hydration of js/wcssr/src on small inputs.
use luna_mbt.Js.Text.{js, is_empty, replace_char, replace_text, replace_from, starts_with}
use luna_mbt.Prelude.{
  ℕ, ◌*◌, ◌≡◌, refl, Bool, true, false, Option, none, some, List, [], ◌∷◌, Text, any, includes,
  ◌||◌, arith, text_eq,
}
use luna_mbt.Ssr.Client.{
  Component, Element, Payload, connected_callback, react, restore, new_listeners, event_types,
}
use luna_mbt.Ssr.Client.Counts.{listeners_count, attributes_count, count-event_types}
use luna_mbt.Ssr.Client.Hydration.{IsOwn, react-IsOwn, connected_callback_twice}
use luna_mbt.Ssr.Client.Laws.{IsCodec, IsSynced, react-IsSynced}
use luna_mbt.Ssr.Escape.{escape_html, escape_json, unescape_state}
use luna_mbt.Ssr.Escape.Html.{spell, html_reference, escape_html-spell}
use luna_mbt.Ssr.Escape.Json.{unescape_state-escape_json}
use luna_mbt.Ssr.Escape.Json.Sequence.{NoBackslash}
use luna_mbt.Ssr.Renderer.{inline, link_preload, ComponentDef, Renderer, render_each}
use luna_mbt.Ssr.Renderer.Preload.{item_preloads, render_each-includes}

escape_html_example : escape_html (js "<a&b>") ≡ spell html_reference (js "<a&b>")
escape_html_example = escape_html-spell (js "<a&b>")

escape_html_text : escape_html (js "<a&b>") ≡ js "&lt;a&amp;b&gt;"
unfolding escape_html replace_char
escape_html_text = refl

unescape_example :
    unescape_state (escape_json (js "{\"t\":\"<b>&\"}")) ≡ unescape_state (js "{\"t\":\"<b>&\"}")
unescape_example = unescape_state-escape_json (js "{\"t\":\"<b>&\"}")

-- A JSON text that itself has an escape: `"\\u003c"` is the JSON of the text `\u003c`, and comes
-- back as `"\<"`, which is no JSON.
corrupted : unescape_state (escape_json (js "\"\\\\u003c\"")) ≡ js "\"\\<\""
unfolding escape_json unescape_state replace_char replace_text replace_from starts_with
corrupted = refl

abbrev counter : ComponentDef Text
counter = record {
  name = js "x-counter";
  styles = js "b{}";
  styles_url = some (js "/counter.css");
  render = λ s. s;
  serialize = none;
}

abbrev renderer : Renderer
renderer = record { css_strategy = link_preload; base_url = js "/static"; collected = [] }

abbrev items : List (ComponentDef Text × Text × Option Text)
items = (counter, js "1", none) ∷ (counter, js "2", none) ∷ []

preloads_example :
    includes (render_each (λ s. s) renderer items).1.collected (js "/static/counter.css") ≡ (
      includes renderer.collected (js "/static/counter.css")
      || any (item_preloads (λ s. s) link_preload (js "/static") (js "/static/counter.css")) items)
preloads_example = render_each-includes (λ s. s) renderer items (js "/static/counter.css")

abbrev print : Bool → Text
print true = js "on"
print false = js "off"

abbrev read : Text → Option Bool
read [] = none
read (a ∷ []) = none
read (a ∷ b ∷ []) = some true
read (a ∷ b ∷ c ∷ s) = some false

abbrev toggle : Component Bool
toggle = record {
  name = js "x-toggle";
  styles = [];
  initial_state = false;
  render = print;
  handlers = (js "flip", λ s p. some true) ∷ [];
  deserialize = read;
  serialize = print;
}

-- The node 0 flips, and the node 1 within it too.
abbrev bound : Text → Text → List (ℕ × Text)
bound markup event = (0, js "flip") ∷ (1, js "flip") ∷ []

read-print : (b : Bool) → read (print b) ≡ some b
read-print true = refl
read-print false = refl

print-filled : (b : Bool) → is_empty (escape_json (print b)) ≡ false
unfolding escape_json replace_char
print-filled true = refl
print-filled false = refl

print-NoBackslash : (b : Bool) → NoBackslash (print b)
print-NoBackslash true = ground arith
print-NoBackslash false = ground arith

toggle-IsCodec : IsCodec toggle
toggle-IsCodec = record { inverse = read-print; filled = print-filled; plain = print-NoBackslash }

abbrev server_toggle : Element Bool
server_toggle = record {
  state = true;
  is_ssr = true;
  css_strategy = inline;
  data_state = some (js "on");
  shadow = js "on";
  listeners = [];
  adopted = none;
}

abbrev client_toggle : Element Bool
client_toggle = record server_toggle {
  is_ssr = false;
  listeners = new_listeners bound server_toggle.shadow event_types;
}

client_toggle-IsOwn : IsOwn toggle bound client_toggle
client_toggle-IsOwn = record {
  by_client = refl;
  once = λ n event handler. count-event_types bound server_toggle.shadow n event handler;
}

-- A second insertion, and a click on the inner node.
abbrev acts : List (Option (List ℕ × Payload))
acts = none ∷ some (1 ∷ 0 ∷ [], record { type = js "click"; value = none }) ∷ []

own_example : IsOwn toggle bound (react toggle bound acts client_toggle)
own_example = react-IsOwn toggle bound acts client_toggle client_toggle-IsOwn

twice_example :
    let once = connected_callback toggle bound server_toggle in
    let twice = connected_callback toggle bound once in
    let attributes = attributes_count bound server_toggle.shadow 1 (js "click") (js "flip") in
    (listeners_count once.listeners 1 (js "click") (js "flip") ≡ attributes)
    × (listeners_count twice.listeners 1 (js "click") (js "flip") ≡ 2 * attributes)
    × (twice.shadow ≡ server_toggle.shadow)
twice_example =
    connected_callback_twice toggle bound server_toggle 1 (js "click") (js "flip") refl refl

server_toggle-IsSynced : IsSynced toggle bound server_toggle
unfolding restore unescape_state replace_text replace_from starts_with
server_toggle-IsSynced = refl

react_example : IsSynced toggle bound (react toggle bound acts server_toggle)
react_example = react-IsSynced toggle bound acts server_toggle toggle-IsCodec server_toggle-IsSynced
