-- ===== src/Crawler/Dom.antt =====
-- The interactive elements of a page, as `getWeightedActionTargets` of
-- js/playwright-chaos/src/crawler.ts lists them.
use luna_mbt.Crawler.Page.{or_else}
use luna_mbt.Js.Text.{js, is_empty}
use luna_mbt.Prelude.{
  ℕ, ◌+◌, Bool, true, false, not, ◌||◌, Option, none, some, List, [], ◌∷◌, ◌++◌, Text, text_eq,
  if◌then◌else◌, length, take, ltb,
}

-- An element that a query finds: its tag in lower case, its trimmed text, its attributes, and
-- whether it is in a navigation or in the main contents.
pub record Element : Type 0 where
  pub tag : Text
  pub text : Text
  pub aria_label : Option Text
  pub role : Option Text
  pub placeholder : Option Text
  pub href : Text
  pub in_navigation : Bool
  pub in_main : Bool

-- What the four queries find, in order.
pub record Dom : Type 0 where
  pub links : List Element
  pub buttons : List Element
  pub interactive : List Element
  pub inputs : List Element

pub record DomTarget : Type 0 where
  pub tag : Text
  pub text : Text
  pub role : Option Text
  pub aria_label : Option Text
  pub index : ℕ
  pub has_visible_text : Bool
  pub is_nav_link : Bool
  pub href : Option Text
  pub is_in_main_content : Bool

-- A string that is missing or empty counts as none.
abbrev pub is_set : Option Text → Bool
is_set none = false
is_set (some s) = not (is_empty s)

abbrev pub label_or_empty : Option Text → Text
label_or_empty none = []
label_or_empty (some s) = s

-- `text || ariaLabel || ""`
abbrev text_of : Element → Text
text_of el = if is_empty el.text then label_or_empty el.aria_label else el.text

abbrev is_listed : Element → Bool
is_listed el = ltb (length el.text) 100 || is_set el.aria_label

abbrev link_target : ℕ → Element → DomTarget
link_target i el = record {
  tag = js "a";
  text = text_of el;
  role = el.role;
  aria_label = el.aria_label;
  index = i;
  has_visible_text = not (is_empty el.text);
  is_nav_link = el.in_navigation;
  href = some el.href;
  is_in_main_content = el.in_main;
}

abbrev button_target : ℕ → Element → DomTarget
button_target i el = record {
  tag = js "button";
  text = text_of el;
  role = some (or_else el.role (js "button"));
  aria_label = el.aria_label;
  index = i;
  has_visible_text = not (is_empty el.text);
  is_nav_link = false;
  href = none;
  is_in_main_content = el.in_main;
}

abbrev interactive_target : ℕ → Element → DomTarget
interactive_target i el = record {
  tag = el.tag;
  text = text_of el;
  role = el.role;
  aria_label = el.aria_label;
  index = i;
  has_visible_text = not (is_empty el.text);
  is_nav_link = false;
  href = none;
  is_in_main_content = el.in_main;
}

abbrev input_target : ℕ → Element → DomTarget
input_target i el = record {
  tag = js "input";
  text = or_else el.aria_label (label_or_empty el.placeholder);
  role = some (or_else el.role (js "input"));
  aria_label = el.aria_label;
  index = i;
  has_visible_text = false;
  is_nav_link = false;
  href = none;
  is_in_main_content = el.in_main;
}

-- The loop over what one query finds, from the index `i` on.
unfoldable pub collect :
    (ℕ → Element → DomTarget) → (Element → Bool) → ℕ → List Element → List DomTarget
collect target listed i [] = []
collect target listed i (el ∷ els) =
    let rest = collect target listed (i + 1) els in if listed el then target i el ∷ rest else rest

-- What the page evaluates.
unfoldable pub dom_targets : Dom → List DomTarget
unfolding collect
dom_targets dom = take 50 (
    collect link_target is_listed 0 dom.links
    ++ (collect button_target is_listed 0 dom.buttons
        ++ (collect interactive_target (λ el. true) 0 dom.interactive
            ++ collect input_target (λ el. true) 0 dom.inputs)))
