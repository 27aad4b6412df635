-- ===== src/Crawler/Targets.antt =====
-- The targets of a page's actions and the choice among them, in js/playwright-chaos/src/crawler.ts:
-- `getWeightedActionTargets`, `escapeSelector` and the selection of `performWeightedActions`. What
-- the queries find in the document is an argument (Dom). Weights are exact: those of the options are in
-- tenths, and those of the targets in units of which 2000 are one.
pub mod Choice
pub mod Weights
use luna_mbt.Crawler.Dom.{DomTarget, Dom, dom_targets, is_set, label_or_empty}
use luna_mbt.Crawler.Page.{or_else}
use luna_mbt.Crawler.State.{Platform, Crawler}
use luna_mbt.Crawler.Types.{TargetType, ActionTarget}
use luna_mbt.Js.Text.{js, is_empty, replace_char}
use luna_mbt.Prelude.{
  ℕ, ◌+◌, ◌*◌, ◌-◌, Bool, true, false, not, ◌&&◌, ◌||◌, Option, none, some, List, [], ◌∷◌, ◌++◌,
  map, Text, text_eq, ◌==◌, if◌then◌else◌, length, take, any, includes, leb, ltb,
}
use luna_mbt.Router.{given}

-- `ActionWeights`, with the defaults filled in
pub record ActionWeights : Type 0 where
  pub navigation_links : ℕ
  pub buttons : ℕ
  pub inputs : ℕ
  pub aria_interactive : ℕ
  pub visible_text : ℕ
  pub scroll : ℕ

abbrev pub default_weights : ActionWeights
default_weights = record {
  navigation_links = 30;
  buttons = 20;
  inputs = 10;
  aria_interactive = 20;
  visible_text = 15;
  scroll = 5;
}

-- A target of the list, with its role and its weight.
pub record WeightedTarget : Type 0 where
  pub target : ActionTarget
  pub role : Option Text
  pub weight : ℕ

abbrev has_role : DomTarget → Text → Bool
has_role t role = elim t.role [ none ↦ false | some r ↦ r == role ]

-- The type, and the weight that it has in the options.
unfoldable pub type_of : ActionWeights → DomTarget → TargetType × ℕ
type_of weights t =
    if t.tag == js "a"
    then (TargetType.link, weights.navigation_links)
    else if t.tag == js "button" || has_role t (js "button")
    then (TargetType.button, weights.buttons)
    else if t.tag == js "input" || (has_role t (js "textbox") || has_role t (js "searchbox"))
    then (TargetType.input, weights.inputs)
    else if is_set t.role
    then (TargetType.interactive, weights.aria_interactive)
    else (TargetType.interactive, 10)

-- The factor of a link's address, in fifths: 3 where it is neither visited nor queued, 0.2 where it
-- is visited.
abbrev pub fifths_of : Crawler → Option Text → ℕ
fifths_of s none = 5
fifths_of s (some url) =
    if not (includes s.visited url) && not (any (λ e. e.url == url) s.queue)
    then 15
    else if includes s.visited url
    then 1
    else 5

abbrev pub address : Platform → Crawler → Option Text → Option Text
address w s none = none
address w s (some href) = w.resolve href s.base_origin

abbrev pub link_factor : Platform → Crawler → DomTarget → ℕ
link_factor w s t =
    (if t.is_nav_link then 3 else 2)
    * fifths_of s (
        address w s
          (elim t.href [ none ↦ none | some href ↦ if is_empty href then none else some href ]))

unfoldable pub weight_of : Platform → ActionWeights → Crawler → DomTarget → ℕ
unfolding type_of
weight_of w weights s t =
    ((type_of weights t).1 * (if t.tag == js "a" then link_factor w s t else 10))
    * ((if t.has_visible_text then weights.visible_text else 10)
        * (if t.is_in_main_content then 3 else 2))

-- `escapeSelector`
unfoldable pub escape_selector : Text → Text
escape_selector text = take 50 (replace_char b'\n' (js " ") (replace_char b'"' (js "\\\"") text))

module _ (print : ℕ → Text) where
  unfoldable pub selector_of : DomTarget → Text
  unfolding escape_selector
  selector_of t =
      if not (is_empty t.text) && ltb (length t.text) 50
      then t.tag ++ (js ":has-text(\"" ++ (escape_selector t.text ++ js "\")"))
      else if is_set t.aria_label
      then t.tag
        ++ (js "[aria-label=\"" ++ (escape_selector (label_or_empty t.aria_label) ++ js "\"]"))
      else if is_set t.role
      then js "[role=\""
        ++ (label_or_empty t.role ++ (js "\"]:nth-of-type(" ++ (print (t.index + 1) ++ js ")")))
      else t.tag ++ (js ":nth-of-type(" ++ (print (t.index + 1) ++ js ")"))

  abbrev pub weigh : Platform → ActionWeights → Crawler → DomTarget → WeightedTarget
  unfolding weight_of selector_of
  weigh w weights s t = record {
    target = record {
      selector = selector_of t;
      name = given (some (or_else (some t.text) (label_or_empty t.aria_label)));
      type = (type_of weights t).0;
      href = t.href;
    };
    role = given t.role;
    weight = weight_of w weights s t;
  }

  abbrev pub scroll_target : ℕ → WeightedTarget
  scroll_target weight = record {
    target = record { selector = js "window"; name = none; type = TargetType.scroll; href = none };
    role = none;
    weight = weight;
  }

  -- `getWeightedActionTargets`; `none` where the page throws
  unfoldable pub get_weighted_action_targets :
      Platform → ActionWeights → Crawler → Option Dom → List WeightedTarget
  unfolding dom_targets weight_of selector_of
  get_weighted_action_targets w weights s none = scroll_target 2000 ∷ []
  get_weighted_action_targets w weights s (some dom) =
      map (weigh w weights s) (dom_targets dom) ++ scroll_target (weights.scroll * 200) ∷ []

unfoldable pub total_weight : List WeightedTarget → ℕ
total_weight [] = 0
total_weight (t ∷ ts) = t.weight + total_weight ts

-- The loop of the selection: the first target that uses up what is left of the random number.
unfoldable pub pick : ℕ → List WeightedTarget → Option WeightedTarget
pick random [] = none
pick random (t ∷ ts) =
    let rest = pick (random - t.weight) ts in if leb random t.weight then some t else rest

abbrev last_of : List WeightedTarget → Option WeightedTarget
last_of [] = none
last_of (t ∷ []) = some t
last_of (t ∷ u ∷ ts) = last_of (u ∷ ts)

-- The selected target, or the last one; none where there are none.
unfoldable pub select : ℕ → List WeightedTarget → Option WeightedTarget
unfolding pick
select random ts = elim (pick random ts) [ none ↦ last_of ts | some t ↦ some t ]
