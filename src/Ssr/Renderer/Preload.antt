-- ===== src/Ssr/Renderer/Preload.antt =====
-- Which stylesheets are collected for preloading.
use luna_mbt.Js.Keys.{includes-add, add-IsDistinct}
use luna_mbt.Prelude.{
  ◌≡◌, refl, Bool, false, ◌||◌, Option, none, some, List, [], ◌∷◌, ◌++◌, arith, Text, text_eq, ◌==◌,
  includes, IsDistinct, any,
}
use luna_mbt.Ssr.Renderer.{
  CssStrategy, link, link_preload, ComponentDef, Renderer, given_url, choose_style, render_styles,
  render, render_each,
}

-- The component has a stylesheet, whose full URL is `u`.
abbrev pub uses_url : Text → Text → Option Text → Bool
uses_url base u none = false
uses_url base u (some url) = (base ++ url) == u

abbrev pub preloads : CssStrategy → Text → Text → Option Text → Bool
preloads link_preload base u url = uses_url base u url
preloads _ base u url = false

choose_style-includes :
    (r : Renderer) (styles : Text) (css : CssStrategy) (url : Option Text) (u : Text)
    → includes (choose_style r styles css url).1.collected u
      ≡ (includes r.collected u || preloads css r.base_url u url)
unfolding choose_style
choose_style-includes r styles link_preload (some url) u =
    includes-add r.collected (r.base_url ++ url) u
choose_style-includes r styles link_preload none u = ground arith
choose_style-includes r styles _ url u = ground arith

choose_style-same :
    (r : Renderer) (styles : Text) (css : CssStrategy) (url : Option Text)
    → ((choose_style r styles css url).1.css_strategy ≡ r.css_strategy)
      × ((choose_style r styles css url).1.base_url ≡ r.base_url)
unfolding choose_style
choose_style-same r styles link_preload (some url) = (refl, refl)
choose_style-same r styles link (some url) = (refl, refl)
choose_style-same r styles _ url = (refl, refl)

choose_style-IsDistinct :
    (r : Renderer) (styles : Text) (css : CssStrategy) (url : Option Text)
    → IsDistinct r.collected
    → IsDistinct (choose_style r styles css url).1.collected
unfolding choose_style
choose_style-IsDistinct r styles link_preload (some url) h =
    add-IsDistinct r.collected (r.base_url ++ url) h
choose_style-IsDistinct r styles link (some url) h = h
choose_style-IsDistinct r styles _ url h = h

module _ {S : Type 0} (json : S → Text) where
  -- The component of an item refers to the stylesheet `u`, under the renderer's strategy.
  abbrev pub item_preloads : CssStrategy → Text → Text → ComponentDef S × S × Option Text → Bool
  item_preloads css base u item = preloads css base u (given_url item.0.styles_url)

  -- After any sequence of renders the collected URLs are the old ones and exactly those of the
  -- rendered components that have a stylesheet, the base URL in front, if the strategy is
  -- `link-preload`; under each other strategy nothing is collected.
  pub render_each-includes :
      (r : Renderer) (items : List (ComponentDef S × S × Option Text)) (u : Text)
      → includes (render_each json r items).1.collected u
        ≡ (includes r.collected u || any (item_preloads r.css_strategy r.base_url u) items)
  unfolding render_each render render_styles any
  render_each-includes r [] u = ground arith
  render_each-includes r ((component, state, children) ∷ items) u =
      let url = given_url component.styles_url in
      let r' = (choose_style r component.styles r.css_strategy url).1 in
      let same = choose_style-same r component.styles r.css_strategy url in
      let first = choose_style-includes r component.styles r.css_strategy url u in
      ground (arith, same, first, render_each-includes r' items u)

  -- No URL is collected twice, so `getPreloadTags` has one tag for each stylesheet.
  render_each-IsDistinct :
      (r : Renderer) (items : List (ComponentDef S × S × Option Text))
      → IsDistinct r.collected
      → IsDistinct (render_each json r items).1.collected
  unfolding render_each render render_styles
  render_each-IsDistinct r [] h = h
  render_each-IsDistinct r ((component, state, children) ∷ items) h =
      let url = given_url component.styles_url in
      render_each-IsDistinct (choose_style r component.styles r.css_strategy url).1 items
        (choose_style-IsDistinct r component.styles r.css_strategy url h)
