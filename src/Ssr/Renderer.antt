-- ===== src/Ssr/Renderer.antt =====
-- `createSSRRenderer` of js/wcssr/src/server.ts, and the types of js/wcssr/src/types.ts that it
-- uses. The set that the closure keeps is a field of the renderer; `render` returns it changed.
-- `JSON.stringify`, the default of `serialize`, is the argument `json`.
pub mod Preload
use luna_mbt.Js.Keys.{add}
use luna_mbt.Js.Text.{js, is_empty, join}
use luna_mbt.Prelude.{Option, none, some, List, [], ◌∷◌, ◌++◌, map, Text, text_eq, if◌then◌else◌}
use luna_mbt.Ssr.Escape.{escape_attr, escape_json}

-- `CSSStrategy`
pub data CssStrategy : Type 0 where
  inline link link_preload adoptable : CssStrategy

-- The part of `ComponentDef` that the server reads.
pub record ComponentDef (S : Type 0) : Type 0 where
  pub name : Text
  pub styles : Text
  pub styles_url : Option Text
  pub render : S → Text
  pub serialize : Option (S → Text)

pub record Renderer : Type 0 where
  pub css_strategy : CssStrategy
  pub base_url : Text
  -- `collectedStyleUrls`
  pub collected : List Text

abbrev pub strategy_name : CssStrategy → Text
strategy_name inline = js "inline"
strategy_name link = js "link"
strategy_name link_preload = js "link-preload"
strategy_name adoptable = js "adoptable"

abbrev pub style_tag : Text → Text
style_tag css = js "<style>" ++ (css ++ js "</style>")

abbrev pub stylesheet_tag : Text → Text
stylesheet_tag url = js "<link rel=\"stylesheet\" href=\"" ++ (url ++ js "\">")

-- A stylesheet URL that is set and not the empty string.
abbrev pub given_url : Option Text → Option Text
given_url none = none
given_url (some url) = if is_empty url then none else some url

-- The `switch` of `renderStyles`
unfoldable pub choose_style : Renderer → Text → CssStrategy → Option Text → Text × Renderer
choose_style r styles inline url = (style_tag styles, r)
choose_style r styles link (some url) = (stylesheet_tag (r.base_url ++ url), r)
choose_style r styles link none = (style_tag styles, r)
choose_style r styles link_preload (some url) = (
  stylesheet_tag (r.base_url ++ url),
  record r { collected = add r.collected (r.base_url ++ url) },
)
choose_style r styles link_preload none = (style_tag styles, r)
choose_style r styles adoptable url = (js "<style>:host{display:block}</style>", r)

-- `renderStyles`
unfoldable pub render_styles : Renderer → Text → Option Text → Text × Renderer
unfolding choose_style
render_styles r styles styles_url = choose_style r styles r.css_strategy (given_url styles_url)

abbrev pub or_default {ℓ} : {A : Type ℓ} → A → Option A → A
or_default d none = d
or_default d (some a) = a

-- The element around a rendered component: `data` is the escaped state.
unfoldable pub element_html : Text → Text → Text → Text → Text → Text → Text
element_html name data_state css style html children =
    js "<"
    ++ (name
        ++ (js " data-state=\""
            ++ (data_state
                ++ (js "\" data-css=\""
                    ++ (css
                        ++ (js "\">\n  <template shadowrootmode=\"open\">\n    "
                            ++ (style
                                ++ (js "\n    "
                                    ++ (html
                                        ++ (js "\n  </template>\n  "
                                            ++ (children
                                                ++ (js "\n</" ++ (name ++ js ">")))))))))))))

module _ {S : Type 0} (json : S → Text) where
  -- `render`
  unfoldable pub render : Renderer → ComponentDef S → S → Option Text → Text × Renderer
  render r component state children =
      let serialized = escape_attr (escape_json (or_default json component.serialize state)) in
      let html = component.render state in
      let (style, r') = render_styles r component.styles component.styles_url in
      (
        element_html component.name serialized (strategy_name r.css_strategy) style html
            (or_default [] children),
        r',
      )

  -- Components rendered one after the other, with the renderer that remains.
  unfoldable pub render_each :
      Renderer → List (ComponentDef S × S × Option Text) → List Text × Renderer
  render_each r [] = ([], r)
  render_each r ((component, state, children) ∷ rest) =
      let (html, r') = render r component state children in
      let (htmls, r'') = render_each r' rest in (html ∷ htmls, r'')

abbrev pub preload_tag : Text → Text
preload_tag url = js "<link rel=\"preload\" href=\"" ++ (url ++ js "\" as=\"style\">")

abbrev preload_tags : CssStrategy → List Text → Text
preload_tags link_preload urls = join (js "\n") (map preload_tag urls)
preload_tags _ urls = []

-- `getPreloadTags`
unfoldable pub get_preload_tags : Renderer → Text
get_preload_tags r = preload_tags r.css_strategy r.collected

-- `reset`
unfoldable pub reset : Renderer → Renderer
reset r = record r { collected = [] }
