-- ===== src/Ssr/Document.antt =====
-- `renderDocument`, `renderComponentInline` and `renderComponentLink` of js/wcssr/src/server.ts.
use luna_mbt.Js.Text.{js, is_empty, join}
use luna_mbt.Prelude.{Option, none, some, List, [], ◌∷◌, ◌++◌, map, Text, if◌then◌else◌}
use luna_mbt.Ssr.Escape.{escape_attr, escape_html, escape_json}

-- `DocumentOptions`, with the defaults of the destructuring filled in.
pub record DocumentOptions : Type 0 where
  pub title : Text
  pub lang : Text
  pub head : Text
  pub body : Text
  pub preload_tags : Text
  pub scripts : List Text
  pub client_runtime : Option Text

-- The options with only a body.
abbrev pub document_defaults : Text → DocumentOptions
document_defaults body = record {
  title = [];
  lang = js "en";
  head = [];
  body = body;
  preload_tags = [];
  scripts = [];
  client_runtime = none;
}

abbrev pub runtime_tags : Option Text → List Text
runtime_tags none = []
runtime_tags (some src) =
    if is_empty src
    then []
    else (js "<script type=\"module\" src=\"" ++ (src ++ js "\"></script>")) ∷ []

abbrev pub script_tag : Text → Text
script_tag src = js "<script src=\"" ++ (src ++ js "\"></script>")

unfoldable pub render_document : DocumentOptions → Text
render_document o =
    let script_tags =
      join (js "\n  ") (runtime_tags o.client_runtime ++ map script_tag o.scripts) in
    js "<!DOCTYPE html>\n<html lang=\""
    ++ (o.lang
        ++ (js
              "\">\n<head>\n  <meta charset=\"UTF-8\">\n  <meta name=\"viewport\" content=\"width=device-width, initial-scale=1.0\">\n  <title>"
            ++ (escape_html o.title
                ++ (js "</title>\n  "
                    ++ (o.preload_tags
                        ++ (js "\n  "
                            ++ (o.head
                                ++ (js "\n</head>\n<body>\n  "
                                    ++ (o.body
                                        ++ (js "\n  "
                                            ++ (script_tags ++ js "\n</body>\n</html>")))))))))))

unfoldable pub render_component_inline : Text → Text → Text → Text → Text
render_component_inline name styles state_json html =
    js "<"
    ++ (name
        ++ (js " data-state=\""
            ++ (escape_attr (escape_json state_json)
                ++ (js "\" data-css=\"inline\">\n  <template shadowrootmode=\"open\">\n    <style>"
                    ++ (styles
                        ++ (js "</style>\n    "
                            ++ (html ++ (js "\n  </template>\n</" ++ (name ++ js ">")))))))))

unfoldable pub render_component_link : Text → Text → Text → Text → Text
render_component_link name styles_url state_json html =
    js "<"
    ++ (name
        ++ (js " data-state=\""
            ++ (escape_attr (escape_json state_json)
                ++ (js
                      "\" data-css=\"link\">\n  <template shadowrootmode=\"open\">\n    <link rel=\"stylesheet\" href=\""
                    ++ (styles_url
                        ++ (js "\">\n    "
                            ++ (html ++ (js "\n  </template>\n</" ++ (name ++ js ">")))))))))
