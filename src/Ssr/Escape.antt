-- ===== src/Ssr/Escape.antt =====
-- The escapes of js/wcssr/src/server.ts, and the inverse in the constructor of the element class
-- of js/wcssr/src/client.ts.
pub mod Html
pub mod Json
use luna_mbt.Js.Text.{js, replace_char, replace_text}
use luna_mbt.Prelude.{Text}

-- `escapeAttr`
unfoldable pub escape_attr : Text → Text
escape_attr s = replace_char b'>' (js "&gt;") (
    replace_char b'<' (js "&lt;")
      (replace_char b'"' (js "&quot;") (replace_char b'&' (js "&amp;") s)))

-- `escapeHtml`
unfoldable pub escape_html : Text → Text
escape_html s = replace_char b'\'' (js "&#39;") (
    replace_char b'"' (js "&quot;") (
      replace_char b'>' (js "&gt;")
        (replace_char b'<' (js "&lt;") (replace_char b'&' (js "&amp;") s))))

-- `escapeJson`: each escape is a backslash and five code units.
unfoldable pub escape_json : Text → Text
escape_json s =
    replace_char b'&' (js "\\u0026")
      (replace_char b'>' (js "\\u003e") (replace_char b'<' (js "\\u003c") s))

-- The three replacements on `dataset.state` before `deserialize`.
unfoldable pub unescape_state : Text → Text
unescape_state s =
    replace_text (js "\\u0026") (js "&")
      (replace_text (js "\\u003e") (js ">") (replace_text (js "\\u003c") (js "<") s))
