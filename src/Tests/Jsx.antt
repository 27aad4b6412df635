-- ===== src/Tests/Jsx.antt =====
-- JSX props of js/luna/src/jsx-runtime.ts.
use luna_mbt.Js.Text.{js}
use luna_mbt.Luna.Jsx.{css_key, convert_props, handler, static}
use luna_mbt.Luna.Jsx.Style.{camel_from, camel_from-css_key}
use luna_mbt.Luna.Props.{function, object, number}
use luna_mbt.Prelude.{◌≡◌, refl, false, List, [], ◌∷◌, Text, arith}

style_example : camel_from false (css_key (js "fontSize")) ≡ js "fontSize"
style_example = camel_from-css_key (js "fontSize") (ground arith)

-- The case of a custom property is lost.
custom_property : css_key (js "--myColor") ≡ js "--my-color"
unfolding css_key
custom_property = refl

button_props :
    convert_props
      (λ v. js "0")
      ((js "onClick", function (1 ∷ []))
        ∷ (js "className", number 0)
        ∷ (js "style", object ((js "fontSize", js "1px") ∷ []))
        ∷ [])
    ≡ (js "click", handler (1 ∷ []))
      ∷ (js "class", static (js "0"))
      ∷ (js "style", static (js "font-size: 1px"))
      ∷ []
unfolding convert_props css_key luna_mbt.Js.Text.join luna_mbt.Js.Text.starts_with
    luna_mbt.Prelude.text_beq
button_props = refl
