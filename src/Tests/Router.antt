-- ===== src/Tests/Router.antt =====
-- Clicks and hovers on a link of js/loader/src/boot/router.ts.
use luna_mbt.Js.Text.{js, starts_with}
use luna_mbt.Prelude.{◌≡◌, refl, true, false, Option, none, some, [], ◌∷◌, Text}
use luna_mbt.Router.{RouterOptions, Link, Click, is_internal_link}
use luna_mbt.Router.Hover.{
  Timers, IsHovered, handle_hover, handle_leave, handle_leave-handle_hover_twice,
}

abbrev origin : Text
origin = js "https://luna.dev"

abbrev origin_of : Text → Option Text
origin_of url = some url

abbrev options : RouterOptions
options = record { link_attribute = []; prefetch_on_hover = true; spa_segments = js "app" ∷ [] }

abbrev home : Link
home = record { href = some (js "/app/home"); target = none; attributes = js "data-replace" ∷ [] }

abbrev click : Click
click = record {
  link = some home;
  meta_key = false;
  ctrl_key = false;
  shift_key = false;
  alt_key = false;
}

abbrev no_timers : Timers
no_timers = record { prefetch_timers = []; pending = []; next_timer = 1; prefetched = [] }

home-IsHovered : IsHovered origin origin_of options home (js "/app/home")
unfolding is_internal_link starts_with
home-IsHovered = record { marked = refl; leads = refl; internal = refl }

hover_twice_example :
    (handle_leave
      (handle_hover origin origin_of options
        (handle_hover origin origin_of options no_timers (some home))
        (some home))
      (some home)).pending
    ≡ (1, js "/app/home") ∷ []
hover_twice_example =
    handle_leave-handle_hover_twice origin origin_of options no_timers home (js "/app/home")
      home-IsHovered
