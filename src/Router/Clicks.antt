-- ===== src/Router/Clicks.antt =====
-- When a click is taken over.
use luna_mbt.Js.Text.{js, starts_with, contains}
use luna_mbt.Loader.Manifest.{ChunkLoader}
use luna_mbt.Prelude.{
  ◌≡◌, ◌≢◌, ◌⊎◌, Bool, true, false, Option, none, some, [], Text, text_eq, includes, none, ◌||◌,
}
use luna_mbt.Router.{RouterOptions, Link, Click}
use luna_mbt.Router.Routed.{IsRouted}

-- A URL that begins with a scheme of the web, or with two slashes
pub data IsAbsolute (href : Text) : Type 0 where
  http : starts_with href (js "http://") ≡ true → IsAbsolute href
  https : starts_with href (js "https://") ≡ true → IsAbsolute href
  protocol_relative : starts_with href (js "//") ≡ true → IsAbsolute href

module _ (origin : Text) (origin_of : Text → Option Text) where
  -- A link within the site: an absolute URL of its origin, a path from its root, or a relative one,
  -- that is one without a colon (which would make its beginning the name of a scheme).
  pub data IsInternal (href : Text) : Type 0 where
    absolute : IsAbsolute href → origin_of href ≡ some origin → IsInternal href
    rooted : ¬ IsAbsolute href → starts_with href (js "/") ≡ true → IsInternal href
    relative : ¬ IsAbsolute href → contains href (js ":") ≡ false → IsInternal href

  begins_absolute : Text → Bool
  begins_absolute href =
      starts_with href (js "http://")
      || (starts_with href (js "https://") || starts_with href (js "//"))

  -- All that a click must have to be taken over towards `href`.
  pub record IsTaken (o : RouterOptions) (l : ChunkLoader) (pathname : Text) (e : Click)
      (href : Text) (replace : Bool) : Type 0 where
    pub link : Link
    pub on_link : e.link ≡ some link
    pub marked : (o.link_attribute ≡ []) ⊎ (includes link.attributes o.link_attribute ≡ true)
    pub leads : link.href ≡ some href
    pub nonempty : href ≢ []
    pub internal : IsInternal href
    pub meta_up : e.meta_key ≡ false
    pub ctrl_up : e.ctrl_key ≡ false
    pub shift_up : e.shift_key ≡ false
    pub alt_up : e.alt_key ≡ false
    pub same_window : (link.target ≡ none) ⊎ (link.target ≡ some [])
    pub routed : IsRouted o l pathname href
    pub replaces : replace ≡ includes link.attributes (js "data-replace")
