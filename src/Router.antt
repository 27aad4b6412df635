-- ===== src/Router.antt =====
-- `MinimalRouter` of js/loader/src/boot/router.ts: which clicks it takes over, and its prefetch
-- timers. The URL parser is a parameter.
pub mod Clicks
pub mod Hover
pub mod Navigation
pub mod Hybrid
pub mod Spa
pub mod Routed
use luna_mbt.Js.Text.{js, is_empty, starts_with, contains}
use luna_mbt.Loader.Manifest.{SegmentRef, ChunkLoader, is_hierarchical}
use luna_mbt.Loader.Routes.{get_chunks_for_path, get_segment_info}
use luna_mbt.Prelude.{
  ℕ, Bool, true, false, not, ◌&&◌, ◌||◌, Option, none, some, List, [], ◌∷◌, ◌++◌, Text, text_eq,
  ◌==◌, if◌then◌else◌, any, includes,
}

pub record RouterOptions : Type 0 where
  pub link_attribute : Text
  pub prefetch_on_hover : Bool
  pub spa_segments : List Text

-- The link that `closest(linkSelector)` finds: its `href`, its `target` and its attributes' names.
pub record Link : Type 0 where
  pub href : Option Text
  pub target : Option Text
  pub attributes : List Text

pub record Click : Type 0 where
  pub link : Option Link
  pub meta_key : Bool
  pub ctrl_key : Bool
  pub shift_key : Bool
  pub alt_key : Bool

-- A value that is set and not the empty string.
abbrev pub given : Option Text → Option Text
given none = none
given (some s) = if is_empty s then none else some s

abbrev pub is_spa : Option SegmentRef → Bool
is_spa none = false
is_spa (some r) = r.spa

-- The check of `linkAttribute`
abbrev pub has_link_attribute : RouterOptions → Link → Bool
has_link_attribute o link = is_empty o.link_attribute || includes link.attributes o.link_attribute

abbrev pub has_modifier : Click → Bool
has_modifier e = e.meta_key || (e.ctrl_key || (e.shift_key || e.alt_key))

abbrev pub is_unset : Option Text → Bool
is_unset none = true
is_unset (some s) = is_empty s

-- `isSpaNavigation`, from the page `pathname` to `href`
unfoldable pub is_spa_navigation : RouterOptions → ChunkLoader → Text → Text → Bool
is_spa_navigation o l pathname href =
    is_spa (get_segment_info l href)
    || (is_spa (get_segment_info l pathname)
        || any (λ s. starts_with href (b'/' ∷ (s ++ js "/"))) o.spa_segments)

abbrev pub has_any : List Text → Bool
has_any [] = false
has_any (c ∷ cs) = true

module _ (origin : Text) (origin_of : Text → Option Text) where
  abbrev same_origin : Option Text → Bool
  same_origin none = false
  same_origin (some o) = o == origin

  -- `isInternalLink`; `origin_of` is `new URL(href, origin).origin`, `none` where it throws
  unfoldable pub is_internal_link : Text → Bool
  is_internal_link href =
      if starts_with href (js "http://")
        || (starts_with href (js "https://") || starts_with href (js "//"))
      then same_origin (origin_of href)
      else starts_with href (js "/") || not (contains href (js ":"))

  -- `handleClick`: the target of the navigation and whether it replaces the history entry, or
  -- nothing where the browser follows the link.
  unfoldable pub handle_click : RouterOptions → ChunkLoader → Text → Click → Option (Text × Bool)
  unfolding is_spa_navigation
  handle_click o l pathname e = elim e.link [
    | none ↦ none
    | some link ↦ if not (has_link_attribute o link) then none else elim (given link.href) [
      | none ↦ none
      | some href ↦
          if not (is_internal_link href)
          then none
          else if has_modifier e
          then none
          else if not (is_unset link.target)
          then none
          else if not (is_spa_navigation o l pathname href)
              && not (is_hierarchical l)
              && not (has_any (get_chunks_for_path l href))
          then none
          else some (href, includes link.attributes (js "data-replace"))
    ]
  ]
