-- ===== src/Router/Spa.antt =====
-- `SpaRouter` of js/loader/src/router/spa.ts. What a regular expression matches is a parameter, and
-- so is the type of scroll positions. A navigation is two steps, up to the `await` of the render
-- function and after it.
pub mod First
pub mod Restore
use luna_mbt.Js.Entries.{get, put}
use luna_mbt.Js.Text.{js, is_empty, ends_with}
use luna_mbt.Prelude.{
  ℕ, Bool, true, false, not, ◌&&◌, ◌||◌, Option, none, some, List, [], ◌∷◌, ◌++◌, foldl, Text,
  text_eq, leb, nat_beq, any, if◌then◌else◌,
}

-- `SpaRouteConfig`, with the render function by its name and a regular expression by its source.
pub record SpaRouteConfig : Type 0 where
  pub path : Text
  pub render : Text
  pub pattern : Option Text

-- `SpaRouterOptions`
pub record SpaRouterOptions : Type 0 where
  pub container_selector : Option Text
  pub scroll_restoration : Option Bool
  pub fallback_path : Option Text

pub record NavigateEvent : Type 0 where
  pub path : Text
  pub is_pop_state : Bool

pub record SpaRouter (Position : Type 0) : Type 0 where
  pub container_selector : Text
  pub scroll_restoration : Bool
  pub fallback_path : Option Text
  pub route_configs : List SpaRouteConfig
  pub scroll_positions : List (Text × Position)
  pub subscribed : Bool
  pub current_path : Text

abbrev pub or_else {ℓ} : {A : Type ℓ} → Option A → A → A
or_else none b = b
or_else (some a) b = a

unfoldable pub construct : {Position : Type 0} → SpaRouterOptions → SpaRouter Position
construct o = record {
  container_selector = or_else o.container_selector (js "#app");
  scroll_restoration = or_else o.scroll_restoration true;
  fallback_path = o.fallback_path;
  route_configs = [];
  scroll_positions = [];
  subscribed = false;
  current_path = [];
}

-- The first `replace` of `pathToRegex`: all special characters but the star are escaped.
unfoldable pub escape_special : Text → Text
escape_special [] = []
escape_special (c ∷ s) =
    (if any (nat_beq c) (js ".+?^${}()|[]\\") then b'\\' ∷ c ∷ [] else c ∷ []) ++ escape_special s

-- `[a-zA-Z_]`
abbrev pub is_name_start : ℕ → Bool
is_name_start c = (leb b'a' c && leb c b'z') || ((leb b'A' c && leb c b'Z') || nat_beq c b'_')

-- `[a-zA-Z0-9_]`
abbrev pub is_name_part : ℕ → Bool
is_name_part c = is_name_start c || (leb b'0' c && leb c b'9')

abbrev pub has_name : Text → Bool
has_name [] = false
has_name (c ∷ s) = is_name_start c

-- The second `replace`: a `:name` becomes a named group. The flag says that the text stands inside
-- of a name.
unfoldable pub name_groups : Bool → Text → Text
name_groups inside [] = if inside then js ">[^/]+)" else []
name_groups inside (c ∷ s) =
    let named = name_groups true s in
    let plain = name_groups false s in
    if inside && is_name_part c
    then c ∷ named
    else (if inside then js ">[^/]+)" else [])
      ++ (if nat_beq c b':' && has_name s then js "(?<" ++ named else c ∷ plain)

-- The third `replace`
unfoldable pub wildcards : Text → Text
wildcards [] = []
wildcards (c ∷ s) = (if nat_beq c b'*' then js ".*" else c ∷ []) ++ wildcards s

-- `pathToRegex`
unfoldable pub path_to_regex : Text → Text
unfolding escape_special name_groups wildcards
path_to_regex path =
    let pattern = wildcards (name_groups false (escape_special path)) in
    let full = if ends_with pattern (js ".*") then pattern else pattern ++ js "/?" in
    b'^' ∷ (full ++ js "$")

-- `config.pattern`, once `route` has set it.
abbrev pub with_pattern : SpaRouteConfig → SpaRouteConfig
with_pattern config = record config {
  pattern = some (or_else config.pattern (path_to_regex config.path));
}

unfoldable pub route :
    {Position : Type 0} → SpaRouter Position → SpaRouteConfig → SpaRouter Position
route r config = record r { route_configs = r.route_configs ++ with_pattern config ∷ [] }

unfoldable pub routes :
    {Position : Type 0} → SpaRouter Position → List SpaRouteConfig → SpaRouter Position
routes r configs = foldl route r configs

-- What a navigation does up to the `await`: it calls a render function with parameters, redirects,
-- or warns.
pub data Outcome : Type 0 where
  rendering : SpaRouteConfig → List (Text × Text) → Outcome
  redirecting : Text → Outcome
  unmatched : Outcome

-- What it does after the render function has settled.
pub data Effect (Position : Type 0) : Type 0 where
  completed : Text → List (Text × Text) → Effect Position
  failed : Text → Effect Position
  scrolled_to : Position → Effect Position

-- The loop of `extractParams` over the named groups.
unfoldable pub defined_groups : List (Text × Text) → List (Text × Option Text) → List (Text × Text)
defined_groups params [] = params
defined_groups params ((key, none) ∷ groups) = defined_groups params groups
defined_groups params ((key, some value) ∷ groups) = defined_groups (put params key value) groups

abbrev pub fallback : Option Text → Outcome
fallback none = unmatched
fallback (some path) = if is_empty path then unmatched else redirecting path

-- `pattern.test(path)`, and `path.match(pattern)?.groups`
module _ (test : Text → Text → Bool)
    (groups_of : Text → Text → Option (List (Text × Option Text))) where
  -- `route.pattern?.test(path)`
  abbrev pub matches : Text → SpaRouteConfig → Bool
  matches path config = elim config.pattern [ none ↦ false | some pattern ↦ test pattern path ]

  unfoldable pub match_route : List SpaRouteConfig → Text → Option SpaRouteConfig
  match_route [] path = none
  match_route (config ∷ configs) path =
      if matches path config then some config else match_route configs path

  unfoldable pub extract_params : SpaRouteConfig → Text → List (Text × Text)
  extract_params config path = elim config.pattern [
    | none ↦ []
    | some pattern ↦ elim (groups_of pattern path) [
      | none ↦ []
      | some groups ↦ defined_groups [] groups
    ]
  ]

  -- What the navigation to `path` does up to the `await`.
  unfoldable pub outcome : {Position : Type 0} → SpaRouter Position → Text → Outcome
  unfolding match_route
  outcome r path = elim (match_route r.route_configs path) [
    | some config ↦ rendering config (extract_params config path)
    | none ↦ fallback r.fallback_path
  ]

  module _ {Position : Type 0} (origin : Position) where
    -- `handleNavigate` up to the `await`, with the window scrolled to `window`.
    unfoldable pub handle_navigate :
        SpaRouter Position → NavigateEvent → Position → SpaRouter Position × Outcome
    unfolding outcome
    handle_navigate r e window =
        let saved =
          if r.scroll_restoration && (not e.is_pop_state && not (is_empty r.current_path))
          then put r.scroll_positions r.current_path window
          else r.scroll_positions in
        (record r { scroll_positions = saved; current_path = e.path }, outcome r e.path)

    -- `handleNavigate` after the `await`, with the router as it is then.
    unfoldable pub settle :
        SpaRouter Position → NavigateEvent → List (Text × Text) → Bool → List (Effect Position)
    settle r e params ok =
        if not ok
        then failed e.path ∷ []
        else completed e.path params
          ∷ (if not r.scroll_restoration
              then []
              else if not e.is_pop_state
              then scrolled_to origin ∷ []
              else elim (get r.scroll_positions e.path) [
                | none ↦ []
                | some saved ↦ scrolled_to saved ∷ []
              ])

    -- `start`, on the page `pathname`.
    unfoldable pub start : SpaRouter Position → Text → Position → SpaRouter Position × Outcome
    unfolding handle_navigate
    start r pathname window =
        handle_navigate (record r { subscribed = true })
          (record { path = pathname; is_pop_state = false }) window

    unfoldable pub stop : SpaRouter Position → SpaRouter Position
    stop r = record r { subscribed = false }

    -- `createSpaRouter`, with the singleton if there is one.
    unfoldable pub create_spa_router :
        Option (SpaRouter Position)
        → List SpaRouteConfig
        → SpaRouterOptions
        → Text
        → Position
        → SpaRouter Position × Outcome
    unfolding construct routes start
    create_spa_router singleton configs o pathname window =
        start (routes (or_else singleton (construct o)) configs) pathname window
