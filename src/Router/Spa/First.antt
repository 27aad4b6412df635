-- ===== src/Router/Spa/First.antt =====
-- Which route `SpaRouter` renders (js/loader/src/router/spa.ts).
use luna_mbt.Js.Text.{is_empty}
use luna_mbt.Prelude.{
  ◌≡◌, ◌↔◌, inl, inr, refl, sym, ap, subst, Bool, true, false, Option, none, some, List, [], ◌∷◌,
  ◌++◌, arith, Text, any, Bool-cases, Option-cases,
}
use luna_mbt.Router.Spa.{
  SpaRouteConfig, SpaRouter, rendering, redirecting, matches, match_route, extract_params, outcome,
}

module _ (test : Text → Text → Bool)
    (groups_of : Text → Text → Option (List (Text × Option Text))) where
  -- `config` is the first of the routes whose pattern matches the path.
  pub record IsFirst (configs : List SpaRouteConfig) (path : Text) (config : SpaRouteConfig)
      : Type 0 where
    pub before : List SpaRouteConfig
    pub after : List SpaRouteConfig
    pub splits : configs ≡ before ++ config ∷ after
    pub skipped : any (matches test groups_of path) before ≡ false
    pub hit : matches test groups_of path config ≡ true

  match_route-IsFirst :
      (configs : List SpaRouteConfig) (path : Text) (config : SpaRouteConfig)
      → match_route test groups_of configs path ≡ some config
      → IsFirst configs path config
  unfolding match_route any
  match_route-IsFirst [] path config h = cc
  match_route-IsFirst (c ∷ configs) path config h =
      elim (Bool-cases (matches test groups_of path c)) [
        | inl hit ↦ record {
          before = [];
          after = configs;
          splits = ground arith;
          skipped = refl;
          hit = ground arith;
        }
        | inr missed ↦
            let first = match_route-IsFirst configs path config (ground arith) in
            record {
              before = c ∷ first.before;
              after = first.after;
              splits = ap (λ xs. c ∷ xs) first.splits;
              skipped = ground (arith, first.skipped);
              hit = first.hit;
            }
      ]

  match_route_of :
      (before after : List SpaRouteConfig) (path : Text) (config : SpaRouteConfig)
      → any (matches test groups_of path) before ≡ false
      → matches test groups_of path config ≡ true
      → match_route test groups_of (before ++ config ∷ after) path ≡ some config
  unfolding match_route any
  match_route_of [] after path config skipped hit = ground arith
  match_route_of (c ∷ before) after path config skipped hit =
      ground (arith, match_route_of before after path config)

  match_route-none :
      (configs : List SpaRouteConfig) (path : Text)
      → (match_route test groups_of configs path ≡ none)
        ↔ (any (matches test groups_of path) configs ≡ false)
  unfolding match_route any
  match_route-none [] path = (λ h. refl, λ h. refl)
  match_route-none (c ∷ configs) path = (
    λ h. ground (arith, (match_route-none configs path).0),
    λ h. ground (arith, (match_route-none configs path).1),
  )

  module _ {Position : Type 0} (r : SpaRouter Position) (path : Text) where
    rendering-IsFirst :
        (config : SpaRouteConfig) (params : List (Text × Text))
        → outcome test groups_of r path ≡ rendering config params
        → IsFirst r.route_configs path config × (params ≡ extract_params test groups_of config path)
    unfolding outcome
    rendering-IsFirst config params h =
        elim (Option-cases (match_route test groups_of r.route_configs path)) [
          | inl p ↦ elim (Option-cases r.fallback_path) [
            | inl q ↦ ground arith
            | inr (t, q) ↦ ground arith
          ]
          | inr (c, p) ↦
              (match_route-IsFirst r.route_configs path config (ground arith), ground arith)
        ]

    rendering_of :
        (config : SpaRouteConfig) (params : List (Text × Text))
        → IsFirst r.route_configs path config × (params ≡ extract_params test groups_of config path)
        → outcome test groups_of r path ≡ rendering config params
    unfolding outcome
    rendering_of config params (first, e) =
        let found = match_route_of first.before first.after path config first.skipped first.hit in
        let here =
          subst (λ cs. match_route test groups_of cs path ≡ some config) (sym first.splits) found in
        rw (here, e, outcome) refl

    redirecting_of :
        (to : Text)
        → (outcome test groups_of r path ≡ redirecting to)
          ↔ (any (matches test groups_of path) r.route_configs ≡ false)
            × (r.fallback_path ≡ some to)
            × (is_empty to ≡ false)
    unfolding outcome
    redirecting_of to = (
      λ h. elim (Option-cases (match_route test groups_of r.route_configs path)) [
        | inl p ↦ elim (Option-cases r.fallback_path) [
          | inl q ↦ ground arith
          | inr (t, q) ↦ ((match_route-none r.route_configs path).0 p, ground arith, ground arith)
        ]
        | inr (c, p) ↦ ground arith
      ],
      λ (none_hit, q, full).
          rw ((match_route-none r.route_configs path).1 none_hit, q, full, outcome) refl,
    )

    -- A navigation calls a render function exactly where its route is the first registered one
    -- whose pattern matches the path, with the parameters of that route, and it redirects exactly
    -- where no pattern matches and the fallback path is a non-empty text.
    pub outcome-IsFirst :
        ((config : SpaRouteConfig) (params : List (Text × Text))
          → (outcome test groups_of r path ≡ rendering config params)
            ↔ IsFirst r.route_configs path config
              × (params ≡ extract_params test groups_of config path))
        × ((to : Text)
            → (outcome test groups_of r path ≡ redirecting to)
              ↔ (any (matches test groups_of path) r.route_configs ≡ false)
                × (r.fallback_path ≡ some to)
                × (is_empty to ≡ false))
    outcome-IsFirst = (
      λ config params. (rendering-IsFirst config params, rendering_of config params),
      redirecting_of,
    )
