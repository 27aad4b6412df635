-- ===== src/Tests/Targets.antt =====
-- The targets of a page in js/playwright-chaos/src/crawler.ts.
use luna_mbt.Crawler.Dom.{DomTarget}
use luna_mbt.Crawler.State.{Crawler}
use luna_mbt.Crawler.Targets.{
  default_weights, weight_of, WeightedTarget, escape_selector, scroll_target, select,
  get_weighted_action_targets,
}
use luna_mbt.Crawler.Targets.Choice.{Share, select-Share}
use luna_mbt.Crawler.Targets.Weights.{weight_of-is_known}
use luna_mbt.Crawler.Types.{DiscoveryMethod}
use luna_mbt.Js.Text.{js}
use luna_mbt.Prelude.{
  ℕ, ◌≡◌, ◌≤◌, ◌*◌, refl, Bool, true, false, Option, none, some, List, [], ◌∷◌, ◌++◌, Text, text_eq,
  arith, length,
}
use luna_mbt.Tests.Crawler.{platform, fresh}

abbrev print : ℕ → Text
print n = js "1"

abbrev docs_link : DomTarget
docs_link = record {
  tag = js "a";
  text = js "Docs";
  role = none;
  aria_label = none;
  index = 0;
  has_visible_text = true;
  is_nav_link = true;
  href = some (js "/docs");
  is_in_main_content = false;
}

abbrev docs_queued : Crawler
docs_queued = record fresh {
  queue =
      record {
        url = js "/docs";
        source_url = js "/";
        method = DiscoveryMethod.initial;
        source_element = none;
      }
      ∷ [];
}

abbrev docs_visited : Crawler
docs_visited = record fresh { visited = js "/docs" ∷ [] }

weight_example :
    (weight_of platform default_weights fresh docs_link
      ≡ 3 * weight_of platform default_weights docs_queued docs_link)
    × (weight_of platform default_weights fresh docs_link
        ≡ 15 * weight_of platform default_weights docs_visited docs_link)
unfolding luna_mbt.Prelude.text_beq luna_mbt.Prelude.includes luna_mbt.Prelude.any
    luna_mbt.Crawler.State.is_known luna_mbt.Crawler.State.reset
weight_example =
    weight_of-is_known platform default_weights fresh docs_queued docs_visited docs_link
      (js "/docs")
      (record {
        is_link = refl;
        href = js "/docs";
        has_href = refl;
        not_empty = refl;
        resolves = refl;
      })
      (record {
        is_link = refl;
        href = js "/docs";
        has_href = refl;
        not_empty = refl;
        resolves = refl;
      })
      (record {
        is_link = refl;
        href = js "/docs";
        has_href = refl;
        not_empty = refl;
        resolves = refl;
      })
      refl refl refl refl

select_example :
    (s : Share 7 (scroll_target print 5 ∷ scroll_target print 4 ∷ [])) × (select 7
        (scroll_target print 5 ∷ scroll_target print 4 ∷ [])
      ≡ some s.target)
unfolding luna_mbt.Crawler.Targets.total_weight
select_example =
    select-Share 7 (scroll_target print 5 ∷ scroll_target print 4 ∷ []) (ground arith)
      (ground arith)

-- The cut after fifty characters may leave a backslash at the end, which then escapes the quote
-- that is to close the text.
escape_cut :
    escape_selector (js "Say \"a\" \"b\" \"c\" \"d\" \"e\" \"f\" \"g\" \"h\" \"i\" j\"")
    ≡ js "Say \\\"a\\\" \\\"b\\\" \\\"c\\\" \\\"d\\\" \\\"e\\\" \\\"f\\\" \\\"g\\\" \\\"h\\"
unfolding escape_selector luna_mbt.Js.Text.replace_char
escape_cut = refl
