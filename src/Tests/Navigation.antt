-- ===== src/Tests/Navigation.antt =====
-- Navigations of the boot router, js/loader/src/boot/router.ts.
use luna_mbt.Js.Text.{js}
use luna_mbt.Loader.Chunks.{missing_chunks, is_loaded}
use luna_mbt.Loader.Manifest.{RouteMatch, SegmentManifest, new_loader}
use luna_mbt.Loader.Routes.{RegexResult}
use luna_mbt.Prelude.{
  ℕ, ◌≡◌, refl, Bool, true, false, Option, none, some, List, [], ◌∷◌, ◌++◌, Text, nat_beq, arith,
  take,
}
use luna_mbt.Router.Navigation.{Boot, navigate_matched, navigate_loaded}
use luna_mbt.Router.Navigation.Entry.{all_resolved, is_loaded-navigate_matched}

abbrev no_regex : Text → Text → RegexResult
no_regex pattern path = RegexResult.no_match

abbrev no_segment : Text → Text → Option SegmentManifest
no_segment segment url = none

abbrev docs_match : RouteMatch
docs_match = record {
  chunks = js "docs" ∷ js "shared" ∷ [];
  params = [];
  segment = none;
  is_spa = none;
}

abbrev boot : Boot
boot = record {
  loader = record new_loader { loaded = js "shared" ∷ [] };
  handlers = 1 ∷ 2 ∷ [];
  current_match = none;
  history = [];
  notified = [];
  full_loads = [];
}

chunks_example :
    ((navigate_matched boot (js "/docs") (some docs_match)).1
      ≡ some (missing_chunks boot.loader docs_match.chunks))
    × (is_loaded
          (all_resolved
            (navigate_matched boot (js "/docs") (some docs_match)).0.loader
            (missing_chunks boot.loader docs_match.chunks))
          (js "docs")
        ≡ true)
unfolding luna_mbt.Prelude.includes luna_mbt.Prelude.text_beq
chunks_example = is_loaded-navigate_matched boot (js "/docs") docs_match (js "docs") refl

-- The first handler rejects.
abbrev rejects : ℕ → Bool
rejects h = nat_beq h 1

abbrev left : Boot
left =
    navigate_loaded rejects (navigate_matched boot (js "/docs?q") (some docs_match)).0
      (js "/docs?q") false docs_match

abbrev plain_match : RouteMatch
plain_match = record docs_match { chunks = [] }

-- Another navigation comes in between.
abbrev newer : List (Text × RouteMatch)
newer = (js "/other", plain_match) ∷ []

abbrev later : Boot
later = record left { history = newer ++ left.history; current_match = some plain_match }

abbrev pathname : Text → Text
pathname path = take 5 path
