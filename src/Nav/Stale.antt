-- ===== src/Nav/Stale.antt =====
-- What a cached page leaves behind (js/loader/src/sol-nav.ts).
use luna_mbt.Js.Entries.{get}
use luna_mbt.Js.Text.{is_empty}
use luna_mbt.Nav.{
  Html, Window, Nav, Response, page, update_dom, move, drop_first, shown_last, begin, settle,
}
use luna_mbt.Nav.Shown.{Supersedes, show_twice, show_history}
use luna_mbt.Prelude.{
  ◌≡◌, refl, sym, ap, ◌∙◌, inl, inr, Bool, false, Option, none, some, [], ◌∷◌, Text, text_eq,
  text_beq_iff, ◌==◌, if◌then◌else◌, Bool-cases,
}

-- Two windows show the same and have the same history.
pub record SameView (a b : Window) : Type 0 where
  pub outlets : (j : Text) → get a.outlets j ≡ get b.outlets j
  pub app : a.app ≡ b.app
  pub title : a.title ≡ b.title
  pub history : a.history ≡ b.history

module _ (parse : Text → Html) where
  abbrev pub finished :
      Window → Text → Bool → Response → Option (Nav × Window × Option Text) → Window
  finished w url replace r none = w
  finished w url replace r (some (n, shown, cached)) = (settle parse n shown url replace cached r).1

  -- A whole navigation: the window that it leaves.
  unfoldable pub visit : Nav → Window → Text → Bool → Response → Window
  unfolding begin settle
  visit n w url replace r = finished w url replace r (begin parse n w url replace)

  -- The window after a response for a page that was shown from the cache, and for one that was not.
  cached_view :
      (w : Window) (url : Text) (replace : Bool) (cached html : Text)
      → Supersedes (parse cached) (parse html)
      → SameView
          (shown_last parse
            (move (update_dom parse w cached false) url replace)
            url
            replace
            (some cached)
            html)
          (move (update_dom parse w html false) url replace)
  unfolding update_dom move
  cached_view w url replace cached html h = elim (Bool-cases (html == cached)) [
    | inl same ↦
        let e : html ≡ cached = (text_beq_iff html cached).0 same in
        rw (same, e) (record { outlets = λ j. refl; app = refl; title = refl; history = refl })
    | inr other ↦
        let v = move (update_dom parse w cached false) url replace in
        let twice = show_twice w v (parse cached) (parse html) refl refl refl h in
        rw other (record {
          outlets = twice.0;
          app = twice.1;
          title = twice.2;
          history =
              show_history v (parse html)
              ∙ ap (λ x. url ∷ (if replace then drop_first x else x))
                  (show_history w (parse cached) ∙ sym (show_history w (parse html)));
        })
  ]

  -- Where no navigation is under way and the response replaces all that the cached page puts into
  -- the document, a navigation that shows the cached page first ends in the view and the history
  -- that it would end in with an empty cache, whether the response is the cached page or not.
  pub visit_cached :
      (n : Nav) (w : Window) (url : Text) (replace : Bool) (cached html : Text) (is_fragment : Bool)
      → n.is_navigating ≡ false
      → get n.cache url ≡ some cached
      → is_empty cached ≡ false
      → Supersedes (parse cached) (parse html)
      → SameView
          (visit n w url replace (page html is_fragment))
          (visit (record n { cache = [] }) w url replace (page html is_fragment))
  unfolding visit begin settle get
  visit_cached n w url replace cached html is_fragment idle hit full h =
      rw (idle, hit, full) (cached_view w url replace cached html h)
