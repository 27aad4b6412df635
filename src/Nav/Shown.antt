-- ===== src/Nav/Shown.antt =====
-- What responses show, one after the other (js/loader/src/sol-nav.ts).
use luna_mbt.Js.Entries.{keys, get, has, get-eq-none}
use luna_mbt.Nav.{Html, Window, has_any, set_title, fill_app, fill_outlets, show}
use luna_mbt.Nav.Outlets.{last_of, get-fill_outlets, fill_outlets_rest}
use luna_mbt.Prelude.{
  ◌≡◌, refl, sym, ap, ◌∙◌, inl, inr, Bool, true, false, Option, none, some, List, [], ◌∷◌, arith,
  Text, text_eq, ◌==◌, includes, if◌then◌else◌, Bool-cases,
}

abbrev pub is_there : {A : Type 0} → Option A → Bool
is_there none = false
is_there (some a) = true

abbrev pub title_of : Html → Option Text
title_of h = if has_any h.templates then h.title_template else h.title

-- The response replaces all that the cached page has put into the document: they are of one kind,
-- and the outlets, the contents and the title that the one sets are set by the other.
pub record Supersedes (old new : Html) : Type 0 where
  pub same_kind : has_any old.templates ≡ has_any new.templates
  pub names :
      (j : Text) → includes (keys old.templates) j ≡ true → includes (keys new.templates) j ≡ true
  pub app : is_there old.app ≡ true → is_there new.app ≡ true
  pub title : is_there (title_of old) ≡ true → is_there (title_of new) ≡ true

last_of_hit :
    (ts : List (Text × Text)) (j : Text) (x y : Option Text)
    → includes (keys ts) j ≡ true
    → last_of ts j x ≡ last_of ts j y
unfolding last_of includes
last_of_hit [] j x y h = cc
last_of_hit ((name, html) ∷ ts) j x y h = elim (Bool-cases (name == j)) [
  | inl same ↦ rw same refl
  | inr other ↦ rw other (last_of_hit ts j x y (ground (arith, other)))
]

last_of_miss :
    (ts : List (Text × Text)) (j : Text) (x : Option Text)
    → includes (keys ts) j ≡ false
    → last_of ts j x ≡ x
unfolding last_of includes
last_of_miss [] j x h = refl
last_of_miss ((name, html) ∷ ts) j x h = ground (arith, last_of_miss ts j x)

last_of_twice :
    (ts us : List (Text × Text)) (j : Text) (x : Option Text)
    → (includes (keys ts) j ≡ true → includes (keys us) j ≡ true)
    → last_of us j (last_of ts j x) ≡ last_of us j x
last_of_twice ts us j x h = elim (Bool-cases (includes (keys ts) j)) [
  | inl hit ↦ last_of_hit us j (last_of ts j x) x (h hit)
  | inr miss ↦ ap (λ y. last_of us j y) (last_of_miss ts j x miss)
]

-- The outlets are filled twice, or once with what comes last.
fill_twice :
    (w v : Window) (ts us : List (Text × Text)) (j : Text)
    → v.outlets ≡ (fill_outlets w ts).outlets
    → (includes (keys ts) j ≡ true → includes (keys us) j ≡ true)
    → get (fill_outlets v us).outlets j ≡ get (fill_outlets w us).outlets j
fill_twice w v ts us j e h =
    let first = get-fill_outlets w ts j in
    let second = get-fill_outlets v us j in
    let once = get-fill_outlets w us j in
    let kept : has v.outlets j ≡ has w.outlets j = ap (λ o. has o j) e ∙ first.0 in
    elim (Bool-cases (has w.outlets j)) [
      | inl here ↦
          second.1 (kept ∙ here)
          ∙ ap (λ o. last_of us j (get o j)) e
          ∙ ap (λ x. last_of us j x) (first.1 here)
          ∙ last_of_twice ts us j (get w.outlets j) h
          ∙ sym (once.1 here)
      | inr gone ↦
          get-eq-none (fill_outlets v us).outlets j (second.0 ∙ kept ∙ gone)
          ∙ sym (get-eq-none (fill_outlets w us).outlets j (once.0 ∙ gone))
    ]

abbrev or_title : Option Text → Text → Text
or_title none old = old
or_title (some title) old = title

show_title :
    (w : Window) (title : Option Text)
    → ((set_title w title).outlets ≡ w.outlets)
      × ((set_title w title).app ≡ w.app)
      × ((set_title w title).title ≡ or_title title w.title)
      × ((set_title w title).history ≡ w.history)
show_title w none = (refl, refl, refl, refl)
show_title w (some title) = (refl, refl, refl, refl)

-- What a fragment shows.
show_fragment :
    (w : Window) (h : Html)
    → has_any h.templates ≡ true
    → ((show w h).outlets ≡ (fill_outlets w h.templates).outlets)
      × ((show w h).app ≡ w.app)
      × ((show w h).title ≡ or_title h.title_template w.title)
      × ((show w h).history ≡ w.history)
unfolding show
show_fragment w h e =
    let titled = show_title (fill_outlets w h.templates) h.title_template in
    let rest = fill_outlets_rest w h.templates in
    rw e (
      titled.0,
      titled.1 ∙ rest.0,
      titled.2 ∙ ap (λ t. or_title h.title_template t) (rest.1),
      titled.3 ∙ rest.2,
    )

abbrev app_after : Option (Text × List (Text × Text)) → Option Text → Option Text
app_after (some (html, outlets)) (some old) = some html
app_after html old = old

abbrev outlets_after :
    Option (Text × List (Text × Text)) → Option Text → List (Text × Text) → List (Text × Text)
outlets_after (some (html, outlets)) (some old) kept = outlets
outlets_after html old kept = kept

fill_app_lem :
    (w : Window) (html : Option (Text × List (Text × Text))) (old : Option Text)
    → old ≡ w.app
    → ((fill_app w html old).outlets ≡ outlets_after html old w.outlets)
      × ((fill_app w html old).app ≡ app_after html old)
      × ((fill_app w html old).title ≡ w.title)
      × ((fill_app w html old).history ≡ w.history)
fill_app_lem w none none e = (refl, sym e, refl, refl)
fill_app_lem w none (some old) e = (refl, sym e, refl, refl)
fill_app_lem w (some html) none e = (refl, sym e, refl, refl)
fill_app_lem w (some (html, outlets)) (some old) e = (refl, refl, refl, refl)

-- What a whole page shows.
show_page :
    (w : Window) (h : Html)
    → has_any h.templates ≡ false
    → ((show w h).outlets ≡ outlets_after h.app w.app w.outlets)
      × ((show w h).app ≡ app_after h.app w.app)
      × ((show w h).title ≡ or_title h.title w.title)
      × ((show w h).history ≡ w.history)
unfolding show
show_page w h e =
    let titled = show_title (fill_app w h.app w.app) h.title in
    let rest = fill_app_lem w h.app w.app refl in
    rw e (
      titled.0 ∙ rest.0,
      titled.1 ∙ rest.1,
      titled.2 ∙ ap (λ t. or_title h.title t) (rest.2),
      titled.3 ∙ rest.3,
    )

pub show_history : (w : Window) (h : Html) → (show w h).history ≡ w.history
show_history w h = elim (Bool-cases (has_any h.templates)) [
  | inl fragment ↦ (show_fragment w h fragment).3
  | inr whole ↦ (show_page w h whole).3
]

or_title_twice :
    (old new : Option Text) (t : Text)
    → (is_there old ≡ true → is_there new ≡ true)
    → or_title new (or_title old t) ≡ or_title new t
or_title_twice none none t h = refl
or_title_twice (some a) none t h = cc (h refl)
or_title_twice old (some b) t h = refl

app_twice :
    (old new : Option (Text × List (Text × Text))) (a : Option Text) (kept : List (Text × Text))
    → (is_there old ≡ true → is_there new ≡ true)
    → (outlets_after new (app_after old a) (outlets_after old a kept) ≡ outlets_after new a kept)
      × (app_after new (app_after old a) ≡ app_after new a)
app_twice none none a kept h = (refl, refl)
app_twice (some o) none a kept h = cc (h refl)
app_twice none (some n) a kept h = (refl, refl)
app_twice (some o) (some n) none kept h = (refl, refl)
app_twice (some o) (some n) (some a) kept h = (refl, refl)

-- Showing a response over the page that it supersedes is showing it alone.
pub show_twice :
    (w v : Window) (old new : Html)
    → v.outlets ≡ (show w old).outlets
    → v.app ≡ (show w old).app
    → v.title ≡ (show w old).title
    → Supersedes old new
    → ((j : Text) → get (show v new).outlets j ≡ get (show w new).outlets j)
      × ((show v new).app ≡ (show w new).app)
      × ((show v new).title ≡ (show w new).title)
show_twice w v old new outlets app title h = elim (Bool-cases (has_any new.templates)) [
  | inl fragment ↦
      let first = show_fragment w old (h.same_kind ∙ fragment) in
      let second = show_fragment v new fragment in
      let once = show_fragment w new fragment in
      let kept = rw (fragment, h.same_kind ∙ fragment) at h.title in
      (
        λ j.
            ap (λ o. get o j) (second.0)
            ∙ fill_twice w v old.templates new.templates j (outlets ∙ first.0) (h.names j)
            ∙ sym (ap (λ o. get o j) (once.0)),
        second.1 ∙ app ∙ first.1 ∙ sym (once.1),
        second.2
            ∙ ap (λ t. or_title new.title_template t) (title ∙ first.2)
            ∙ or_title_twice old.title_template new.title_template w.title kept
            ∙ sym (once.2),
      )
  | inr whole ↦
      let first = show_page w old (h.same_kind ∙ whole) in
      let second = show_page v new whole in
      let once = show_page w new whole in
      let kept = rw (whole, h.same_kind ∙ whole) at h.title in
      let twice = app_twice old.app new.app w.app w.outlets h.app in
      (
        λ j.
            ap (λ o. get o j)
              (second.0
                ∙ ap (λ x. outlets_after new.app x v.outlets) (app ∙ first.1)
                ∙ ap (λ x. outlets_after new.app (app_after old.app w.app) x) (outlets ∙ first.0)
                ∙ twice.0
                ∙ sym (once.0)),
        second.1 ∙ ap (λ x. app_after new.app x) (app ∙ first.1) ∙ twice.1 ∙ sym (once.1),
        second.2
            ∙ ap (λ t. or_title new.title t) (title ∙ first.2)
            ∙ or_title_twice old.title new.title w.title kept
            ∙ sym (once.2),
      )
]
