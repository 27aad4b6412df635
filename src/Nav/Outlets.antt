-- ===== src/Nav/Outlets.antt =====
-- The outlets after a fragment (js/loader/src/sol-nav.ts).
use luna_mbt.Js.Entries.{get, has, get-put, has-put}
use luna_mbt.Nav.{Window, fill_outlet, fill_outlets}
use luna_mbt.Prelude.{
  ◌≡◌, refl, ◌∙◌, inl, inr, true, Option, some, List, [], ◌∷◌, arith, Text, text_eq, text_beq_iff,
  ◌==◌, if◌then◌else◌, Bool-cases,
}

-- What the templates put into an outlet last, or what it had.
unfoldable pub last_of : List (Text × Text) → Text → Option Text → Option Text
last_of [] j old = old
last_of ((name, html) ∷ templates) j old =
    last_of templates j (if name == j then some html else old)

fill_outlet_lem :
    (w : Window) (name html j : Text)
    → (has (fill_outlet w name html).outlets j ≡ has w.outlets j)
      × (has w.outlets j ≡ true
          → get (fill_outlet w name html).outlets j
            ≡ (if name == j then some html else get w.outlets j))
fill_outlet_lem w name html j = elim (Bool-cases (has w.outlets name)) [
  | inl there ↦ (
    ground (arith, there, has-put w.outlets name j html, text_beq_iff name j),
    λ here. ground (arith, there, get-put w.outlets name j html),
  )
  | inr gone ↦ (rw gone refl, λ here. ground (arith, gone, here, text_beq_iff name j))
]

-- Filling outlets adds none and removes none, and an outlet that is there has what the templates
-- put into it last.
pub get-fill_outlets :
    (w : Window) (templates : List (Text × Text)) (j : Text)
    → (has (fill_outlets w templates).outlets j ≡ has w.outlets j)
      × (has w.outlets j ≡ true
          → get (fill_outlets w templates).outlets j ≡ last_of templates j (get w.outlets j))
unfolding fill_outlets last_of
get-fill_outlets w [] j = (refl, λ here. refl)
get-fill_outlets w ((name, html) ∷ templates) j =
    let one = fill_outlet_lem w name html j in
    let more = get-fill_outlets (fill_outlet w name html) templates j in
    (ground (arith, one.0, more.0), λ here. ground (arith, one.0, one.1 here, more.1))

fill_outlet_rest :
    (w : Window) (name html : Text)
    → ((fill_outlet w name html).app ≡ w.app)
      × ((fill_outlet w name html).title ≡ w.title)
      × ((fill_outlet w name html).history ≡ w.history)
fill_outlet_rest w name html = elim (Bool-cases (has w.outlets name)) [
  | inl there ↦ rw there (refl, refl, refl)
  | inr gone ↦ rw gone (refl, refl, refl)
]

-- Filling outlets changes nothing else of what is shown.
pub fill_outlets_rest :
    (w : Window) (templates : List (Text × Text))
    → ((fill_outlets w templates).app ≡ w.app)
      × ((fill_outlets w templates).title ≡ w.title)
      × ((fill_outlets w templates).history ≡ w.history)
unfolding fill_outlets
fill_outlets_rest w [] = (refl, refl, refl)
fill_outlets_rest w ((name, html) ∷ templates) =
    let rest = fill_outlets_rest (fill_outlet w name html) templates in
    let one = fill_outlet_rest w name html in (rest.0 ∙ one.0, rest.1 ∙ one.1, rest.2 ∙ one.2)
