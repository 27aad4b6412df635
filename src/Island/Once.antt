-- ===== src/Island/Once.antt =====
-- How often an island is hydrated (js/loader/src/loader.ts).
use luna_mbt.Island.{
  Element, Loader, Parsed, throws, value, attr, hydrate, state_parsed, imported, unload, unload_all,
  clear,
}
use luna_mbt.Js.Keys.{
  includes-add, includes-delete_ne, includes-delete_self, add-IsDistinct, delete-IsDistinct,
}
use luna_mbt.Js.Text.{is_empty}
use luna_mbt.Loader.Chunks.Once.{times, one_if, times-snoc}
use luna_mbt.Prelude.{
  ◌≡◌, ◌≤◌, ◌+◌, inl, inr, Bool, List, [], ◌∷◌, arith, Text, text_eq, ◌==◌, text_beq_iff, includes,
  IsDistinct, count, count-append, Bool-cases,
}

one_if-includes-le : (xs : List Text) (id : Text) → one_if (includes xs id) ≤ times id xs
unfolding includes count
one_if-includes-le [] id = omega arith
one_if-includes-le (x ∷ xs) id =
    ground (arith, one_if-includes-le xs id, text_beq_iff x id, text_beq_iff id x)

module _ {Json : Type 0} where
  pub data Step (l : Loader Json) : Loader Json → Type 0 where
    triggered : (el : Element) (is_rerender : Bool) → Step l (hydrate l el is_rerender).0
    parsed : (id : Text) (v : Parsed Json) → Step l (state_parsed l id v).0
    called :
        (el : Element) (is_rerender : Bool) (exports : List Text)
        → Step l (imported l el is_rerender exports)
    unloaded : (id : Text) → Step l (unload l id).0
    all_unloaded : (els : List Element) → Step l (unload_all l els)
    cleared : Step l (clear l)

  -- A loader on a new page.
  pub record IsInitial (l : Loader Json) : Type 0 where
    pub no_loaded : l.loaded ≡ []
    pub no_begun : l.begun ≡ []

  pub data Reach : Loader Json → Type 0 where
    start : {l : Loader Json} → IsInitial l → Reach l
    later : {l l' : Loader Json} → Reach l → Step l l' → Reach l'

  record Inv (l : Loader Json) : Type 0 where
    distinct : IsDistinct l.loaded
    counted : (id : Text) → times id l.begun ≤ times id l.unloaded + one_if (includes l.loaded id)

  initial-Inv : {l : Loader Json} → IsInitial l → Inv l
  unfolding count
  initial-Inv h = record {
    distinct = rw h.no_loaded tt;
    counted = λ id. rw h.no_begun (omega arith);
  }

  hydrate-Inv :
      (l : Loader Json) (el : Element) (is_rerender : Bool)
      → Inv l
      → Inv (hydrate l el is_rerender).0
  unfolding hydrate
  hydrate-Inv l el is_rerender h = record {
    distinct = ground (arith, h.distinct, add-IsDistinct l.loaded (attr el.id));
    counted = λ id. ground (
      arith,
      h.counted id,
      includes-add l.loaded (attr el.id) id,
      times-snoc id (attr el.id) l.begun,
      text_beq_iff (attr el.id) id,
    );
  }

  parsed-Inv : (l : Loader Json) (id : Text) (v : Parsed Json) → Inv l → Inv (state_parsed l id v).0
  unfolding state_parsed
  parsed-Inv l id throws h = h
  parsed-Inv l id (value v) h = record { distinct = h.distinct; counted = h.counted }

  imported-Inv :
      (l : Loader Json) (el : Element) (is_rerender : Bool) (exports : List Text)
      → Inv l
      → Inv (imported l el is_rerender exports)
  unfolding imported
  imported-Inv l el is_rerender exports h = record {
    distinct = ground (arith, h.distinct);
    counted = λ id. ground (arith, h.counted id);
  }

  unload-Inv : (l : Loader Json) (id : Text) → Inv l → Inv (unload l id).0
  unfolding unload
  unload-Inv l id h = record {
    distinct = delete-IsDistinct l.loaded id h.distinct;
    counted = λ other. ground (
      arith,
      h.counted other,
      includes-delete_ne l.loaded id other,
      includes-delete_self l.loaded id h.distinct,
      times-snoc other id l.unloaded,
      text_beq_iff id other,
    );
  }

  unload_all-Inv : (l : Loader Json) (els : List Element) → Inv l → Inv (unload_all l els)
  unfolding unload_all
  unload_all-Inv l [] h = h
  unload_all-Inv l (el ∷ els) h = elim (Bool-cases (is_empty (attr el.id))) [
    | inl bare ↦ rw bare (unload_all-Inv l els h)
    | inr named ↦
        rw named (unload_all-Inv (unload l (attr el.id)).0 els (unload-Inv l (attr el.id) h))
  ]

  clear-Inv : (l : Loader Json) → Inv l → Inv (clear l)
  unfolding clear includes
  clear-Inv l h = record {
    distinct = tt;
    counted = λ id. omega (
      arith,
      h.counted id,
      one_if-includes-le l.loaded id,
      count-append (λ n. n == id) l.unloaded l.loaded,
    );
  }

  Reach-Inv : {l : Loader Json} → Reach l → Inv l
  Reach-Inv (start h) = initial-Inv h
  Reach-Inv (later r (triggered el is_rerender)) = hydrate-Inv _ el is_rerender (Reach-Inv r)
  Reach-Inv (later r (parsed id v)) = parsed-Inv _ id v (Reach-Inv r)
  Reach-Inv (later r (called el is_rerender exports)) =
      imported-Inv _ el is_rerender exports (Reach-Inv r)
  Reach-Inv (later r (unloaded id)) = unload-Inv _ id (Reach-Inv r)
  Reach-Inv (later r (all_unloaded els)) = unload_all-Inv _ els (Reach-Inv r)
  Reach-Inv (later r cleared) = clear-Inv _ (Reach-Inv r)

  -- However the triggers, the settling of states and imports, the unloads, the clears and the
  -- rerenders are ordered, the first hydration of an island is begun at most once more than the
  -- island was unloaded.
  pub Reach-begun :
      {l : Loader Json} (id : Text) → Reach l → times id l.begun ≤ times id l.unloaded + 1
  Reach-begun id r = ground (arith, (Reach-Inv r).counted id)
