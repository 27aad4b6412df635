-- ===== src/Router/Navigation/Entry.antt =====
-- What a navigation loads, and what going back to its entry gives (js/loader/src/boot/router.ts).
use luna_mbt.Js.Keys.{includes-add, includes-delete_ne}
use luna_mbt.Loader.Chunks.Requests.{is_requested, load_missing}
use luna_mbt.Loader.Chunks.{load_chunk, load_chunks, missing_chunks, import_resolved, is_loaded}
use luna_mbt.Loader.Manifest.{RouteMatch, ChunkLoader}
use luna_mbt.Prelude.{
  ℕ, ◌≡◌, refl, ap, ◌∙◌, inl, inr, true, false, not, some, List, [], ◌∷◌, filter, ◌==◌,
  if◌then◌else◌, includes, arith, Text, text_eq, text_beq_iff, Bool-cases,
}
use luna_mbt.Router.Navigation.{Event, Boot, navigate_matched}

-- The import of the chunk resolves if it is pending.
unfoldable resolve_pending : ChunkLoader → Text → ChunkLoader
unfolding import_resolved
resolve_pending l c = if includes l.loading c then import_resolved l c else l

-- The imports of those chunks of a list that are pending have resolved.
unfoldable pub all_resolved : ChunkLoader → List Text → ChunkLoader
unfolding resolve_pending
all_resolved l [] = l
all_resolved l (c ∷ cs) = all_resolved (resolve_pending l c) cs

resolve_pending_still :
    (l : ChunkLoader) (d c : Text)
    → includes l.loaded c ≡ true
    → includes (resolve_pending l d).loaded c ≡ true
unfolding resolve_pending import_resolved
resolve_pending_still l d c h = ground (arith, includes-add l.loaded d c)

resolve_pending-is_requested :
    (l : ChunkLoader) (d c : Text)
    → is_requested l c ≡ true
    → is_requested (resolve_pending l d) c ≡ true
unfolding resolve_pending import_resolved
resolve_pending-is_requested l d c h =
    ground (arith, includes-add l.loaded d c, includes-delete_ne l.loading d c)

resolve_pending_self :
    (l : ChunkLoader) (d c : Text)
    → (d == c) ≡ true
    → is_requested l c ≡ true
    → includes (resolve_pending l d).loaded c ≡ true
unfolding resolve_pending import_resolved
resolve_pending_self l d c e h =
    ground (arith, includes-add l.loaded d c, ap (includes l.loading) ((text_beq_iff d c).0 e))

resolved_still :
    (l : ChunkLoader) (cs : List Text) (c : Text)
    → includes l.loaded c ≡ true
    → includes (all_resolved l cs).loaded c ≡ true
unfolding all_resolved
resolved_still l [] c h = h
resolved_still l (d ∷ cs) c h =
    resolved_still (resolve_pending l d) cs c (resolve_pending_still l d c h)

-- A chunk of the list that is loaded or pending is loaded then.
resolved-is_requested :
    (l : ChunkLoader) (cs : List Text) (c : Text)
    → is_requested l c ≡ true
    → includes cs c ≡ true
    → includes (all_resolved l cs).loaded c ≡ true
unfolding all_resolved includes
resolved-is_requested l [] c h k = ground arith
resolved-is_requested l (d ∷ cs) c h k = elim (Bool-cases (d == c)) [
  | inl e ↦ resolved_still (resolve_pending l d) cs c (resolve_pending_self l d c e h)
  | inr e ↦
      resolved-is_requested (resolve_pending l d) cs c (resolve_pending-is_requested l d c h)
        (ground arith)
]

loaded-load_chunk : (l : ChunkLoader) (c : Text) → (load_chunk l c).1.loaded ≡ l.loaded
unfolding load_chunk
loaded-load_chunk l c = ground arith

loaded-load_chunks : (l : ChunkLoader) (cs : List Text) → (load_chunks l cs).1.loaded ≡ l.loaded
unfolding load_chunks
loaded-load_chunks l [] = refl
loaded-load_chunks l (c ∷ cs) = loaded-load_chunks (load_chunk l c).1 cs ∙ loaded-load_chunk l c

includes-filter-not :
    (loaded cs : List Text) (c : Text)
    → includes cs c ≡ true
    → includes loaded c ≡ false
    → includes (filter (λ d. not (includes loaded d)) cs) c ≡ true
unfolding includes filter
includes-filter-not loaded [] c h k = cc
includes-filter-not loaded (d ∷ cs) c h k =
    ground (arith, includes-filter-not loaded cs c, text_beq_iff d c)

-- When of the chunks for which a navigation waits those have resolved whose imports it started or
-- found pending, all chunks of its match are loaded, whether they were loaded, pending or missing
-- before.
pub is_loaded-navigate_matched :
    (b : Boot) (path : Text) (m : RouteMatch) (c : Text)
    → includes m.chunks c ≡ true
    → let missing = missing_chunks b.loader m.chunks in
      ((navigate_matched b path (some m)).1 ≡ some missing)
      × (is_loaded (all_resolved (navigate_matched b path (some m)).0.loader missing) c ≡ true)
unfolding navigate_matched missing_chunks is_loaded
is_loaded-navigate_matched b path m c h =
    let missing = filter (λ d. not (includes b.loader.loaded d)) m.chunks in
    let l = (load_chunks b.loader missing).1 in
    (
      refl,
      elim (Bool-cases (includes b.loader.loaded c)) [
        | inl old ↦
            resolved_still l missing c
              (ap (λ cs. includes cs c) (loaded-load_chunks b.loader missing) ∙ old)
        | inr new ↦
            resolved-is_requested l missing c
              (load_missing b.loader b.loader m.chunks c (λ d k. ground arith) h)
              (includes-filter-not b.loader.loaded m.chunks c h new)
      ],
    )

abbrev pub again_at : Text → ℕ × Event → ℕ × Event
again_at pathname (h, e) = (h, record e { path = pathname; is_pop_state = true })
