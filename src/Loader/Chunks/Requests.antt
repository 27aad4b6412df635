-- ===== src/Loader/Chunks/Requests.antt =====
-- What a call of `loadForPath` leaves requested.
use luna_mbt.Js.Keys.{includes-add}
use luna_mbt.Loader.Manifest.{RouteMatch, SegmentManifest, ChunkLoader}
use luna_mbt.Loader.Routes.{RegexResult, match_path}
use luna_mbt.Loader.Chunks.{load_chunk, load_chunks, missing_chunks, load_for_path}
use luna_mbt.Prelude.{
  ◌≡◌, subst, inl, inr, Bool, true, not, ◌||◌, Option, some, List, [], ◌∷◌, arith, Text, text_eq,
  text_beq_iff, ◌==◌, includes, filter, Bool-cases, beq_self,
}

-- The chunk is loaded, or its import is pending.
abbrev pub is_requested : ChunkLoader → Text → Bool
is_requested l name = includes l.loaded name || includes l.loading name

load_chunk-is_requested :
    (l : ChunkLoader) (name c : Text)
    → is_requested l c ≡ true
    → is_requested (load_chunk l name).1 c ≡ true
unfolding load_chunk
load_chunk-is_requested l name c h = ground (arith, includes-add l.loading name c)

load_chunk_self : (l : ChunkLoader) (name : Text) → is_requested (load_chunk l name).1 name ≡ true
unfolding load_chunk
load_chunk_self l name = ground (arith, includes-add l.loading name name, beq_self name)

load_chunks-is_requested :
    (l : ChunkLoader) (names : List Text) (c : Text)
    → is_requested l c ≡ true
    → is_requested (load_chunks l names).1 c ≡ true
unfolding load_chunks
load_chunks-is_requested l [] c h = h
load_chunks-is_requested l (name ∷ names) c h =
    load_chunks-is_requested (load_chunk l name).1 names c (load_chunk-is_requested l name c h)

pub load_missing :
    (l k : ChunkLoader) (chunks : List Text) (c : Text)
    → ((d : Text) → includes l.loaded d ≡ true → is_requested k d ≡ true)
    → includes chunks c ≡ true
    → is_requested (load_chunks k (filter (λ d. not (includes l.loaded d)) chunks)).1 c ≡ true
unfolding load_chunks filter includes
load_missing l k [] c h p = cc
load_missing l k (d ∷ chunks) c h p = elim (Bool-cases (includes l.loaded d)) [
  | inl old ↦ rw old (elim (Bool-cases (d == c)) [
    | inl e ↦
        load_chunks-is_requested k (filter (λ x. not (includes l.loaded x)) chunks) c
          (subst (λ x. is_requested k x ≡ true) ((text_beq_iff d c).0 e) (h d old))
    | inr e ↦ load_missing l k chunks c h (ground arith)
  ])
  | inr new ↦ rw new (elim (Bool-cases (d == c)) [
    | inl e ↦
        load_chunks-is_requested (load_chunk k d).1 (filter (λ x. not (includes l.loaded x)) chunks)
          c
          (subst (λ x. is_requested (load_chunk k d).1 x ≡ true) ((text_beq_iff d c).0 e)
            (load_chunk_self k d))
    | inr e ↦
        load_missing l (load_chunk k d).1 chunks c (λ x q. load_chunk-is_requested k d x (h x q))
          (ground arith)
  ])
]

-- When a path has a match, `loadForPath` leaves every chunk of the match loaded or pending.
load_for_path-is_requested :
    (exec : Text → Text → RegexResult) (load : Text → Text → Option SegmentManifest)
    (l : ChunkLoader) (path : Text) (r : RouteMatch) (c : Text)
    → match_path exec load l path ≡ some r
    → includes r.chunks c ≡ true
    → is_requested (load_for_path exec load l path).2 c ≡ true
unfolding missing_chunks load_for_path
load_for_path-is_requested exec load l path r c e p =
    rw (e, load_for_path) (load_missing l l r.chunks c (λ d h. ground arith) p)
