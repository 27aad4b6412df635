-- ===== src/Loader/Segments/Once.antt =====
-- How often a segment manifest is fetched (js/loader/src/boot/loader.ts).
use luna_mbt.Js.Entries.{get, has, has-put, get-eq-none, get_of_has}
use luna_mbt.Js.Keys
use luna_mbt.Js.Keys.{
  includes-add, includes-delete_ne, includes-delete_self, add-IsDistinct, delete-IsDistinct,
}
use luna_mbt.Loader.Chunks.Once.{times, one_if, times-snoc}
use luna_mbt.Loader.Manifest.{SegmentManifest, Manifest, v1, v2, ChunkLoader}
use luna_mbt.Loader.Segments.{
  Session, load_segment, segment_arrived, segment_failed, prefetch_segment, fetch_session, load,
  prefetch, arrive, fail, Step, loaded, prefetched, arrived, refused, IsInitial, Reach, start,
  later,
}
use luna_mbt.Prelude.{
  ◌≡◌, ◌⊎◌, refl, sym, ap, subst, inl, inr, ◌+◌, true, false, ◌||◌, Option, none, some, [], ◌∷◌,
  ◌++◌, arith, Text, text_eq, text_beq_iff, count, includes, IsDistinct, Bool-cases, Option-cases,
}

-- Each fetch has failed, has given its manifest or is pending, and none of these twice.
record Inv (s : Session) : Type 0 where
  loading_once : IsDistinct s.loader.segment_loading
  apart :
      (name : Text)
      → includes s.loader.segment_loading name ≡ true
      → has s.loader.segments name ≡ false
  counted :
      (name : Text)
      → times name s.fetched
        ≡ times name s.failed
          + one_if (has s.loader.segments name)
          + one_if (includes s.loader.segment_loading name)

Inv-initial : {s : Session} → IsInitial s → Inv s
unfolding count includes has
Inv-initial h = record {
  loading_once = rw h.no_loading tt;
  apart = λ name e. ground arith;
  counted = λ name. ground arith;
}

abbrev fetching : Session → Text → Session
fetching s name = record s {
  loader = record s.loader { segment_loading = Keys.add s.loader.segment_loading name };
  fetched = s.fetched ++ name ∷ [];
}

-- A call fetches the manifest only where it is neither there nor pending.
load_cases :
    (s : Session) (name path : Text)
    → (load s name path ≡ s)
      ⊎ ((has s.loader.segments name || includes s.loader.segment_loading name) ≡ false)
        × (load s name path ≡ fetching s name)
unfolding load load_segment
load_cases s name path = elim (Bool-cases (has s.loader.segments name)) [
  | inl old ↦ elim (Option-cases (get s.loader.segments name)) [
    | inl p ↦ absurd (get_of_has s.loader.segments name old p)
    | inr (m, p) ↦ inl (ground arith)
  ]
  | inr new ↦
      let p = get-eq-none s.loader.segments name new in
      elim (Bool-cases (includes s.loader.segment_loading name)) [
        | inl pending ↦ inl (ground arith)
        | inr idle ↦ inr (ground arith, ground arith)
      ]
]

prefetch_of :
    (l : ChunkLoader) (name : Text) (x : Option Manifest)
    → l.manifest ≡ x
    → (prefetch_segment l name ≡ (none, l))
      ⊎ ((path : Text) × (prefetch_segment l name ≡ load_segment l name path))
unfolding prefetch_segment
prefetch_of l name none e = inl (ground arith)
prefetch_of l name (some (v1 f)) e = inl (ground arith)
prefetch_of l name (some (v2 h)) e = elim (Option-cases (get h.segments name)) [
  | inl p ↦ inl (ground arith)
  | inr (r, p) ↦ elim (Bool-cases (has l.segments name || includes l.segment_loading name)) [
    | inl known ↦ inl (ground arith)
    | inr new ↦ inr (r.path, ground arith)
  ]
]

prefetch_cases :
    (s : Session) (name : Text)
    → (prefetch s name ≡ s) ⊎ ((path : Text) × (prefetch s name ≡ load s name path))
unfolding prefetch load
prefetch_cases s name = elim (prefetch_of s.loader name s.loader.manifest refl) [
  | inl p ↦ inl (ap (fetch_session s name) p)
  | inr (path, p) ↦ inr (path, ap (fetch_session s name) p)
]

fetching-Inv :
    (s : Session) (name : Text)
    → (has s.loader.segments name || includes s.loader.segment_loading name) ≡ false
    → Inv s
    → Inv (fetching s name)
fetching-Inv s name h v = record {
  loading_once = add-IsDistinct s.loader.segment_loading name v.loading_once;
  apart = λ n e.
      ground (arith, v.apart n, includes-add s.loader.segment_loading name n, text_beq_iff name n);
  counted = λ n. ground (
    arith,
    v.counted n,
    times-snoc n name s.fetched,
    includes-add s.loader.segment_loading name n,
    text_beq_iff name n,
  );
}

load-Inv : (s : Session) (name path : Text) → Inv s → Inv (load s name path)
load-Inv s name path v = elim (load_cases s name path) [
  | inl same ↦ subst Inv (sym same) v
  | inr (new, p) ↦ subst Inv (sym p) (fetching-Inv s name new v)
]

prefetch-Inv : (s : Session) (name : Text) → Inv s → Inv (prefetch s name)
prefetch-Inv s name v = elim (prefetch_cases s name) [
  | inl same ↦ subst Inv (sym same) v
  | inr (path, p) ↦ subst Inv (sym p) (load-Inv s name path v)
]

arrive-Inv :
    (s : Session) (name : Text) (manifest : SegmentManifest)
    → includes s.loader.segment_loading name ≡ true
    → Inv s
    → Inv (arrive s name manifest)
unfolding arrive segment_arrived
arrive-Inv s name manifest h v = record {
  loading_once = delete-IsDistinct s.loader.segment_loading name v.loading_once;
  apart = λ n e. ground (
    arith,
    v.apart n,
    has-put s.loader.segments name n manifest,
    includes-delete_ne s.loader.segment_loading name n,
    includes-delete_self s.loader.segment_loading name v.loading_once,
    text_beq_iff name n,
  );
  counted = λ n. ground (
    arith,
    v.counted n,
    v.apart n,
    has-put s.loader.segments name n manifest,
    includes-delete_ne s.loader.segment_loading name n,
    includes-delete_self s.loader.segment_loading name v.loading_once,
    text_beq_iff name n,
  );
}

fail-Inv :
    (s : Session) (name : Text)
    → includes s.loader.segment_loading name ≡ true
    → Inv s
    → Inv (fail s name)
unfolding fail segment_failed
fail-Inv s name h v = record {
  loading_once = delete-IsDistinct s.loader.segment_loading name v.loading_once;
  apart = λ n e. ground (
    arith,
    v.apart n,
    includes-delete_ne s.loader.segment_loading name n,
    includes-delete_self s.loader.segment_loading name v.loading_once,
    text_beq_iff name n,
  );
  counted = λ n. ground (
    arith,
    v.counted n,
    times-snoc n name s.failed,
    includes-delete_ne s.loader.segment_loading name n,
    includes-delete_self s.loader.segment_loading name v.loading_once,
    text_beq_iff name n,
  );
}

Step-Inv : {s t : Session} → Step s t → Inv s → Inv t
Step-Inv {s} (loaded name path) v = load-Inv s name path v
Step-Inv {s} (prefetched name) v = prefetch-Inv s name v
Step-Inv {s} (arrived name manifest h) v = arrive-Inv s name manifest h v
Step-Inv {s} (refused name h) v = fail-Inv s name h v

Reach-Inv : {s : Session} → Reach s → Inv s
Reach-Inv (start h) = Inv-initial h
Reach-Inv (later r s) = Step-Inv s (Reach-Inv r)

-- In every state that calls of `loadSegment` and `prefetchSegment` reach, whatever the order in which
-- the fetches settle, the number of fetches of a segment is the number that failed, plus one if its
-- manifest is there or pending.
Reach-fetched :
    {s : Session} (name : Text)
    → Reach s
    → times name s.fetched
      ≡ times name s.failed
        + one_if (has s.loader.segments name || includes s.loader.segment_loading name)
Reach-fetched name r = let v = Reach-Inv r in ground (arith, v.counted name, v.apart name)
