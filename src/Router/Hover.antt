-- ===== src/Router/Hover.antt =====
-- `handleHover`, `handleLeave` and the prefetch timers of js/loader/src/boot/router.ts, on links
-- that both handlers accept.

use luna_mbt.Js.Entries.{get, put, delete, get-put_self}
use luna_mbt.Prelude.{
  ◌∙◌, beq_self, ◌≡◌, refl, ℕ, ◌+◌, true, false, not, Option, none, some, List, ◌∷◌, arith, Text,
  text_eq, nat_eq, ◌==◌, if◌then◌else◌,
}
use luna_mbt.Router.{RouterOptions, Link, given, is_internal_link, has_link_attribute}

-- The router's `prefetchTimers`, the timers that the page still has to run with the `href` each
-- prefetches, the number of the next timer, and the paths that were prefetched.
pub record Timers : Type 0 where
  pub prefetch_timers : List (Text × ℕ)
  pub pending : List (ℕ × Text)
  pub next_timer : ℕ
  pub prefetched : List Text

-- `setTimeout` and the `set` of `handleHover`
unfoldable pub schedule : Timers → Text → Timers
schedule t href = record t {
  prefetch_timers = put t.prefetch_timers href t.next_timer;
  pending = (t.next_timer, href) ∷ t.pending;
  next_timer = t.next_timer + 1;
}

-- `handleHover`; `link` is what `closest` finds
unfoldable pub handle_hover :
    Text → (Text → Option Text) → RouterOptions → Timers → Option Link → Timers
handle_hover origin origin_of o t link = elim link [
  | none ↦ t
  | some a ↦ if not (has_link_attribute o a) then t else elim (given a.href) [
    | none ↦ t
    | some href ↦ if not (is_internal_link origin origin_of href) then t else schedule t href
  ]
]

-- `clearTimeout`
abbrev pub clear_timeout : List (ℕ × Text) → ℕ → List (ℕ × Text)
clear_timeout pending timer = delete pending timer

-- `handleLeave`
unfoldable pub handle_leave : Timers → Option Link → Timers
handle_leave t link = elim link [
  | none ↦ t
  | some a ↦ elim (given a.href) [
    | none ↦ t
    | some href ↦ elim (get t.prefetch_timers href) [
      | none ↦ t
      | some timer ↦ if timer == 0 then t else record t {
        prefetch_timers = delete t.prefetch_timers href;
        pending = clear_timeout t.pending timer;
      }
    ]
  ]
]

-- The callback of a timer, when the timer runs.
unfoldable pub fire : Timers → ℕ → Timers
fire t timer = elim (get t.pending timer) [
  | none ↦ t
  | some href ↦ record t {
    prefetch_timers = delete t.prefetch_timers href;
    pending = delete t.pending timer;
    prefetched = href ∷ t.prefetched;
  }
]

-- Both handlers take the link up, towards `href`.
pub record IsHovered (origin : Text) (origin_of : Text → Option Text) (o : RouterOptions)
    (link : Link) (href : Text) : Type 0 where
  pub marked : has_link_attribute o link ≡ true
  pub leads : given link.href ≡ some href
  pub internal : is_internal_link origin origin_of href ≡ true

handle_hover_lem :
    (origin : Text) (origin_of : Text → Option Text) (o : RouterOptions) (t : Timers) (link : Link)
    (href : Text)
    → IsHovered origin origin_of o link href
    → handle_hover origin origin_of o t (some link) ≡ schedule t href
unfolding handle_hover
handle_hover_lem origin origin_of o t link href h = rw (h.marked, h.leads) (rw h.internal refl)

handle_leave_lem :
    (t : Timers) (link : Link) (href : Text) (timer : ℕ)
    → given link.href ≡ some href
    → get t.prefetch_timers href ≡ some timer
    → (timer == 0) ≡ false
    → (handle_leave t (some link)).pending ≡ delete t.pending timer
unfolding handle_leave
handle_leave_lem t link href timer h g p = ground arith

-- Hovering a link, then leaving it before the timer runs, cancels that prefetch: the page's timers
-- are what they were before the hover. Timers that the link had before stay.
handle_leave-handle_hover :
    (origin : Text) (origin_of : Text → Option Text) (o : RouterOptions) (t : Timers) (link : Link)
    (href : Text)
    → IsHovered origin origin_of o link href
    → (t.next_timer == 0) ≡ false
    → (handle_leave (handle_hover origin origin_of o t (some link)) (some link)).pending ≡ t.pending
unfolding schedule delete
handle_leave-handle_hover origin origin_of o t link href h p =
    rw (handle_hover_lem origin origin_of o t link href h) (
      handle_leave_lem (schedule t href) link href t.next_timer h.leads
        (get-put_self t.prefetch_timers href t.next_timer) p
      ∙ ground (arith, beq_self t.next_timer))

-- Hovering a link twice, then leaving it, cancels the second timer only: the first one still runs.
pub handle_leave-handle_hover_twice :
    (origin : Text) (origin_of : Text → Option Text) (o : RouterOptions) (t : Timers) (link : Link)
    (href : Text)
    → IsHovered origin origin_of o link href
    → let again =
        handle_hover origin origin_of o
          (handle_hover origin origin_of o t (some link))
          (some link) in
      (handle_leave again (some link)).pending ≡ (t.next_timer, href) ∷ t.pending
unfolding schedule delete
handle_leave-handle_hover_twice origin origin_of o t link href h =
    handle_leave-handle_hover origin origin_of o (handle_hover origin origin_of o t (some link))
      link href h (rw (handle_hover_lem origin origin_of o t link href h) (ground arith))
    ∙ rw (handle_hover_lem origin origin_of o t link href h) refl
