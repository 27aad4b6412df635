-- ===== src/Crawler/Frontier.antt =====
-- The queue and the visited set of js/playwright-chaos/src/crawler.ts: no URL is in the queue twice,
-- nor in both.
use luna_mbt.Crawler.State.{Crawler, urls, is_known, push_clicked, push_link}
use luna_mbt.Crawler.Types.{QueueEntry}
use luna_mbt.Prelude.{
  ◌≡◌, refl, inl, inr, ◌+◌, true, false, List, [], ◌∷◌, ◌++◌, arith, Text, text_eq, text_beq_iff,
  ◌==◌, length, any, includes, IsDistinct, IsDistinct-snoc, includes-snoc, length-append,
  Bool-cases,
}

pub record IsFrontier (s : Crawler) : Type 0 where
  pub visited_once : IsDistinct s.visited
  pub queued_once : IsDistinct (urls s.queue)
  pub apart : (u : Text) → includes (urls s.queue) u ≡ true → includes s.visited u ≡ false

pub any-urls : (q : List QueueEntry) (u : Text) → any (λ e. e.url == u) q ≡ includes (urls q) u
unfolding any urls includes
any-urls [] u = refl
any-urls (e ∷ q) u = ground (arith, any-urls q u)

pub urls-snoc : (q : List QueueEntry) (e : QueueEntry) → urls (q ++ e ∷ []) ≡ urls q ++ e.url ∷ []
unfolding urls
urls-snoc [] e = refl
urls-snoc (d ∷ q) e = ground (arith, urls-snoc q e)

pub length-snoc {ℓ} : {A : Type ℓ} (q : List A) (e : A) → length (q ++ e ∷ []) ≡ length q + 1
length-snoc q e = omega (arith, length-append q (e ∷ []))

-- An unknown URL may join the queue.
pub snoc-IsFrontier :
    (s : Crawler) (e : QueueEntry)
    → IsFrontier s
    → is_known s e.url ≡ false
    → IsDistinct (urls (s.queue ++ e ∷ []))
      × ((u : Text) → includes (urls (s.queue ++ e ∷ [])) u ≡ true → includes s.visited u ≡ false)
unfolding is_known
snoc-IsFrontier s e f h = rw (urls-snoc s.queue e) (
  IsDistinct-snoc (urls s.queue) e.url f.queued_once (ground (arith, any-urls s.queue e.url)),
  λ u p. ground (
    arith,
    includes-snoc (urls s.queue) e.url u,
    text_beq_iff e.url u,
    f.apart u,
    any-urls s.queue e.url,
  ),
)

pub push_clicked-IsFrontier :
    (s : Crawler) (url source element : Text)
    → IsFrontier s
    → IsFrontier (push_clicked s url source element)
unfolding push_clicked
push_clicked-IsFrontier s url source element f = elim (Bool-cases (is_known s url)) [
  | inl old ↦ rw old f
  | inr new ↦ rw new (
      let k = snoc-IsFrontier s _ f new in
      record { visited_once = f.visited_once; queued_once = k.0; apart = k.1 })
]

pub push_link-IsFrontier :
    (s : Crawler) (source link : Text) → IsFrontier s → IsFrontier (push_link s source link)
unfolding push_link
push_link-IsFrontier s source link f = elim (Bool-cases (is_known s link)) [
  | inl old ↦ rw old f
  | inr new ↦ rw new (
      let k = snoc-IsFrontier s _ f new in
      record { visited_once = f.visited_once; queued_once = k.0; apart = k.1 })
]
