-- ===== src/Crawler/Targets/Weights.antt =====
-- What links weigh (js/playwright-chaos/src/crawler.ts).
use luna_mbt.Crawler.State.{Platform, Crawler, is_known}
use luna_mbt.Crawler.Dom.{DomTarget}
use luna_mbt.Crawler.Targets.{ActionWeights, fifths_of, weight_of}
use luna_mbt.Js.Text.{js, is_empty}
use luna_mbt.Prelude.{
  ℕ, ◌≡◌, ◌*◌, true, false, some, arith, Text, text_eq, ◌==◌, includes, if◌then◌else◌,
}

-- A link of the page to this URL.
pub record LinksTo (w : Platform) (s : Crawler) (t : DomTarget) (url : Text) : Type 0 where
  pub is_link : (t.tag == js "a") ≡ true
  pub href : Text
  pub has_href : t.href ≡ some href
  pub not_empty : is_empty href ≡ false
  pub resolves : w.resolve href s.base_origin ≡ some url

abbrev base_of : ActionWeights → DomTarget → ℕ
base_of weights t =
    (weights.navigation_links * (if t.is_nav_link then 3 else 2))
    * ((if t.has_visible_text then weights.visible_text else 10)
        * (if t.is_in_main_content then 3 else 2))

scale : (a n k c : ℕ) → (a * (n * k)) * c ≡ k * ((a * n) * c)
scale a n k c = omega arith

-- The weight of a link is its factor times what does not depend on the crawl.
weight_of_link :
    (w : Platform) (weights : ActionWeights) (s : Crawler) (t : DomTarget) (url : Text)
    → LinksTo w s t url
    → weight_of w weights s t ≡ fifths_of s (some url) * base_of weights t
unfolding weight_of
weight_of_link w weights s t url h =
    rw (h.is_link, h.has_href, h.not_empty, h.resolves)
      (scale weights.navigation_links (if t.is_nav_link then 3 else 2) (fifths_of s (some url)) (
        (if t.has_visible_text then weights.visible_text else 10)
        * (if t.is_in_main_content then 3 else 2)))

-- Whatever the weights of the options, a link to a URL that is neither visited nor queued weighs
-- three times what it weighs while the URL is queued and not visited, and fifteen times what it
-- weighs when the URL is visited.
pub weight_of-is_known :
    (w : Platform) (weights : ActionWeights) (s queued visited : Crawler) (t : DomTarget)
    (url : Text)
    → LinksTo w s t url
    → LinksTo w queued t url
    → LinksTo w visited t url
    → is_known s url ≡ false
    → is_known queued url ≡ true
    → includes queued.visited url ≡ false
    → includes visited.visited url ≡ true
    → (weight_of w weights s t ≡ 3 * weight_of w weights queued t)
      × (weight_of w weights s t ≡ 15 * weight_of w weights visited t)
unfolding is_known
weight_of-is_known w weights s queued visited t url h1 h2 h3 new waits unseen seen =
    let a = weight_of_link w weights s t url h1 in
    let b = weight_of_link w weights queued t url h2 in
    let c = weight_of_link w weights visited t url h3 in
    let known : fifths_of s (some url) ≡ 15 = ground (arith, new) in
    let waiting : fifths_of queued (some url) ≡ 5 = ground (arith, waits, unseen) in
    let old : fifths_of visited (some url) ≡ 1 = ground (arith, seen) in
    (omega (arith, rw known at a, rw waiting at b), omega (arith, rw known at a, rw old at c))
