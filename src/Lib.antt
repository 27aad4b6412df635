-- ===== src/Lib.antt =====
-- Verification of the TypeScript parts of luna.
--
-- The program renders web components on a server (js/wcssr), runs them in the browser with signals
-- (js/wcr) and stores (js/luna), loads and routes to the chunks and islands of a page (js/loader),
-- tests a running site by crawling it (js/playwright-chaos) and merges the coverage of its own
-- tests (scripts/lib/cov-reporter). The parts and their files:
--
--   Ssr      js/wcssr/src. Ssr/Escape: escapeAttr, escapeHtml, escapeJson of server.ts and the
--            unescaping of client.ts. Ssr/Renderer: createSSRRenderer, its set of collected URLs as
--            a field that render returns changed. Ssr/Document: renderDocument and the stand-alone
--            renderers. Ssr/Client: the element class of registerComponent, one function a method;
--            what the browser parses out of a markup is the argument `bound`, and an event carries
--            the nodes on its path. Ssr/Parts: the child node parts of parts.ts and their
--            hydration on a list of children; Ssr/Parts/Attribute: its parts of one node,
--            attribute or property.
--   Wcr      js/wcr/src. Wcr/Signal: Signal and effect of signal.ts over a store of addresses; the
--            function of an effect is a tree of the signals that it reads. Wcr/Define: the element
--            class of defineComponent in define.ts, one function a callback; names of attributes
--            are compared as they are written.
--   Luna     js/luna/src/index.ts. Luna/Heap: objects and arrays at addresses, which fields share.
--            Luna/Store: createStore on them, with its signals as a map of values.
--            Luna/Props: mergeProps and splitProps. Luna/Jsx: convertProps and styleToString of
--            js/luna/src/jsx-runtime.ts.
--   Scroll   js/loader/src/router/scroll.ts: ScrollManager over an abstract session storage, whose
--            operations may throw (`none`). The laws of a storage are in Scroll/Persistence.
--   Loader   js/loader/src/boot/loader.ts. Loader/Manifest: the two manifest formats.
--            Loader/Routes: matchPath, matchPathV1, matchPathV2, getChunksForPath. Loader/Chunks:
--            loadChunk, loadForPath, prefetch; Loader/Chunks/Flight has the imports in flight and
--            the steps of the page as a relation. Loader/Segments: loadSegment and prefetchSegment
--            in the same form.
--   Island   js/loader/src. Island: loader.ts with the triggers and the tracker of lib.ts; hydrate
--            is cut at its awaits. Island/Component: wc-loader.ts. Island/Hmr: hmr-client.ts, a
--            round of handleUpdate up to the await.
--   Nav      js/loader/src/sol-nav.ts, cut at the await of the fetch; Nav/Flight has its fetches,
--            prefetches and timers as a step relation.
--   Router   js/loader/src/boot/router.ts: handleClick on the loader's queries, and the prefetch
--            timers of handleHover and handleLeave (Router/Hover). Router/Navigation: navigate and
--            handlePopState, cut at their awaits, with the handlers. Router/Spa: the SpaRouter of
--            js/loader/src/router/spa.ts; handleNavigate is cut in two at its await. Router/Hybrid:
--            the HybridRouter of js/loader/src/router/hybrid.ts in the same way;
--            Router/Hybrid/Flight has its fetches and cache timers as a step relation.
--   Crawler  js/playwright-chaos/src. Crawler/Types: types.ts. Crawler/State: the fields of
--            ChaosCrawler, the pattern tests, the queue. Crawler/Page: the listeners of a page and
--            its action loop; what the browser does is a list of events, in the order in which the
--            crawler hears of them. Crawler/Dom and Crawler/Targets: the targets of its actions,
--            their weights, exact and in units of 1/2000, and the choice. Crawler/Visit:
--            crawlPageWithExistingPage and crawlPage with its recovery. Crawler/Crawl: the loop of
--            start. Crawler/Report: generateReport, calculateSummary, and getExitCode of
--            reporter.ts. Crawler/Logger: logger.ts.
--   Coverage scripts/lib/cov-reporter: merge.ts, and shouldExcludeFile of types.ts.
--            Coverage/Parsers: vitest.ts and e2e.ts of its parsers, on the data of their files.
--
-- The router calls the loader's queries; client and server of Ssr share the escaping of the state
-- attribute, the loader of web components too; hot reload unloads and hydrates by the island
-- loader; the crawler and the coverage reporter stand alone. Prelude has the shared lemmas, Js the
-- operations of strings, maps and sets of the language, and Tests an instance of each result.
--
-- A string is the list of its UTF-16 code units, a number a natural number (in Ssr/Parts its
-- printed form, as in Luna/Heap where it is no natural number; in Wcr/Define a parameter), a Map
-- a list of entries in the order of insertion, a Set a list without repetition. Code that the
-- files only call is an argument: regular expressions, URL parsing, JSON, the storage, the
-- document. An exception that is caught is a value. The loop of the crawler runs on fuel, and
-- some fuel is enough for every site: each round drops a queue entry or uses up one of the
-- maxPages visits. No other loop needs fuel.
--
-- Not modelled: the MoonBit sources, which are in another language; calls of the crawler's logger
-- and event callbacks, which only report; randomness (an attempt names the target that was chosen,
-- and Crawler/Targets says which one a random number chooses); rates and averages as quotients
-- (the two numbers are kept); the text formats of the reports; effects that write signals;
-- parseTemplate; the rest of js/luna, which wraps the compiled runtime; js/stella and js/sol.
pub mod Prelude
pub mod Js
pub mod Ssr
pub mod Wcr
pub mod Luna
pub mod Scroll
pub mod Loader
pub mod Island
pub mod Nav
pub mod Router
pub mod Crawler
pub mod Coverage
pub mod Tests
