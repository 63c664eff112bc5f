-- ===== src/Lib.antt =====
-- A verification library of ipfs-crawler, a crawler of the IPFS DHT.
--
-- A crawl manager (crawling/crawlmanager.go) hands the peers it hears of to workers. Its loop takes
-- a token from a bucket for each crawl that it starts, a goroutine runs the crawl, sends its result
-- to the loop and puts the token back. The loop stores each result in a database and queues the
-- neighbors that a crawl found. At the end the database is written to files (crawling/io.go).
--
-- The files:
--   Prelude, GoMap, Panic, Result: lists, options and texts; the operations of Go maps on
--     association lists; code that may panic or block for good (`Exec`); errors as values.
--   Types: the data types of crawling/crawlmanager.go.
--   Config: the configurations with `CrawlerConfig.check` (crawling/crawler.go),
--     `WorkerConfig.check` (crawling/libp2p_worker.go) and `CrawlManagerConfig.check`.
--   AddrTools: `filterOutOldAddresses` and `stripLocalAddrs` (crawling/addr_tools.go).
--   Queue: `toCrawlQueue` with `numPeers`, `len`, `pop` and `push`. Queue/Sync relates its slice and
--     its set, Queue/Budget counts what a push costs, Queue/Line is the waiting line that the queue
--     stands for; Queue/Shows and Queue/Refine relate the two.
--   Manager: `CrawlManager`, and the cases of the `select` in `CrawlNetwork` as `handle_report` and
--     `handle_token`, with `upsertCrawlResult`, `handleNewNode`, `dispatch` and `AddPeersToCrawl`.
--     Manager/Pure says what the cases do where nothing panics, Manager/Frames what they leave as it
--     is, Manager/Coverage the peers it has heard of; Manager/Summary models `createReport`.
--   System: the loop beside the goroutines of `dispatch`. An event is one choice of the scheduler;
--     `step` says what it does, and `Run` is any sequence of events. Below it stand the invariant,
--     the moves that an event can make, completeness, the contacts of a peer and progress.
--   Setup: `NewCrawlManager` and `parsePeerString`. Setup/Crawls joins it with the loop, Setup/Program
--     with `LoadPreimages` and `NewLibp2pWorker`; Setup/Start, Setup/Made and Setup/Calls are about
--     its parts.
--   Output: `toCrawledNode` and `WriteMetadata`; Output/Graph: `WritePeergraph`; Output/Cache:
--     `SaveNodeCache` and `RestoreNodeCache`; Output/Total: the files of a whole crawl.
--   Preimage: `findPreImageForCPL` (crawling/preimage.go), with its bit operations as arithmetic in
--     Preimage/Bits and Preimage/Target. Preimage/Load: `LoadPreimages`; Preimage/Precompute:
--     cmd/hash-precomputation/main.go; Preimage/Text: the functions of Go's library that both use, on
--     lists of bytes, and Preimage/Codes their laws; Preimage/Found and Preimage/Shared join
--     them; Preimage/Safe is about files of any origin.
--   Crawler: `HandlePeer`, `fullNeighborCrawl` and `sendFindNode` (crawling/crawler.go).
--   Worker: `connect` and `crawlPeer` (crawling/libp2p_worker.go), below the interface `worker` that
--     System takes as a promise; Worker/Stop: `stop`, with `CrawlManager.Stop`; Worker/Make:
--     `NewLibp2pWorker` and `newCrawler`.
--   Plugins: `RegisterPlugin`, `NewPlugin` and `PluginsFromPluginConfigs` (crawling/plugin.go).
--   Bitswap: the plugin of plugins/bsprobe/plugin.go. Bitswap itself has `collectResponses`, which
--     Bitswap/Collected, Bitswap/Hears and Bitswap/Heard are about; Bitswap/Query has `HandlePeer` with
--     `queryContent`, `handleStream` and `Shutdown`, which Bitswap/Queried and Bitswap/Served are
--     about. Bitswap/Concurrent has the calls and the handlers side by side: a `ProbeEvent` is one
--     step of a goroutine, `probe_step` says what it does or that it has to wait, and `ProbeRun` is
--     any sequence of such steps. Below it, Sound and Sends have the invariant, Safe what
--     holds in every state, Stuck the deadlock, and Live how a call comes to its end.
--   Main: cmd/ipfs-crawler/main.go, as `prepare` before the crawl and `conclude` after it; Main/Whole
--     joins them with the crawl between.
--   Tests: a crawl of two peers, a probe for two CIDs, a table of two preimages, and the theorems at
--     their states.
--
-- The state: a Go map is an association list and a set a list, in any order, as Go iterates over
-- it. A `nil` dereference, an index out of range, an explicit `panic` and a send that nothing can
-- ever receive are faults of `Exec`. The token bucket is a bounded list; `resultChan` has no
-- buffer, so a send and its receipt are one event. The capacity of the bucket is a product of
-- 64-bit numbers and wraps, and one above the runtime's limit is a fault. A plugin's `HandlePeer` is a
-- computation in `Exec` too: it may panic, or wait for ever as the one of plugins/bsprobe can. So may
-- `HandlePeer` of Bitswap/Query, by whether its calls of `Lock` return; why they may not return is said
-- in Bitswap/Concurrent.
--
-- The loops over lists are structural, and the loop of `CrawlNetwork` is the relation `Run`, which
-- has no bound. The loop of `fullNeighborCrawl` runs on fuel: 25 rounds, since it asks at most 24
-- buckets. The loop of hash-precomputation runs for a given number of rounds, and what is said of it
-- holds after any number: that it ends depends on the hash function.
--
-- Parameters: the classification of addresses by go-multiaddr, the parsers of multiaddresses, the
-- JSON and YAML codecs, the errors of the file calls, the hash of a peer's ID and of a preimage, the
-- drivers of plugins, the largest capacity of a channel, what libp2p's dials, streams, messages, host
-- and peerstore come to, the messages and the streams of Bitswap, and `sort.Strings`. Setup takes what
-- the calls of `LoadPreimages` and `NewLibp2pWorker` come to, a panic included, as parameters;
-- Preimage/Load and Worker/Make have these functions, and Setup/Program puts them in.
-- In System, a worker returns a node or an error, never both and never neither, which is what the
-- comments at the interface promise.
--
-- Not modelled: logging; times other than as numbers; `identifyConn` (crawling/libp2p_worker.go), which
-- only waits; the opening and the decompression of the file of preimages; the flags and the names of
-- the output files of cmd/ipfs-crawler; the scripts under eval.
pub mod Prelude
pub mod Panic
pub mod Result
pub mod Config
pub mod Setup
pub mod GoMap
pub mod Types
pub mod AddrTools
pub mod Queue
pub mod Manager
pub mod System
pub mod Tests
pub mod Output
pub mod Preimage
pub mod Crawler
pub mod Worker
pub mod Plugins
pub mod Bitswap
pub mod Main
