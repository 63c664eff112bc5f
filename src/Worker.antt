-- ===== src/Worker.antt =====
-- `Libp2pWorker` of crawling/libp2p_worker.go: `connect` and `crawlPeer`. The dialer, the peerstore
-- and the plugins are parameters.
pub mod Promise
pub mod Stop
pub mod Make
use Prim.Native.String.{◌++◌ as ◌<>◌}
use ipfs_crawler.Prelude.{String, ℕ, List, [], ◌∷◌, Option, none, some, text_dec}
use ipfs_crawler.Panic.{Exec, ok, fault, nil_dereference, ◌>>=◌, failed_assertion}
use ipfs_crawler.Result.{Result, value, error}
use ipfs_crawler.Types.{
  PeerId, AddrInfo, PeerMetadata, PluginResult, CrawlData, RawNodeInformation, ProtocolId, Time,
  Value,
}
use ipfs_crawler.Config.{WorkerConfig, CrawlerConfig}
use ipfs_crawler.GoMap.{insert}
use ipfs_crawler.Preimage.{PreimageHandler, BinId}
use ipfs_crawler.Crawler.{Reply, retry, Exchange, handle_peer}

-- The interface `Plugin`, as far as `crawlPeer` calls it. Its `HandlePeer` may panic or wait for ever.
pub record Plugin : Type 0 where
  pub name : String
  pub handle_peer : AddrInfo → Exec (Reply (Option Value))

-- `connect`, from what `DialPeer` returned.
unfoldable pub connect : {C : Type 0} → Reply (Option C) → Reply (Option C)
connect dialed = elim dialed.err [
  | some e ↦ record { content = none; err = some ("dial: " <> e) }
  | none ↦ record { content = dialed.content; err = none }
]

-- The loop over the plugins. The times of a result are not set.
unfoldable pub run_plugins :
    AddrInfo → List Plugin → List (String × PluginResult) → Exec (List (String × PluginResult))
run_plugins remote [] results = ok results
run_plugins remote (p ∷ ps) results = do
  r ← p.handle_peer remote
  run_plugins remote ps (
      insert text_dec p.name
        (record { begin_timestamp = 0; end_timestamp = 0; err = r.err; result = r.content })
        results)

-- A value of the type `interface{}` in the peerstore.
pub data Stored : Type 0 where
  a_string : String → Stored
  another_type : Stored

-- `agentVersion.(string)`
unfoldable pub assert_string : Stored → Exec String
assert_string (a_string a) = ok a
assert_string another_type = fault failed_assertion

unfoldable pub agent_of : Result Stored → Exec String
unfolding assert_string
agent_of (value a) = assert_string a
agent_of (error e) = ok ""

-- What the peerstore knows after the wait for the identify protocol.
unfoldable pub to_infos : Result Stored → Result (List ProtocolId) → Exec PeerMetadata
unfolding agent_of
to_infos agent protocols = do
  a ← agent_of agent
  ok (record {
    agent_version = a;
    supported_protocols = elim protocols [ value ps ↦ ps | error e ↦ [] ];
  })

-- What the environment gives to one call of `crawlPeer`: the results of the dials and of the streams
-- that the crawler opens, the peer's answers to it, what the peerstore knows, and the times that are
-- taken around the crawl and within.
pub record Surroundings (C S : Type 0) : Type 0 where
  pub dial : ℕ → Reply (Option C)
  pub new_stream : ℕ → Reply (Option S)
  pub answer : ℕ → ℕ → ℕ → Exchange
  pub agent : Result Stored
  pub protocols : Result (List ProtocolId)
  pub begun : Time
  pub started : Time
  pub finished : Time
  pub ended : Time

-- The worker: its configuration, its plugins, and the crawler's configuration and preimages. `kad`
-- and `unmarshal` are the libraries' functions that the crawler calls.
pub record Libp2pWorker : Type 0 where
  pub config : WorkerConfig
  pub plugins : List Plugin
  pub crawler_config : CrawlerConfig
  pub preimage_handler : PreimageHandler
  pub kad : PeerId → BinId
  pub unmarshal : String → Result (List AddrInfo)

module _ {C S : Type 0} (w : Libp2pWorker) (env : Surroundings C S) (remote : AddrInfo) where
  unfoldable pub raw_information : Reply (Option CrawlData) → Exec RawNodeInformation
  unfolding run_plugins to_infos
  raw_information crawled = do
    results ← run_plugins remote w.plugins []
    infos ← to_infos env.agent env.protocols
    ok (record {
      info = infos;
      crawl_data = record {
        begin_timestamp = env.begun;
        end_timestamp = env.ended;
        err = crawled.err;
        result = crawled.content;
      };
      plugin_results = results;
    })

  -- `none` if the crawler ran out of fuel.
  unfoldable pub with_crawl :
      Option (Reply (Option CrawlData)) → Exec (Option (Reply (Option RawNodeInformation)))
  unfolding raw_information
  with_crawl none = ok none
  with_crawl (some r) = do
    n ← raw_information r
    ok (some (record { content = some n; err = none }))

  -- The rest, from the connection on. A connection that was never opened is `nil`, and the deferred
  -- call of its `Close` dereferences it.
  unfoldable pub on_connection :
      Reply (Option C) → Exec (Option (Reply (Option RawNodeInformation)))
  unfolding with_crawl
  on_connection conn = elim conn.err [
    | some e ↦ ok (some (record { content = none; err = some e }))
    | none ↦ elim conn.content [
      | none ↦ fault nil_dereference
      | some c ↦ do
        crawled ←
            handle_peer w.preimage_handler w.kad w.unmarshal env.answer w.crawler_config remote.id
              env.new_stream env.started env.finished
        with_crawl crawled
    ]
  ]

  unfoldable pub crawl_peer : Exec (Option (Reply (Option RawNodeInformation)))
  unfolding on_connection connect retry
  crawl_peer = on_connection (
      retry w.config.connection_attempts 0 (λ i. connect (env.dial i))
        (record { content = none; err = none }))
