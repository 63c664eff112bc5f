-- ===== src/Output.antt =====
-- crawling/io.go: what a crawl writes, and the node cache. JSON, CSV and the file system are
-- parameters: a codec, and the errors that their calls may return.
pub mod Graph
pub mod Cache
pub mod Total
pub mod Metadata
use Prim.Native.String.{◌++◌ as ◌<>◌}
use ipfs_crawler.Prelude.{
  ℕ, ◌+◌, Bool, true, false, not, List, [], ◌∷◌, ◌++◌, map, Option, none, some, String,
  if◌then◌else◌, text_dec, length, ◌==◌,
}
use ipfs_crawler.Panic.{Exec, ok, fault, ◌>>=◌, nil_dereference}
use ipfs_crawler.Result.{Result, value, error}
use ipfs_crawler.Types.{
  PeerId, Multiaddr, ProtocolId, AddrInfo, Time, Error, Value, PluginResult, NodeInformation,
  NodeCrawlStatus,
}
use ipfs_crawler.GoMap.{lookup}
use ipfs_crawler.Queue.{or_nil}
use ipfs_crawler.Manager.{crawl_ok, succeeded}
use ipfs_crawler.Manager.Summary.{CrawlOutput}

pub record PluginResultJson : Type 0 where
  pub begin_timestamp : Time
  pub end_timestamp : Time
  pub err : Option String
  pub result : Option Value

-- `plugin_data` is `none` for a `nil` map.
pub record CrawledNodeDataJson : Type 0 where
  pub agent_version : String
  pub supported_protocols : List ProtocolId
  pub crawl_begin_ts : Time
  pub crawl_end_ts : Time
  pub crawl_error : Option String
  pub plugin_data : Option (List (String × PluginResultJson))

pub record CrawledNodeJson : Type 0 where
  pub id : PeerId
  pub multiaddrs : List Multiaddr
  pub connection_error : Option String
  pub result : Option CrawledNodeDataJson

pub record CrawlOutputJson : Type 0 where
  pub start_date : Time
  pub end_date : Time
  pub nodes : List CrawledNodeJson

-- The body of the loop over the plugin results.
unfoldable pub to_plugin_json : String × PluginResult → String × PluginResultJson
to_plugin_json (pn, pd) = (
  pn,
  record {
    begin_timestamp = pd.begin_timestamp;
    end_timestamp = pd.end_timestamp;
    err = pd.err;
    result = pd.result;
  },
)

unfoldable pub to_node_data : NodeInformation → CrawledNodeDataJson
unfolding to_plugin_json
to_node_data r = record {
  agent_version = r.info.agent_version;
  supported_protocols = r.info.supported_protocols;
  crawl_begin_ts = r.crawl_data_begin_ts;
  crawl_end_ts = r.crawl_data_end_ts;
  crawl_error = r.crawl_data_error;
  plugin_data =
      if length r.plugin_results == 0 then none else some (map to_plugin_json r.plugin_results);
}

-- `res.Result`, where there is no connection error.
unfoldable pub node_result : Option NodeInformation → Exec CrawledNodeDataJson
unfolding to_node_data
node_result none = fault nil_dereference
node_result (some r) = ok (to_node_data r)

unfoldable pub crawled_node :
    PeerId → List Multiaddr → Option Error → Option NodeInformation → Exec CrawledNodeJson
unfolding node_result
crawled_node id addrs (some e) result =
    ok (record { id = id; multiaddrs = addrs; connection_error = some e; result = none })
crawled_node id addrs none result = do
  r ← node_result result
  ok (record { id = id; multiaddrs = addrs; connection_error = none; result = some r })

unfoldable pub to_crawled_node :
    NodeCrawlStatus → List (PeerId × List Multiaddr) → PeerId → Exec CrawledNodeJson
unfolding crawled_node or_nil
to_crawled_node r addr_book id =
    crawled_node id (or_nil (lookup text_dec id addr_book)) r.err r.result

unfoldable pub to_crawled_nodes :
    List (PeerId × List Multiaddr) → List (PeerId × NodeCrawlStatus) → Exec (List CrawledNodeJson)
unfolding to_crawled_node
to_crawled_nodes addr_book [] = ok []
to_crawled_nodes addr_book ((id, node) ∷ rest) = do
  n ← to_crawled_node node addr_book id
  ns ← to_crawled_nodes addr_book rest
  ok (n ∷ ns)

-- The errors that the calls on a file return, in the order in which they are made: `os.Create`, the
-- n-th write or the encoding, `Flush`, `Close`.
pub record FileErrors : Type 0 where
  pub create : Option Error
  pub write : ℕ → Option Error
  pub flush : Option Error
  pub close : Option Error

-- A value, unless an error came up.
abbrev pub unless : {A : Type 0} → Option Error → String → Result A → Result A
unless none context r = r
unless (some e) context r = error (context <> e)

-- `WriteMetadata`: the value that is encoded to the file.
unfoldable pub write_metadata :
    CrawlOutput → Time → Time → FileErrors → Exec (Result CrawlOutputJson)
unfolding to_crawled_nodes
write_metadata report start end files = do
  nodes ← to_crawled_nodes report.addr_info report.nodes
  ok (
      unless files.create "unable to open output file: " (
        unless (files.write 0) "unable to write output: " (
          unless files.close ""
            (value (record { start_date = start; end_date = end; nodes = nodes })))))
