-- ===== src/Types.antt =====
-- The data types of crawling/crawlmanager.go. A `nil` pointer or error is `none`. Peer IDs are Go
-- strings; a multiaddress is the text of its bytes, which is what `Equal` compares. A time is a
-- number of nanoseconds, an error its message, and a plugin's result its serialised form.
use ipfs_crawler.Prelude.{ℕ, ◌≡◌, String, List, Option, is_some, is_nil}

abbrev pub PeerId : Type 0
PeerId = String

abbrev pub Multiaddr : Type 0
Multiaddr = String

abbrev pub ProtocolId : Type 0
ProtocolId = String

abbrev pub Time : Type 0
Time = ℕ

abbrev pub Error : Type 0
Error = String

abbrev pub Value : Type 0
Value = String

-- `peer.AddrInfo`
pub record AddrInfo : Type 0 where
  pub id : PeerId
  pub addrs : List Multiaddr

pub record PeerMetadata : Type 0 where
  pub agent_version : String
  pub supported_protocols : List ProtocolId

pub record CrawlData : Type 0 where
  pub neighbors : List AddrInfo
  pub crawl_started_timestamp : Time
  pub crawl_finished_timestamp : Time

pub record CrawlResult : Type 0 where
  pub begin_timestamp : Time
  pub end_timestamp : Time
  pub err : Option Error
  pub result : Option CrawlData

pub record PluginResult : Type 0 where
  pub begin_timestamp : Time
  pub end_timestamp : Time
  pub err : Option Error
  pub result : Option Value

pub record RawNodeInformation : Type 0 where
  pub info : PeerMetadata
  pub crawl_data : CrawlResult
  pub plugin_results : List (String × PluginResult)

pub record NodeCrawlResult : Type 0 where
  pub id : PeerId
  pub start_ts : Time
  pub end_ts : Time
  pub err : Option Error
  pub node : Option RawNodeInformation

pub record NodeInformation : Type 0 where
  pub info : PeerMetadata
  pub plugin_results : List (String × PluginResult)
  pub crawl_data_error : Option Error
  pub crawl_data_begin_ts : Time
  pub crawl_data_end_ts : Time
  pub crawl_neighbors : List PeerId

pub record NodeCrawlStatus : Type 0 where
  pub start_ts : Time
  pub end_ts : Time
  pub err : Option Error
  pub result : Option NodeInformation

-- `err == nil` and a non-nil value, or the other way round: what the comments of the source call
-- mutually exclusive.
abbrev pub Exclusive : {A : Type 0} → Option Error → Option A → Type 0
Exclusive err value = is_some value ≡ is_nil err
