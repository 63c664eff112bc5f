-- ===== src/Config.antt =====
-- The configuration structs of crawling/, and their `check` methods. `none` is a `nil` error.
use ipfs_crawler.Prelude.{
  ℕ, ◌<◌, ◌≡◌, ◌≢◌, ◌↔◌, Bool, true, false, List, [], Option, none, some, String, if◌then◌else◌,
  length, ◌==◌, text_dec, ite, arith,
}
use ipfs_crawler.Types.{Error, ProtocolId}

-- `time.Duration`, a signed number: `negsuc n` is -(n + 1).
pub data ℤ : Type 0 where
  pos : ℕ → ℤ
  negsuc : ℕ → ℤ

-- `d <= time.Duration(0)`
abbrev pub is_not_positive : ℤ → Bool
is_not_positive (pos n) = n == 0
is_not_positive (negsuc n) = true

pub record CrawlerConfig : Type 0 where
  pub protocol_strings : List ProtocolId
  pub interaction_timeout : ℤ
  pub interaction_attempts : ℕ

pub record WorkerConfig : Type 0 where
  pub connect_timeout : ℤ
  pub connection_attempts : ℕ
  pub user_agent : String

-- The options stand for the YAML that `yaml.Marshal` makes of them.
pub record PluginConfig : Type 0 where
  pub name : String
  pub options : String

pub record CrawlManagerConfig : Type 0 where
  pub preimage_file_path : String
  pub num_workers : ℕ
  pub bootstrap_peers : List String
  pub concurrent_requests : ℕ
  pub worker_config : WorkerConfig
  pub plugins : List PluginConfig
  pub crawler_config : CrawlerConfig

-- `len(s) == 0`
is_empty : String → Bool
is_empty s = ite (text_dec s "") true false

unfoldable pub check_crawler : CrawlerConfig → Option Error
check_crawler c =
    if length c.protocol_strings == 0
    then some "missing protocol strings"
    else if c.interaction_attempts == 0
    then some "missing or invalid interaction attempts"
    else if is_not_positive c.interaction_timeout
    then some "missing interaction timeout"
    else none

unfoldable pub check_worker : WorkerConfig → Option Error
unfolding is_empty
check_worker c =
    if is_not_positive c.connect_timeout
    then some "missing connection timeout"
    else if c.connection_attempts == 0
    then some "invalid or missing connection attempts"
    else if is_empty c.user_agent
    then some "missing user agent"
    else none

unfoldable pub check_manager : CrawlManagerConfig → Option Error
unfolding is_empty
check_manager c =
    if is_empty c.preimage_file_path
    then some "missing preimage file path"
    else if c.num_workers == 0
    then some "missing or invalid num_workers"
    else if length c.bootstrap_peers == 0
    then some "missing bootstrap peers"
    else if c.concurrent_requests == 0
    then some "missing or invalid concurrent_requests"
    else none

-- A manager's configuration passes exactly when the path is set and there are workers, bootstrap
-- peers and requests.
pub check_manager_iff :
    (c : CrawlManagerConfig)
    → (check_manager c ≡ none) ↔ (
        (c.preimage_file_path ≢ "")
        × (0 < c.num_workers)
        × (c.bootstrap_peers ≢ [])
        × (0 < c.concurrent_requests))
unfolding check_manager
check_manager_iff c = ground arith
