-- ===== src/Tests/Data.antt =====
-- A crawl of two peers with one worker and one token. The crawl of `/a` fails, the crawl of `/b`
-- finds a new address of `/a`, and the second crawl of `/a` succeeds.
use ipfs_crawler.Prelude.{
  ℕ, ◌≡◌, refl, false, List, [], ◌∷◌, none, some, String, arith, text_dec, ◌^◌,
}
use ipfs_crawler.Panic.{ok, Exec}
use ipfs_crawler.Result.{Result, value}
use ipfs_crawler.Types.{AddrInfo, RawNodeInformation}
use ipfs_crawler.Config.{CrawlManagerConfig, pos, check_manager}
use ipfs_crawler.AddrTools.{Manet}
use ipfs_crawler.GoMap.{lookup, insert, add}
use ipfs_crawler.Queue.{push}
use ipfs_crawler.Manager.{CrawlManager}
use ipfs_crawler.Setup.{Parsers, new_crawl_manager}
use ipfs_crawler.Setup.Made.{started}
use ipfs_crawler.Setup.Calls.{new_crawl_manager-Made}
use ipfs_crawler.System.{System, Outcome}
use ipfs_crawler.System.Invariant.{Inv}

abbrev pub manet : Manet
manet = record { is_private_addr = λ a. false; is_ip_loopback = λ a. false }

abbrev pub parsers : Parsers
parsers = record {
  new_multiaddr = λ text. value text;
  addr_info_from_p2p_addr = λ maddr. value (record { id = maddr; addrs = maddr ∷ [] });
}

abbrev pub chan_limit : ℕ
chan_limit = 2 ^ 40

abbrev pub load : String → Exec (Result String)
load path = ok (value path)

abbrev pub new_worker : String → ℕ → Exec (Result ℕ)
new_worker handler i = ok (value i)

abbrev pub config : CrawlManagerConfig
config = record {
  preimage_file_path = "preimages.csv";
  num_workers = 1;
  bootstrap_peers = "/a" ∷ "/b" ∷ [];
  concurrent_requests = 1;
  worker_config = record {
    connect_timeout = pos 60;
    connection_attempts = 3;
    user_agent = "crawler";
  };
  plugins = [];
  crawler_config = record {
    protocol_strings = "/ipfs/kad/1.0.0" ∷ [];
    interaction_timeout = pos 30;
    interaction_attempts = 3;
  };
}

-- What `new_crawl_manager` makes of this configuration.
abbrev pub first_cm : CrawlManager
first_cm = record {
  token_bucket = 0 ∷ [];
  bucket_cap = 1;
  num_workers = 1;
  crawls_in_progress = [];
  crawled = [];
  to_crawl = record {
    queue = "/a" ∷ "/b" ∷ [];
    in_queue = "/a" ∷ "/b" ∷ [];
    addr_info = ("/a", "/a" ∷ []) ∷ ("/b", "/b" ∷ []) ∷ [];
  };
}

abbrev pub first : System
first = started first_cm

pub made :
    new_crawl_manager manet parsers chan_limit load new_worker config
    ≡ ok (value (first_cm, 0 ∷ []))
unfolding new_crawl_manager check_manager text_dec push lookup insert add
made = refl

pub first-Inv : Inv 1 first
unfolding new_crawl_manager check_manager text_dec push lookup insert add
first-Inv =
    (new_crawl_manager-Made manet parsers chan_limit load new_worker config (omega arith)
      (omega arith) (_, refl) (λ h i. (_, refl))).0.inv

abbrev pub found_node : List AddrInfo → RawNodeInformation
found_node neighbors = record {
  info = record { agent_version = "kubo"; supported_protocols = "/ipfs/kad/1.0.0" ∷ [] };
  crawl_data = record {
    begin_timestamp = 1;
    end_timestamp = 2;
    err = none;
    result = some (record {
      neighbors = neighbors;
      crawl_started_timestamp = 1;
      crawl_finished_timestamp = 2;
    });
  };
  plugin_results = [];
}

abbrev pub failure : Outcome
failure = record { node = none; err = some "unreachable"; before = 0; after = 3 }

abbrev pub success : List AddrInfo → Outcome
success neighbors = record { node = some (found_node neighbors); err = none; before = 0; after = 3 }
