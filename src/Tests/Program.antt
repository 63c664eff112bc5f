-- ===== src/Tests/Program.antt =====
-- The theorems on the whole program and on the queue as a line, for the small crawl.
use ipfs_crawler.Output.Metadata.{to_node_data-IsNodeData}
use ipfs_crawler.Prelude.{
  String, ℕ, ◌≡◌, refl, true, [], ◌∷◌, map, none, some, is_some, text_dec, All, arith,
}
use ipfs_crawler.Panic.{ok}
use ipfs_crawler.Result.{Result, value, error}
use ipfs_crawler.Types.{AddrInfo, NodeInformation}
use ipfs_crawler.GoMap.{lookup, insert, add}
use ipfs_crawler.Config.{check_manager}
use ipfs_crawler.AddrTools.{filter_out_old_addresses, strip_local_addrs, found}
use ipfs_crawler.Queue.{push, or_nil, len}
use ipfs_crawler.Queue.Line.{put, take, defer, idle, run_line}
use ipfs_crawler.Queue.Refine.{run_queue, run_queue-run_line}
use ipfs_crawler.Manager.{CrawlManager, add_peers_to_crawl, has_work}
use ipfs_crawler.Setup.{parse_peer_string, new_crawl_manager}
use ipfs_crawler.Output.{to_node_data}
use ipfs_crawler.Output.Cache.{Codec, restore_node_cache}
use ipfs_crawler.Worker.Stop.{Stoppable}
use ipfs_crawler.Main.{Config, Os, Files, Written, prepare, conclude}
use ipfs_crawler.Main.Prepared.{cached_peers}
use ipfs_crawler.Main.Concluded.{successes, IsWritten}
use ipfs_crawler.Main.Whole.{prepare-conclude, next_run}
use ipfs_crawler.Tests.Data.{
  manet, parsers, chan_limit, load, new_worker, config, first_cm, first-Inv,
}
use ipfs_crawler.Tests.Run.{ok_status, last, last-Run}
use ipfs_crawler.Tests.Files.{no_errors}
use ipfs_crawler.Tests.Peers.{broken, running}

abbrev program : Config
program = record {
  output_directory_path = "out";
  cache_file_path = some "cache.json";
  crawl_options = config;
}

-- The first run finds no cache, the second one the cache of the first.
abbrev os : Result String → Os
os cache = record {
  open_file = λ path. value "yaml";
  decode = λ text. value program;
  weak_keys_allowed = true;
  mkdir_all = λ path. none;
  read_file = λ path. cache;
}

abbrev codec : Codec
codec = record { encode = λ nodes. "two peers"; decode = λ text. value (successes last.cm) }

abbrev files : Files
files = record { metadata = no_errors; peergraph = no_errors; cache = no_errors }

abbrev stopping : ℕ → Stoppable
stopping w = record { ends = broken; plugins = "a" ∷ []; state = running }

prepared_first :
    prepare manet codec (os (error "no such file")) parsers chan_limit load new_worker "config.yaml"
    ≡ ok (value (program, first_cm, 0 ∷ []))
unfolding prepare new_crawl_manager check_manager text_dec push lookup insert add restore_node_cache
prepared_first = refl

prepare-conclude_example :
    (w : Written) × (conclude codec program last.cm (map stopping (0 ∷ [])) 0 9 files
      ≡ ok (value w))
    × IsWritten codec last.cm (map stopping (0 ∷ [])) program.cache_file_path 0 9 w
    × All
        (λ text.
          (p : AddrInfo) × (parse_peer_string parsers text ≡ value p)
          × (is_some (lookup text_dec p.id last.cm.crawled) ≡ true))
        program.crawl_options.bootstrap_peers
    × All
        (λ (p : AddrInfo). is_some (lookup text_dec p.id last.cm.crawled) ≡ true)
        (cached_peers codec (os (error "no such file")) program.cache_file_path)
unfolding has_work len
prepare-conclude_example =
    prepare-conclude manet codec (os (error "no such file")) parsers chan_limit load new_worker
      "config.yaml" program first_cm (0 ∷ []) prepared_first (omega arith) last last-Run refl files
      refl (refl, (λ k. refl), refl, refl) (refl, (λ k. refl), refl, refl)
      (refl, (λ k. refl), refl, refl) stopping 0 9

-- An earlier run has crawled `/a` only.
abbrev earlier : CrawlManager
earlier = record first_cm { crawled = ("/a", ok_status []) ∷ [] }

abbrev earlier_codec : Codec
earlier_codec = record { encode = λ nodes. "one peer"; decode = λ text. value (successes earlier) }

abbrev last_data : NodeInformation
last_data = record {
  info = record { agent_version = "kubo"; supported_protocols = "/ipfs/kad/1.0.0" ∷ [] };
  plugin_results = [];
  crawl_data_error = none;
  crawl_data_begin_ts = 1;
  crawl_data_end_ts = 2;
  crawl_neighbors = [];
}

abbrev earlier_written : Written
earlier_written = record {
  workers = [];
  metadata = record {
    start_date = 0;
    end_date = 9;
    nodes =
        record {
          id = "/a";
          multiaddrs = "/a" ∷ [];
          connection_error = none;
          result = some (to_node_data last_data);
        }
        ∷ [];
  };
  peergraph = [];
  cache = some "one peer";
}

earlier-IsWritten : IsWritten earlier_codec earlier [] program.cache_file_path 0 9 earlier_written
unfolding to_node_data lookup text_dec or_nil restore_node_cache
earlier-IsWritten = record {
  stopped = tt;
  start_date = refl;
  end_date = refl;
  nodes = (
    record {
      same_id = refl;
      addresses = refl;
      connection = refl;
      either = refl;
      node_data = to_node_data-IsNodeData last_data;
    },
    tt,
  );
  peergraph = refl;
  cache = ("one peer", refl, refl);
}

prepared_next :
    prepare manet earlier_codec
      (os (value "one peer"))
      parsers
      chan_limit
      load
      new_worker
      "config.yaml"
    ≡ ok (value (program, first_cm, 0 ∷ []))
unfolding prepare new_crawl_manager check_manager text_dec push lookup insert add restore_node_cache
    add_peers_to_crawl filter_out_old_addresses strip_local_addrs found
prepared_next = refl

next_run_example :
    All
      (λ (p : AddrInfo). is_some (lookup text_dec p.id last.cm.crawled) ≡ true)
      (successes earlier)
unfolding has_work len
next_run_example =
    next_run manet earlier_codec (os (value "one peer")) parsers chan_limit load new_worker
      "config.yaml" program first_cm (0 ∷ []) prepared_next (omega arith) last last-Run refl earlier
      [] program.cache_file_path 0 9 earlier_written "one peer" "cache.json" earlier-IsWritten refl
      refl refl

run_queue-run_line_example :
    run_queue manet
      (put (record { id = "/c"; addrs = "/c" ∷ [] }) ∷ defer ∷ take ∷ idle ∷ [])
      first_cm.to_crawl
    ≡ run_line manet
        ("/a" ∷ "/b" ∷ [])
        (λ k. lookup text_dec k first_cm.to_crawl.addr_info)
        (put (record { id = "/c"; addrs = "/c" ∷ [] }) ∷ defer ∷ take ∷ idle ∷ [])
run_queue-run_line_example =
    run_queue-run_line manet
      (put (record { id = "/c"; addrs = "/c" ∷ [] }) ∷ defer ∷ take ∷ idle ∷ []) first_cm.to_crawl
      first-Inv.covered.synced
