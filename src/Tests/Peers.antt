-- ===== src/Tests/Peers.antt =====
-- The theorems on the crawler and the worker, for a peer that answers each request with one neighbor.
use ipfs_crawler.Prelude.{
  String, ℕ, ◌+◌, ◌≤◌, ◌≡◌, refl, true, false, List, [], ◌∷◌, ◌++◌, Option, none, some, ◌⊎◌,
  text_dec, suc, ◌<◌,
}
use ipfs_crawler.Panic.{ok}
use ipfs_crawler.Result.{Result, value, error}
use ipfs_crawler.Types.{PeerId, AddrInfo, CrawlData, RawNodeInformation, Time, Exclusive}
use ipfs_crawler.Config.{check_crawler, check_worker}
use ipfs_crawler.Preimage.{PreimageHandler, BinId}
use ipfs_crawler.Crawler.{Reply, Exchange, message, Progress, full_neighbor_crawl, handle_peer}
use ipfs_crawler.Crawler.Answers.{Gathers, full_neighbor_crawl-Gathers, IsNews}
use ipfs_crawler.Crawler.Handled.{handle_peer-Exclusive}
use ipfs_crawler.System.{IsLawful}
use ipfs_crawler.Worker.{Surroundings, Libp2pWorker, crawl_peer, a_string, Plugin}
use ipfs_crawler.Worker.Stop.{
  Closing, Endings, Stoppable, stop, stop_all, stop-stop, stop_without_error, stop_all-AllStopped,
  AllStopped,
}
use ipfs_crawler.Worker.Promise.{outcome, IsCrawled, crawl_peer-IsLawful}
use ipfs_crawler.Tests.Data.{config}

abbrev pub ph : PreimageHandler
ph = record { preimages = λ target. target + 1 }

abbrev pub kad : PeerId → BinId
kad p = record { byte0 = 7; byte1 = 8; byte2 = 9 }

abbrev pub unmarshal : String → Result (List AddrInfo)
unmarshal text = value (record { id = text; addrs = [] } ∷ [])

abbrev answer : ℕ → ℕ → ℕ → Exchange
answer target i j = message "/b" none

abbrev connected : ℕ → Reply (Option ℕ)
connected i = record { content = some i; err = none }

abbrev pub remote : AddrInfo
remote = record { id = "/a"; addrs = "/a" ∷ [] }

abbrev pub env : Surroundings ℕ ℕ
env = record {
  dial = connected;
  new_stream = connected;
  answer = answer;
  agent = value (a_string "kubo");
  protocols = error "unknown";
  begun = 0;
  started = 1;
  finished = 2;
  ended = 3;
}

abbrev pub prober : Plugin
prober = record {
  name = "bitswap-probe";
  handle_peer = λ p. ok (record { content = none; err = some "refused" });
}

abbrev worker : Libp2pWorker
worker = record {
  config = config.worker_config;
  plugins = prober ∷ [];
  crawler_config = config.crawler_config;
  preimage_handler = ph;
  kad = kad;
  unmarshal = unmarshal;
}

full_neighbor_crawl-Gathers_example :
    (st : Progress) × (n : ℕ) × (full_neighbor_crawl ph kad unmarshal answer config.crawler_config
        "/a"
      ≡ ok (some st))
    × (4 ≤ n)
    × (n ≤ 24)
    × ((j : ℕ)
        → 4 ≤ suc j
        → suc j < n
        → IsNews ph kad unmarshal answer config.crawler_config "/a" j)
    × ((n ≡ 24)
        ⊎ ((j : ℕ) → n ≡ suc j → ¬ IsNews ph kad unmarshal answer config.crawler_config "/a" j))
    × Gathers ph kad unmarshal answer config.crawler_config "/a" n st
full_neighbor_crawl-Gathers_example =
    full_neighbor_crawl-Gathers ph kad unmarshal answer config.crawler_config "/a"

handle_peer-Exclusive_example :
    (r : Reply (Option CrawlData)) × (handle_peer ph kad unmarshal answer config.crawler_config "/a"
        connected 1 2
      ≡ ok (some r))
    × Exclusive r.err r.content
unfolding check_crawler
handle_peer-Exclusive_example =
    handle_peer-Exclusive ph kad unmarshal answer config.crawler_config "/a" connected 1 2 refl
      (λ i. refl)

crawl_peer-IsLawful_example :
    (r : Reply (Option RawNodeInformation)) × (crawl_peer worker env remote ≡ ok (some r))
    × ((before after : Time) → IsLawful (outcome r before after))
    × IsCrawled r.content
unfolding check_crawler check_worker text_dec
crawl_peer-IsLawful_example =
    crawl_peer-IsLawful worker env remote tt
      ((record { content = none; err = some "refused" }, refl), tt) refl (λ i. refl) refl
      (λ i. refl)

abbrev pub broken : Endings
broken = record { plugin = λ name. some "stuck"; host = none }

abbrev fine : Endings
fine = record { plugin = λ name. none; host = none }

abbrev pub running : Closing
running = record {
  closed = false;
  crawler_shutdown = false;
  plugins_shutdown = [];
  host_closed = false;
}

stop-stop_example :
    stop fine ("a" ∷ "b" ∷ []) (stop broken ("a" ∷ "b" ∷ []) running).1
    ≡ (none, (stop broken ("a" ∷ "b" ∷ []) running).1)
stop-stop_example = stop-stop broken fine ("a" ∷ "b" ∷ []) running

stop_without_error_example : (stop fine ("a" ∷ "b" ∷ []) running).1 ≡ record {
  closed = true;
  crawler_shutdown = true;
  plugins_shutdown = [] ++ "a" ∷ "b" ∷ [];
  host_closed = true;
}
unfolding stop
stop_without_error_example = stop_without_error fine ("a" ∷ "b" ∷ []) running refl refl

abbrev stopping : List Stoppable
stopping = record { ends = broken; plugins = "a" ∷ "b" ∷ []; state = running } ∷ []

stop_all-AllStopped_example : AllStopped stopping (stop_all stopping)
stop_all-AllStopped_example = stop_all-AllStopped stopping
