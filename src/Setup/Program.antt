-- ===== src/Setup/Program.antt =====
-- `NewCrawlManager` of crawling/crawlmanager.go with the functions that it calls: `LoadPreimages` of
-- crawling/preimage.go and `NewLibp2pWorker` of crawling/libp2p_worker.go.
use Prim.Native.String.{◌++◌ as ◌<>◌}
use ipfs_crawler.Prelude.{ℕ, ◌≡◌, true, List, String, Bool}
use ipfs_crawler.Panic.{Exec}
use ipfs_crawler.Result.{Result, value, error}
use ipfs_crawler.Config.{CrawlManagerConfig}
use ipfs_crawler.AddrTools.{Manet}
use ipfs_crawler.Manager.{CrawlManager}
use ipfs_crawler.Preimage.{PreimageHandler}
use ipfs_crawler.Preimage.Text.{Bytes}
use ipfs_crawler.Preimage.Load.{load_preimages}
use ipfs_crawler.Plugins.{Drivers}
use ipfs_crawler.Worker.{Libp2pWorker}
use ipfs_crawler.Worker.Make.{Libp2p, new_libp2p_worker}
use ipfs_crawler.Setup.{Parsers, new_crawl_manager}
use ipfs_crawler.Setup.Made.{Made}

-- What `libp2p.New` returns is a `BasicHost`, or an error.
abbrev pub IsBasic : Result Bool → Type 0
IsBasic (error e) = Unit {0}
IsBasic (value basic) = basic ≡ true

-- `open_lines` opens the file of preimages and gives its lines; `libs` is what libp2p gives to the i-th
-- worker.
module _ (manet : Manet) (parsers : Parsers) (chan_limit : ℕ)
    (open_lines : String → Result (List Bytes)) (libs : ℕ → Libp2p) (drivers : Drivers) where
  unfoldable pub make_worker : CrawlManagerConfig → PreimageHandler → ℕ → Exec (Result Libp2pWorker)
  unfolding new_libp2p_worker
  make_worker config ph i =
      new_libp2p_worker (libs i) drivers config.worker_config config.plugins ph
        config.crawler_config

  unfoldable pub make_manager :
      CrawlManagerConfig → Exec (Result (CrawlManager × List Libp2pWorker))
  unfolding new_crawl_manager make_worker load_preimages
  make_manager config =
      new_crawl_manager manet parsers chan_limit (λ path. load_preimages (open_lines path))
        (make_worker config) config
