-- ===== src/Main/Whole.antt =====
-- cmd/ipfs-crawler/main.go from its configuration to its files, and one run after the other.
use ipfs_crawler.Prelude.{
  String, ℕ, ◌*◌, ◌^◌, ◌<◌, ◌≡◌, ap, ◌∙◌, subst, true, false, List, Option, some, is_some, text_dec,
  All, length, map,
}
use ipfs_crawler.Panic.{ok, Exec}
use ipfs_crawler.Result.{Result, value}
use ipfs_crawler.Types.{AddrInfo, Time}
use ipfs_crawler.GoMap.{lookup}
use ipfs_crawler.AddrTools.{Manet}
use ipfs_crawler.Manager.{CrawlManager, has_work, add_peers_to_crawl}
use ipfs_crawler.Setup.{Parsers, parse_peer_string}
use ipfs_crawler.Setup.Made.{started}
use ipfs_crawler.Setup.Crawls.{added-Inv, crawl_of_config}
use ipfs_crawler.System.{System, Run}
use ipfs_crawler.System.Invariant.{Inv}
use ipfs_crawler.System.Invariant.Runs.{Run-Inv}
use ipfs_crawler.Output.Total.{end-IsClosed}
use ipfs_crawler.Output.Cache.{Codec, restore_node_cache}
use ipfs_crawler.Worker.Stop.{Stoppable}
use ipfs_crawler.Main.{Config, Os, Files, Written, prepare, conclude}
use ipfs_crawler.Main.Prepared.{IsPrepared, prepare-IsPrepared, restored, cached_peers}
use ipfs_crawler.Main.Concluded.{
  IsFine, successes, IsCached-restored, IsWritten, conclude-IsWritten,
}

module _ (manet : Manet) (codec : Codec) (os : Os) (parsers : Parsers) {P W : Type 0}
    (chan_limit : ℕ) (load : String → Exec (Result P)) (new_worker : P → ℕ → Exec (Result W))
    (path : String) (config : Config) (cm : CrawlManager) (workers : List W)
    (prepared : prepare manet codec os parsers chan_limit load new_worker path
      ≡ ok (value (config, cm, workers)))
    (small : config.crawl_options.num_workers * config.crawl_options.concurrent_requests < 2 ^ 64)
    (t : System) (run : Run manet (started cm) t) (idle : has_work t.cm ≡ false) where
  ready : IsPrepared manet codec os parsers chan_limit load new_worker path config cm workers
  ready =
      prepare-IsPrepared manet codec os parsers chan_limit load new_worker path config cm workers
        prepared

  same_crawl :
      Run manet
        (started
          (add_peers_to_crawl manet ready.made (cached_peers codec os config.cache_file_path)))
        t
  same_crawl = subst (λ c. Run manet (started c) t) ready.cached run

  last-Inv : Inv (length ready.made.token_bucket) t
  last-Inv =
      Run-Inv manet (length ready.made.token_bucket)
        (added-Inv manet parsers chan_limit load new_worker config.crawl_options small ready.made
          workers (cached_peers codec os config.cache_file_path) ready.new)
        same_crawl

  -- The bootstrap peers and the restored peers are in the database.
  in_database :
      All
        (λ text.
          (p : AddrInfo) × (parse_peer_string parsers text ≡ value p)
          × (is_some (lookup text_dec p.id t.cm.crawled) ≡ true))
        config.crawl_options.bootstrap_peers
      × All
          (λ (p : AddrInfo). is_some (lookup text_dec p.id t.cm.crawled) ≡ true)
          (cached_peers codec os config.cache_file_path)
  in_database =
      let (boot, restored, _, _) =
        crawl_of_config manet parsers chan_limit load new_worker config.crawl_options small
          ready.made workers (cached_peers codec os config.cache_file_path) ready.new t same_crawl
          idle in
      (boot, restored)

  -- When `main` has prepared a crawl from its configuration, with a product of the numbers of workers
  -- and of requests that fits 64 bits, and the loop of the crawl has come to its end, then `main`
  -- concludes without a panic and without an error, if no call on a file fails and the JSON decoder
  -- reads back the list of peers for the cache from its encoding. All workers are stopped then, in the
  -- way of `CrawlManager.Stop`, so far as their plugins and hosts let them; the
  -- metadata file describes each node of the database, the peer graph file holds exactly its edges,
  -- and a configured cache holds the peers that were crawled with success. Each bootstrap peer of the
  -- configuration, and each peer that was restored from the cache, is in the database.
  pub prepare-conclude :
      (files : Files)
      → codec.decode (codec.encode (successes t.cm)) ≡ value (successes t.cm)
      → IsFine files.metadata
      → IsFine files.peergraph
      → IsFine files.cache
      → (stopping : W → Stoppable) (before after : Time)
      → (w : Written) × (conclude codec config t.cm (map stopping workers) before after files
          ≡ ok (value w))
        × IsWritten codec t.cm (map stopping workers) config.cache_file_path before after w
        × All
            (λ text.
              (p : AddrInfo) × (parse_peer_string parsers text ≡ value p)
              × (is_some (lookup text_dec p.id t.cm.crawled) ≡ true))
            config.crawl_options.bootstrap_peers
        × All
            (λ (p : AddrInfo). is_some (lookup text_dec p.id t.cm.crawled) ≡ true)
            (cached_peers codec os config.cache_file_path)
  prepare-conclude files inverse metadata peergraph cache stopping before after =
      let closed =
        end-IsClosed manet (length ready.made.token_bucket) _ t
          (added-Inv manet parsers chan_limit load new_worker config.crawl_options small ready.made
            workers (cached_peers codec os config.cache_file_path) ready.new)
          same_crawl idle in
      let (w, done, written) =
        conclude-IsWritten codec t.cm last-Inv.entries inverse files metadata peergraph cache
          (map stopping workers) before after config closed in
      (w, done, written, in_database.0, in_database.1)

  -- If moreover an earlier run of the program has left a cache, whose content the configuration names
  -- and `os.ReadFile` returns, then every peer that was crawled with success in the earlier run is in
  -- the database at the end of this one.
  pub next_run :
      (earlier : CrawlManager) (earlier_workers : List Stoppable) (earlier_path : Option String)
      (before after : Time) (w : Written) (text cache_path : String)
      → IsWritten codec earlier earlier_workers earlier_path before after w
      → w.cache ≡ some text
      → config.cache_file_path ≡ some cache_path
      → os.read_file cache_path ≡ value text
      → All
          (λ (p : AddrInfo). is_some (lookup text_dec p.id t.cm.crawled) ≡ true)
          (successes earlier)
  next_run earlier earlier_workers earlier_path before after w text cache_path written left named
        reads =
      let restores = IsCached-restored codec earlier earlier_path w.cache text written.cache left in
      subst (All (λ (p : AddrInfo). is_some (lookup text_dec p.id t.cm.crawled) ≡ true))
        (ap (cached_peers codec os) named
          ∙ ap (λ r. restored (restore_node_cache codec r)) reads
          ∙ ap restored restores)
        in_database.1
