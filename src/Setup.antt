-- ===== src/Setup.antt =====
-- `NewCrawlManager` of crawling/crawlmanager.go, and `parsePeerString` of crawling/addr_tools.go.
pub mod Start
pub mod Made
pub mod Calls
pub mod Crawls
pub mod Program
use Prim.Native.String.{◌++◌ as ◌<>◌}
use text.Mathlib.Text.{starts_with}
use ipfs_crawler.Prelude.{
  ℕ, zero, suc, ◌+◌, ◌*◌, ◌%◌, ◌^◌, Bool, true, false, List, [], ◌∷◌, ◌++◌, Option, none, some,
  String, if◌then◌else◌, length, ltb,
}
use ipfs_crawler.Panic.{Exec, ok, fault, deadlock, bad_size}
use ipfs_crawler.Panic
use ipfs_crawler.Result.{Result, value, error, ◌>>=◌}
use ipfs_crawler.Types.{PeerId, Multiaddr, AddrInfo, Error}
use ipfs_crawler.Config.{CrawlManagerConfig, check_manager}
use ipfs_crawler.AddrTools.{Manet}
use ipfs_crawler.Queue.{empty, push}
use ipfs_crawler.Manager.{CrawlManager}

-- `ma.NewMultiaddr` and `peer.AddrInfoFromP2pAddr`
pub record Parsers : Type 0 where
  pub new_multiaddr : String → Result Multiaddr
  pub addr_info_from_p2p_addr : Multiaddr → Result AddrInfo

unfoldable pub parse_peer_string : Parsers → String → Result AddrInfo
parse_peer_string parsers text =
    if starts_with text "/"
    then (do maddr ← parsers.new_multiaddr text; parsers.addr_info_from_p2p_addr maddr)
    else error "invalid p2p peer multiaddr"

-- `cm.tokenBucket <- int(i % config.NumWorkers)` for i from `i` on. Nothing receives yet.
unfoldable pub fill_tokens : ℕ → ℕ → ℕ → ℕ → List ℕ → Exec (List ℕ)
fill_tokens zero i workers cap bucket = ok bucket
fill_tokens (suc rounds) i workers cap bucket =
    let rest = fill_tokens rounds (i + 1) workers cap (bucket ++ (i % workers) ∷ []) in
    if ltb (length bucket) cap then rest else fault deadlock

unfoldable pub with_worker :
    {W : Type 0} → Exec (Result (List W)) → Result W → Exec (Result (List W))
with_worker rest (error e) = ok (error e)
with_worker rest (value w) = Panic.◌>>=◌ rest (λ made. ok (do ws ← made; value (w ∷ ws)))

-- The workers are made in turn; the first failure ends it.
unfoldable pub new_workers : {W : Type 0} → (ℕ → Exec (Result W)) → ℕ → ℕ → Exec (Result (List W))
unfolding with_worker
new_workers new_worker zero i = ok (value [])
new_workers new_worker (suc n) i =
    let rest = new_workers new_worker n (i + 1) in Panic.◌>>=◌ (new_worker i) (with_worker rest)

module _ (manet : Manet) (parsers : Parsers) where
  unfoldable pub add_bootstrap : CrawlManager → List String → Result CrawlManager
  unfolding parse_peer_string
  add_bootstrap cm [] = value cm
  add_bootstrap cm (maddr ∷ rest) = do
    pinfo ← parse_peer_string parsers maddr
    add_bootstrap (record cm { to_crawl = push manet cm.to_crawl pinfo false }) rest

  -- The manager with an empty queue, and its workers.
  unfoldable pub assemble :
      {W : Type 0} → CrawlManagerConfig → List W → List ℕ → ℕ → Result (CrawlManager × List W)
  unfolding add_bootstrap
  assemble config workers bucket cap = do
    cm ←
        add_bootstrap
          (record {
            token_bucket = bucket;
            bucket_cap = cap;
            num_workers = length workers;
            crawls_in_progress = [];
            crawled = [];
            to_crawl = empty;
          })
          config.bootstrap_peers
    value (cm, workers)

  -- The capacity is a product of `uint`s, and `make` panics for one above `chan_limit`, which the
  -- runtime sets. `load` is `LoadPreimages` on the files there are, `new_worker` the i-th call of
  -- `NewLibp2pWorker`; both may panic.
  module _ {P W : Type 0} (chan_limit : ℕ) (load : String → Exec (Result P))
      (new_worker : P → ℕ → Exec (Result W)) where
    unfoldable pub populate :
        CrawlManagerConfig → Result (List W) → Exec (Result (CrawlManager × List W))
    unfolding assemble fill_tokens
    populate config (error e) = ok (error ("unable to create worker: " <> e))
    populate config (value workers) =
        let cap = config.num_workers * config.concurrent_requests % 2 ^ 64 in
        Panic.◌>>=◌ (fill_tokens config.concurrent_requests 0 config.num_workers cap [])
          (λ bucket. ok (assemble config workers bucket cap))

    unfoldable pub with_preimages :
        CrawlManagerConfig → Result P → Exec (Result (CrawlManager × List W))
    unfolding populate new_workers
    with_preimages config (error e) = ok (error ("unable to load preimages: " <> e))
    with_preimages config (value handler) =
        let workers = new_workers (new_worker handler) config.num_workers 0 in
        if ltb chan_limit (config.num_workers * config.concurrent_requests % 2 ^ 64)
        then fault bad_size
        else Panic.◌>>=◌ workers (populate config)

    unfoldable pub new_crawl_manager : CrawlManagerConfig → Exec (Result (CrawlManager × List W))
    unfolding with_preimages
    new_crawl_manager config = elim (check_manager config) [
      | some e ↦ ok (error ("invalid config: " <> e))
      | none ↦ Panic.◌>>=◌ (load config.preimage_file_path) (with_preimages config)
    ]
