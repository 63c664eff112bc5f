-- ===== src/Setup/Calls.antt =====
-- What `NewCrawlManager` of crawling/crawlmanager.go returns, for any calls of `LoadPreimages` and of
-- `NewLibp2pWorker`.
use Prim.Native.String.{◌++◌ as ◌<>◌}
use ipfs_crawler.Prelude.{
  ℕ, ◌*◌, ◌%◌, ◌^◌, ◌≤◌, ◌<◌, ◌≡◌, refl, subst, false, List, [], String, arith, inl, inr,
  Option-cases, Bool-cases, ltb,
}
use ipfs_crawler.Panic.{
  ok, Returns, Returns-bind, Exec, fault, WhenOk, WhenOk-bind, Returns-WhenOk, Returns-value,
}
use ipfs_crawler.Result.{Result, value, error}
use ipfs_crawler.Config.{CrawlManagerConfig, check_manager, check_manager_iff}
use ipfs_crawler.AddrTools.{Manet}
use ipfs_crawler.Manager.{CrawlManager}
use ipfs_crawler.Setup.{
  Parsers, fill_tokens, new_workers, assemble, populate, with_preimages, new_crawl_manager,
}
use ipfs_crawler.Setup.Start.{
  Filled, fill_tokens_start, Staffed, new_workers-Staffed, new_workers-ok,
}
use ipfs_crawler.Setup.Made.{Made, assemble-Made}

product_fits : (n c : ℕ) → 0 < n → n * c < 2 ^ 64 → c ≤ n * c % 2 ^ 64
product_fits n c positive small = let grows : c ≤ n * c = grind arith in omega arith

size_fits : (n limit : ℕ) → n ≤ limit → ltb limit (n % 2 ^ 64) ≡ false
size_fits n limit h = ground arith

WhenOk-any : {A : Type 0} (m : Exec A) → WhenOk m (λ a. Unit {0})
WhenOk-any (ok a) = tt
WhenOk-any (fault e) = tt

module _ (manet : Manet) (parsers : Parsers) where
  module _ {P W : Type 0} (chan_limit : ℕ) (load : String → Exec (Result P))
      (new_worker : P → ℕ → Exec (Result W)) where
    populate-Made :
        (config : CrawlManagerConfig) (workers : Result (List W))
        → 0 < config.num_workers
        → config.num_workers * config.concurrent_requests < 2 ^ 64
        → Staffed config.num_workers workers
        → Returns
            (populate manet parsers chan_limit load new_worker config workers)
            (Made manet parsers config)
    unfolding populate
    populate-Made config (error e) positive small staff = tt
    populate-Made config (value ws) positive small staff =
        let size = config.num_workers * config.concurrent_requests % 2 ^ 64 in
        let fits = product_fits config.num_workers config.concurrent_requests positive small in
        Returns-bind (fill_tokens config.concurrent_requests 0 config.num_workers size [])
          (λ bucket. ok (assemble manet parsers config ws bucket size))
          (Filled config.num_workers config.concurrent_requests) (Made manet parsers config)
          (fill_tokens_start config.concurrent_requests config.num_workers size positive fits)
          (λ bucket filled. assemble-Made manet parsers config ws bucket size staff filled fits)

    with_preimages-Made :
        (config : CrawlManagerConfig) (handler : Result P)
        → 0 < config.num_workers
        → config.num_workers * config.concurrent_requests < 2 ^ 64
        → WhenOk
            (with_preimages manet parsers chan_limit load new_worker config handler)
            (Made manet parsers config)
    unfolding with_preimages
    with_preimages-Made config (error e) positive small = tt
    with_preimages-Made config (value handler) positive small =
        let make = populate manet parsers chan_limit load new_worker config in
        let size = config.num_workers * config.concurrent_requests % 2 ^ 64 in
        elim (Bool-cases (ltb chan_limit size)) [
          | inl over ↦ rw (with_preimages, over) tt
          | inr fits ↦
              rw (with_preimages, fits)
                (WhenOk-bind (new_workers (new_worker handler) config.num_workers 0) make
                  (Staffed config.num_workers) (Made manet parsers config)
                  (new_workers-Staffed (new_worker handler) config.num_workers 0)
                  (λ ws s.
                    Returns-WhenOk (make ws) (Made manet parsers config)
                      (populate-Made config ws positive small s)))
        ]

    -- A manager that is returned is ready.
    pub new_crawl_manager-WhenOk :
        (config : CrawlManagerConfig)
        → config.num_workers * config.concurrent_requests < 2 ^ 64
        → WhenOk
            (new_crawl_manager manet parsers chan_limit load new_worker config)
            (Made manet parsers config)
    unfolding new_crawl_manager
    new_crawl_manager-WhenOk config small = elim (Option-cases (check_manager config)) [
      | inr (e, failed) ↦ rw (failed, new_crawl_manager) tt
      | inl passed ↦
          rw (passed, new_crawl_manager)
            (WhenOk-bind (load config.preimage_file_path)
              (with_preimages manet parsers chan_limit load new_worker config)
              (λ (r : Result P). Unit {0}) (Made manet parsers config)
              (WhenOk-any (load config.preimage_file_path))
              (λ r _. with_preimages-Made config r ((check_manager_iff config).0 passed).1 small))
    ]

    with_preimages-ok :
        (config : CrawlManagerConfig) (handler : Result P)
        → 0 < config.num_workers
        → config.num_workers * config.concurrent_requests < 2 ^ 64
        → config.num_workers * config.concurrent_requests ≤ chan_limit
        → ((h : P) (i : ℕ) → (w : Result W) × (new_worker h i ≡ ok w))
        → (r : Result (CrawlManager × List W)) × (with_preimages manet parsers chan_limit load
              new_worker config handler
            ≡ ok r)
    unfolding with_preimages
    with_preimages-ok config (error e) positive small fits staff = (_, refl)
    with_preimages-ok config (value handler) positive small fits staff =
        let (ws, made) = new_workers-ok (new_worker handler) config.num_workers 0 (staff handler) in
        let s : WhenOk (ok ws) (Staffed config.num_workers) =
          subst (λ m. WhenOk m (Staffed config.num_workers)) made
            (new_workers-Staffed (new_worker handler) config.num_workers 0) in
        let (r, filled, _) =
          Returns-value (populate manet parsers chan_limit load new_worker config ws)
            (Made manet parsers config) (populate-Made config ws positive small s) in
        let room = size_fits (config.num_workers * config.concurrent_requests) chan_limit fits in
        (r, rw (with_preimages, room, made) filled)

    new_crawl_manager-ok :
        (config : CrawlManagerConfig)
        → config.num_workers * config.concurrent_requests < 2 ^ 64
        → config.num_workers * config.concurrent_requests ≤ chan_limit
        → ((r : Result P) × (load config.preimage_file_path ≡ ok r))
        → ((h : P) (i : ℕ) → (w : Result W) × (new_worker h i ≡ ok w))
        → (r : Result (CrawlManager × List W)) × (new_crawl_manager manet parsers chan_limit load
              new_worker config
            ≡ ok r)
    unfolding new_crawl_manager
    new_crawl_manager-ok config small fits loads staff =
        elim (Option-cases (check_manager config)) [
          | inr (e, failed) ↦ (error ("invalid config: " <> e), rw (new_crawl_manager, failed) refl)
          | inl passed ↦
              let (handler, loaded) = loads in
              let (r, made) =
                with_preimages-ok config handler ((check_manager_iff config).0 passed).1 small fits
                  staff in
              (r, rw (new_crawl_manager, passed, loaded) made)
        ]

    -- For every configuration in which the product of the numbers of workers and of requests
    -- fits 64 bits and is not above the runtime's limit on the capacity of a channel, and if no
    -- call of `LoadPreimages` and of `NewLibp2pWorker` panics, `NewCrawlManager` does not panic
    -- and does not block on the tokens: it returns an error, or as many workers as configured
    -- and a manager that has the invariant, with one token for each request, nothing crawled, and
    -- every bootstrap peer parsed and queued.
    pub new_crawl_manager-Made :
        (config : CrawlManagerConfig)
        → config.num_workers * config.concurrent_requests < 2 ^ 64
        → config.num_workers * config.concurrent_requests ≤ chan_limit
        → ((r : Result P) × (load config.preimage_file_path ≡ ok r))
        → ((h : P) (i : ℕ) → (w : Result W) × (new_worker h i ≡ ok w))
        → Returns
            (new_crawl_manager manet parsers chan_limit load new_worker config)
            (Made manet parsers config)
    new_crawl_manager-Made config small fits loads staff =
        let (r, e) = new_crawl_manager-ok config small fits loads staff in
        let good : WhenOk (ok r) (Made manet parsers config) =
          subst (λ m. WhenOk m (Made manet parsers config)) e
            (new_crawl_manager-WhenOk config small) in
        rw e good
