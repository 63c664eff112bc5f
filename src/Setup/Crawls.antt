-- ===== src/Setup/Crawls.antt =====
-- A crawl from its configuration to its end: `NewCrawlManager`, `AddPeersToCrawl` and then the loop
-- of `CrawlNetwork`.
use ipfs_crawler.Prelude.{
  ℕ, ◌*◌, ◌^◌, ◌≤◌, ◌<◌, ◌≡◌, refl, subst, true, false, List, [], ◌∷◌, String, length, is_some,
  text_dec, arith, All, All-map,
}
use ipfs_crawler.Panic.{ok, Exec, WhenOk}
use ipfs_crawler.Result.{Result, value}
use ipfs_crawler.Types.{PeerId, AddrInfo}
use ipfs_crawler.Config.{CrawlManagerConfig}
use ipfs_crawler.GoMap.{contains, lookup}
use ipfs_crawler.AddrTools.{Manet}
use ipfs_crawler.Manager.{CrawlManager, has_work, add_peers_to_crawl}
use ipfs_crawler.Manager.Coverage.{tracked, push-IsCovered, push-keeps}
use ipfs_crawler.Setup.{Parsers, parse_peer_string, new_crawl_manager}
use ipfs_crawler.Setup.Start.{IsReady, pushed, pushed-IsReady}
use ipfs_crawler.Setup.Made.{started, IsReady-Inv, IsFresh, Made}
use ipfs_crawler.Setup.Calls.{new_crawl_manager-WhenOk}
use ipfs_crawler.Queue.Budget.{allowance}
use ipfs_crawler.System.{System, Run}
use ipfs_crawler.System.Contacts.{times}
use ipfs_crawler.System.Invariant.{Inv}
use ipfs_crawler.System.Complete.{Reached, seed, crawl_complete}
use ipfs_crawler.System.Budget.{Within, contacts_bounded}

module _ (manet : Manet) where
  -- Peers that are added before the crawl are queued, and all that was queued stays so.
  add_peers-IsReady :
      {bucket : List ℕ} {size workers : ℕ} (cm : CrawlManager) (peers : List AddrInfo)
      → IsReady bucket size workers cm
      → IsReady bucket size workers (add_peers_to_crawl manet cm peers)
        × ((k : PeerId)
            → tracked cm k ≡ true
            → tracked (add_peers_to_crawl manet cm peers) k ≡ true)
        × All (λ (p : AddrInfo). tracked (add_peers_to_crawl manet cm peers) p.id ≡ true) peers
  unfolding add_peers_to_crawl
  add_peers-IsReady cm [] r = (r, λ k t. t, tt)
  add_peers-IsReady cm (p ∷ peers) r =
      let (ready, keeps, rest) =
        add_peers-IsReady (pushed manet cm p) peers (pushed-IsReady manet cm p r) in
      (
        ready,
        λ k t. keeps k (push-keeps manet cm p k t),
        (keeps p.id (push-IsCovered manet cm p r.fresh r.covered).1, rest),
      )

  IsFresh-IsReady :
      (parsers : Parsers) (config : CrawlManagerConfig) (cm : CrawlManager)
      → IsFresh manet parsers config cm
      → IsReady cm.token_bucket cm.bucket_cap cm.num_workers cm
  IsFresh-IsReady parsers config cm f = record {
    tokens = refl;
    capacity = refl;
    staff = refl;
    idle = f.none_in_progress;
    fresh = f.none_crawled;
    covered = f.inv.covered;
  }

  -- Before the crawl a queued peer has an address list, and nothing was contacted.
  started-Within :
      (cm : CrawlManager) (k : PeerId) {total : ℕ}
      → Inv total (started cm)
      → Within manet k (started cm)
  unfolding contains
  started-Within cm k inv = ground (arith, inv.covered.synced.known k)

  module _ (parsers : Parsers) {P W : Type 0} (chan_limit : ℕ) (load : String → Exec (Result P))
      (new_worker : P → ℕ → Exec (Result W)) (config : CrawlManagerConfig)
      (small : config.num_workers * config.concurrent_requests < 2 ^ 64) (cm : CrawlManager)
      (workers : List W) (peers : List AddrInfo)
      (new : new_crawl_manager manet parsers chan_limit load new_worker config
        ≡ ok (value (cm, workers))) where
    new-IsFresh : IsFresh manet parsers config cm
    new-IsFresh =
        (subst (λ r. WhenOk r (Made manet parsers config)) new
          (new_crawl_manager-WhenOk manet parsers chan_limit load new_worker config small)).0

    all_tracked :
        (k : PeerId) → tracked cm k ≡ true → tracked (add_peers_to_crawl manet cm peers) k ≡ true
    all_tracked = (add_peers-IsReady cm peers (IsFresh-IsReady parsers config cm new-IsFresh)).1

    pub added-Inv : Inv (length cm.token_bucket) (started (add_peers_to_crawl manet cm peers))
    added-Inv =
        let f = new-IsFresh in
        IsReady-Inv (add_peers_to_crawl manet cm peers) cm.token_bucket cm.bucket_cap cm.num_workers
          (add_peers-IsReady cm peers (IsFresh-IsReady parsers config cm f)).0
          (omega (arith, f.inv.balance, f.inv.room)) f.inv.in_bucket

    -- Of a crawl with a configuration that `NewCrawlManager` accepts, and in which the product
    -- of the numbers of workers and of requests fits 64 bits, when the loop has come to its end:
    -- every bootstrap peer parses and is in the database, so is every added peer and every peer
    -- that the crawls reached from those; and a peer was contacted at most once, and once more
    -- for each address that is stored for it, or never if it has no stored entry.
    pub crawl_of_config :
        (t : System)
        → Run manet (started (add_peers_to_crawl manet cm peers)) t
        → has_work t.cm ≡ false
        → All
            (λ text.
              (p : AddrInfo) × (parse_peer_string parsers text ≡ value p)
              × (is_some (lookup text_dec p.id t.cm.crawled) ≡ true))
            config.bootstrap_peers
          × All (λ (p : AddrInfo). is_some (lookup text_dec p.id t.cm.crawled) ≡ true) peers
          × ((k : PeerId)
              → Reached manet (add_peers_to_crawl manet cm peers) t.cm k
              → is_some (lookup text_dec k t.cm.crawled) ≡ true)
          × ((k : PeerId) → times k t.history ≤ allowance t.cm.to_crawl k)
    crawl_of_config t run idle =
        let inv = added-Inv in
        let first = started (add_peers_to_crawl manet cm peers) in
        let crawled : (k : PeerId)
            → Reached manet (add_peers_to_crawl manet cm peers) t.cm k
            → is_some (lookup text_dec k t.cm.crawled) ≡ true =
          λ k r. crawl_complete manet (length cm.token_bucket) first t inv run k idle r in
        let ready = IsFresh-IsReady parsers config cm new-IsFresh in
        (
          All-map (λ text b. (b.0, b.1, crawled b.0.id (seed b.0.id (all_tracked b.0.id b.2))))
              config.bootstrap_peers new-IsFresh.seeded,
          All-map (λ p tracks. crawled p.id (seed p.id tracks)) peers
              (add_peers-IsReady cm peers ready).2,
          crawled,
          λ k. omega (
            arith,
            contacts_bounded manet k inv (started-Within (add_peers_to_crawl manet cm peers) k inv)
                run,
          ),
        )
