-- ===== src/Setup/Made.antt =====
-- What `NewCrawlManager` of crawling/crawlmanager.go returns.

use ipfs_crawler.Prelude.{
  ℕ, ◌≤◌, ◌<◌, ◌≡◌, refl, ap, subst, true, false, List, [], none, some, length, arith, All, inl,
  inr,
}
use ipfs_crawler.Result.{Result, value, error, Result-cases}
use ipfs_crawler.Types.{AddrInfo}
use ipfs_crawler.Config.{CrawlManagerConfig}
use ipfs_crawler.GoMap.{contains, lookup}
use ipfs_crawler.AddrTools.{Manet}
use ipfs_crawler.Queue.{empty}
use ipfs_crawler.Manager.{CrawlManager}
use ipfs_crawler.Manager.Coverage.{tracked, IsCovered}
use ipfs_crawler.Setup.{Parsers, parse_peer_string, add_bootstrap, assemble}
use ipfs_crawler.Setup.Start.{Filled, IsReady, add_bootstrap-IsReady}
use ipfs_crawler.System.{System}
use ipfs_crawler.System.Invariant.{Inv}

-- The loop at its start, with no goroutine.
abbrev pub started : CrawlManager → System
started cm = record { cm = cm; crawling = []; returning = []; history = [] }

pub IsReady-Inv :
    (cm : CrawlManager) (bucket : List ℕ) (size workers : ℕ)
    → IsReady bucket size workers cm
    → length bucket ≤ size
    → All (λ t. t < workers) bucket
    → Inv (length bucket) (started cm)
unfolding contains
IsReady-Inv cm bucket size workers r fits valid = record {
  covered = r.covered;
  entries = rw r.fresh tt;
  unique = rw r.fresh tt;
  balance = omega (arith, ap length r.tokens);
  room = omega (arith, r.capacity);
  in_bucket = rw (r.tokens, r.staff) valid;
  in_crawls = tt;
  in_returns = tt;
  apart = tt;
  flying = λ k. rw r.idle;
}

blank_IsCovered : (cm : CrawlManager) → cm.to_crawl ≡ empty → cm.crawled ≡ [] → IsCovered cm
unfolding contains lookup
blank_IsCovered cm q c = record {
  synced = rw q (record { distinct = tt; same = λ k. refl; known = λ k m. ground arith });
  sound = λ k st e. let f : none ≡ some st = rw c at e in cc;
  covered = λ k e. let f : false ≡ true = rw q at e in cc;
  closed = λ k st n e m p. let f : none ≡ some st = rw c at e in cc;
}

module _ (manet : Manet) (parsers : Parsers) where
  -- A manager that is ready: as many tokens as requests are allowed, nothing crawled, and every
  -- bootstrap peer parsed and tracked.
  pub record IsFresh (config : CrawlManagerConfig) (cm : CrawlManager) : Type 0 where
    pub inv : Inv config.concurrent_requests (started cm)
    pub none_crawled : cm.crawled ≡ []
    pub none_in_progress : cm.crawls_in_progress ≡ []
    pub seeded :
        All
          (λ text.
            (p : AddrInfo) × (parse_peer_string parsers text ≡ value p) × (tracked cm p.id ≡ true))
          config.bootstrap_peers

  -- An error, or a manager that is ready.
  abbrev pub Made : {W : Type 0} → CrawlManagerConfig → Result (CrawlManager × List W) → Type 0
  Made config (error e) = Unit {0}
  Made config (value (cm, workers)) = IsFresh config cm × (length workers ≡ config.num_workers)

  pub assemble-Made :
      {W : Type 0} (config : CrawlManagerConfig) (workers : List W) (bucket : List ℕ) (size : ℕ)
      → length workers ≡ config.num_workers
      → Filled config.num_workers config.concurrent_requests bucket
      → config.concurrent_requests ≤ size
      → Made config (assemble manet parsers config workers bucket size)
  unfolding assemble
  assemble-Made config workers bucket size staff (n, valid) fits =
      let blank : CrawlManager = record {
        token_bucket = bucket;
        bucket_cap = size;
        num_workers = length workers;
        crawls_in_progress = [];
        crawled = [];
        to_crawl = empty;
      } in
      let ready : IsReady bucket size config.num_workers blank = record {
        tokens = refl;
        capacity = refl;
        staff = staff;
        idle = refl;
        fresh = refl;
        covered = blank_IsCovered blank refl refl;
      } in
      elim (Result-cases (add_bootstrap manet parsers blank config.bootstrap_peers)) [
        | inr (e, q) ↦ rw q tt
        | inl (cm, q) ↦
            let (r, _, seeded) =
              add_bootstrap-IsReady manet parsers blank cm config.bootstrap_peers ready q in
            rw q (
              record {
                inv =
                    subst (λ t. Inv t (started cm)) n
                      (IsReady-Inv cm bucket size config.num_workers r (omega (arith, n)) valid);
                none_crawled = r.fresh;
                none_in_progress = r.idle;
                seeded = seeded;
              },
              staff,
            )
      ]
