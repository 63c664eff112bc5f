-- ===== src/Manager/Frames.antt =====
-- The cases of the `select` in `CrawlNetwork`: the fields that they leave alone, and the two ways in
-- which a token is used.
use ipfs_crawler.Prelude.{
  ℕ, ◌≡◌, ◌∙◌, false, List, [], ◌∷◌, ◌++◌, Option, none, some, text_dec, arith, ◌⊎◌, inl, inr,
  Bool-cases,
}
use ipfs_crawler.Types.{PeerId, AddrInfo, NodeCrawlResult}
use ipfs_crawler.GoMap.{contains, add}
use ipfs_crawler.AddrTools.{Manet}
use ipfs_crawler.Manager.{CrawlManager, Dispatch, upsert_crawl_result, start_crawl}
use ipfs_crawler.Manager.Pure.{
  done, untracked, node_of, offer, offers, report_neighbors, after_report, after_pop, after_token,
}

-- The two states differ in the queue at most.
pub record SameButQueue (cm cm' : CrawlManager) : Type 0 where
  pub bucket : cm'.token_bucket ≡ cm.token_bucket
  pub cap : cm'.bucket_cap ≡ cm.bucket_cap
  pub workers : cm'.num_workers ≡ cm.num_workers
  pub in_progress : cm'.crawls_in_progress ≡ cm.crawls_in_progress
  pub crawled : cm'.crawled ≡ cm.crawled

-- The token is back in the bucket, and no crawl has started.
pub record Kept (cm : CrawlManager) (id : ℕ) (r : CrawlManager × Option Dispatch) : Type 0 where
  pub nothing : r.1 ≡ none
  pub bucket : r.0.token_bucket ≡ cm.token_bucket ++ id ∷ []
  pub cap : r.0.bucket_cap ≡ cm.bucket_cap
  pub workers : r.0.num_workers ≡ cm.num_workers
  pub in_progress : r.0.crawls_in_progress ≡ cm.crawls_in_progress
  pub crawled : r.0.crawled ≡ cm.crawled

-- A crawl of `d.node` has started with the token. The node was the head of the queue, was not being
-- crawled, and had not been crawled with success.
pub record Started (cm : CrawlManager) (id : ℕ) (d : Dispatch) (r : CrawlManager × Option Dispatch)
    : Type 0 where
  pub started : r.1 ≡ some d
  pub token : d.token ≡ id
  pub bucket : r.0.token_bucket ≡ cm.token_bucket
  pub cap : r.0.bucket_cap ≡ cm.bucket_cap
  pub workers : r.0.num_workers ≡ cm.num_workers
  pub in_progress : r.0.crawls_in_progress ≡ add text_dec d.node.id cm.crawls_in_progress
  pub crawled : r.0.crawled ≡ cm.crawled
  pub idle : contains text_dec d.node.id cm.crawls_in_progress ≡ false
  pub undone : done cm d.node.id ≡ false

module _ (manet : Manet) where
  offer-frame : (cm : CrawlManager) (p : AddrInfo) → SameButQueue cm (offer manet cm p)
  unfolding offer
  offer-frame cm p = ground arith

  offers-frame : (cm : CrawlManager) (ps : List AddrInfo) → SameButQueue cm (offers manet cm ps)
  unfolding offers
  offers-frame cm [] = ground arith
  offers-frame cm (p ∷ ps) =
      let f = offer-frame cm p in
      let g = offers-frame (offer manet cm p) ps in
      record {
        bucket = g.bucket ∙ f.bucket;
        cap = g.cap ∙ f.cap;
        workers = g.workers ∙ f.workers;
        in_progress = g.in_progress ∙ f.in_progress;
        crawled = g.crawled ∙ f.crawled;
      }

  -- A report changes the queue, the database, and the set of crawls in progress.
  pub after_report-frame :
      (cm : CrawlManager) (r : NodeCrawlResult)
      → SameButQueue (upsert_crawl_result (untracked cm r.id) r) (after_report manet cm r)
  unfolding after_report
  after_report-frame cm r =
      offers-frame (upsert_crawl_result (untracked cm r.id) r) (report_neighbors r.err r.node)

  after_pop-uses :
      (cm : CrawlManager) (id : ℕ) (ys : List PeerId)
      → Kept cm id (after_pop manet cm id ys)
        ⊎ ((d : Dispatch) × Started cm id d (after_pop manet cm id ys))
  unfolding after_pop start_crawl
  after_pop-uses cm id [] = inl (ground arith)
  after_pop-uses cm id (k ∷ rest) = elim (Bool-cases (contains text_dec k cm.crawls_in_progress)) [
    | inl busy ↦ inl (rw busy (ground arith))
    | inr free ↦ elim (Bool-cases (done cm k)) [
      | inl e ↦ inl (rw (free, e) (ground arith))
      | inr e ↦ inr (record { node = node_of cm k; token = id }, rw (free, e) (ground arith))
    ]
  ]

  pub after_token-uses :
      (cm : CrawlManager) (id : ℕ)
      → Kept cm id (after_token manet cm id)
        ⊎ ((d : Dispatch) × Started cm id d (after_token manet cm id))
  unfolding after_token
  after_token-uses cm id = after_pop-uses cm id cm.to_crawl.queue
