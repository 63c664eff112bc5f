-- ===== src/System/Complete.antt =====
-- `CrawlNetwork` of crawling/crawlmanager.go: the database at the end of the loop.
use ipfs_crawler.Prelude.{
  ℕ, ◌≡◌, refl, ap, true, false, List, [], ◌∷◌, some, arith, length, is_some, text_dec,
}
use ipfs_crawler.Types.{PeerId, NodeCrawlStatus}
use ipfs_crawler.GoMap.{contains, lookup}
use ipfs_crawler.AddrTools.{Manet}
use ipfs_crawler.Queue.{len}
use ipfs_crawler.Queue.Sync.{queue_empty}
use ipfs_crawler.Manager.{CrawlManager, has_work}
use ipfs_crawler.Manager.Coverage.{tracked, neighbors, IsCovered}
use ipfs_crawler.Manager.Coverage.Handlers.{after_report-keeps, after_token-keeps}
use ipfs_crawler.System.{System, Run, here, next}
use ipfs_crawler.System.Invariant.{Inv}
use ipfs_crawler.System.Invariant.Runs.{Run-Inv}
use ipfs_crawler.System.Moves.{
  Move, stay, give_back, keep, start, receive, holding, result_of, step-Move,
}

module _ (manet : Manet) where
  Move-keeps :
      {s u : System} (k : PeerId) → Move manet s u → tracked s.cm k ≡ true → tracked u.cm k ≡ true
  Move-keeps k (stay e) t = rw e t
  Move-keeps k (give_back i id g e) t = rw e t
  Move-keeps {s} k (keep id bucket b m e) t =
      rw e (after_token-keeps manet (holding s bucket) id k t)
  Move-keeps {s} k (start id bucket d b m e) t =
      rw e (after_token-keeps manet (holding s bucket) id k t)
  Move-keeps {s} k (receive i d o g x e) t =
      rw e (after_report-keeps manet s.cm (result_of d o) k t)

  -- A peer that is queued, being crawled or in the database never gets lost.
  pub Run-keeps :
      {total : ℕ} {s t : System} (k : PeerId)
      → Inv total s
      → Run manet s t
      → tracked s.cm k ≡ true
      → tracked t.cm k ≡ true
  Run-keeps k inv here h = h
  Run-keeps {total} k inv (next {t} {u} run e fair eq) h =
      Move-keeps k (step-Move manet total t u e fair (Run-Inv manet total inv run) eq)
        (Run-keeps k inv run h)

  no_work :
      (cm : CrawlManager)
      → has_work cm ≡ false
      → (len cm.to_crawl ≡ 0) × (length cm.crawls_in_progress ≡ 0)
  unfolding has_work
  no_work cm h = ground arith

  absent_of_empty : (xs : List PeerId) (k : PeerId) → length xs ≡ 0 → contains text_dec k xs ≡ false
  unfolding contains
  absent_of_empty [] k e = refl
  absent_of_empty (x ∷ xs) k e = absurd (omega arith)

  -- Where the loop's condition fails, all that is tracked is in the database.
  crawled_of_tracked :
      (cm : CrawlManager) (k : PeerId)
      → IsCovered cm
      → has_work cm ≡ false
      → tracked cm k ≡ true
      → is_some (lookup text_dec k cm.crawled) ≡ true
  unfolding contains
  crawled_of_tracked cm k h idle t =
      let (queue, flying) = no_work cm idle in
      ground (
        arith,
        ap (contains text_dec k) (queue_empty cm.to_crawl queue h.synced),
        absent_of_empty cm.crawls_in_progress k flying,
      )

  -- What the crawl graph of a database reaches from peers that were tracked at the start.
  pub data Reached (from cm : CrawlManager) : PeerId → Type 0 where
    seed : (k : PeerId) → tracked from k ≡ true → Reached from cm k
    link :
        (k : PeerId) (st : NodeCrawlStatus) (n : PeerId)
        → Reached from cm k
        → lookup text_dec k cm.crawled ≡ some st
        → contains text_dec n (neighbors st.result) ≡ true
        → Reached from cm n

  module _ (total : ℕ) (s t : System) (inv : Inv total s) (run : Run manet s t) where
    at_end :
        (k : PeerId)
        → has_work t.cm ≡ false
        → tracked t.cm k ≡ true
        → is_some (lookup text_dec k t.cm.crawled) ≡ true
    at_end k idle h = crawled_of_tracked t.cm k (Run-Inv manet total inv run).covered idle h

    -- When the loop has ended in a run from a state with the invariant, every peer that was
    -- queued, being crawled or in the database at the start is in the database, and so is every
    -- peer that is reached from those through the neighbors that the crawls found.
    pub crawl_complete :
        (k : PeerId)
        → has_work t.cm ≡ false
        → Reached s.cm t.cm k
        → is_some (lookup text_dec k t.cm.crawled) ≡ true
    unfolding contains
    crawl_complete k idle (seed k' h) = at_end k' idle (Run-keeps k' inv run h)
    crawl_complete k idle (link j st n r e m) =
        at_end n idle ((Run-Inv manet total inv run).covered.closed j st n e m refl)

    -- When the loop has ended, every peer with a stored address list is in the database.
    pub known_crawled :
        (k : PeerId)
        → has_work t.cm ≡ false
        → is_some (lookup text_dec k t.cm.to_crawl.addr_info) ≡ true
        → is_some (lookup text_dec k t.cm.crawled) ≡ true
    known_crawled k idle known =
        at_end k idle ((Run-Inv manet total inv run).covered.covered k known)

    -- When the loop has ended, every neighbor of a peer in the database is in the database: the
    -- lookups of `WritePeergraph` find an entry.
    pub neighbors_crawled :
        (k : PeerId) (st : NodeCrawlStatus) (n : PeerId)
        → has_work t.cm ≡ false
        → lookup text_dec k t.cm.crawled ≡ some st
        → contains text_dec n (neighbors st.result) ≡ true
        → is_some (lookup text_dec n t.cm.crawled) ≡ true
    unfolding contains
    neighbors_crawled k st n idle e m =
        at_end n idle ((Run-Inv manet total inv run).covered.closed k st n e m refl)
