-- ===== src/Manager/Coverage.antt =====
-- The peers that the manager of crawling/crawlmanager.go has heard of: an invariant over the queue,
-- the crawls in progress and the database.
pub mod Handlers
use ipfs_crawler.Prelude.{
  ℕ, ◌+◌, ◌<◌, ◌≡◌, ◌≢◌, refl, sym, ap, subst, ◌∙◌, Bool, true, false, not, ◌&&◌, ◌||◌, List, [],
  ◌∷◌, ◌++◌, map, Option, none, some, is_some, is_nil, if◌then◌else◌, length, text_dec, arith, ◌⊎◌,
  inl, inr, Option-cases, Bool-cases, List-cases, ite,
}
use ipfs_crawler.Types.{
  PeerId, Multiaddr, AddrInfo, Error, CrawlData, RawNodeInformation, NodeCrawlResult,
  NodeInformation, NodeCrawlStatus, Exclusive,
}
use ipfs_crawler.GoMap.{contains, add, remove, lookup, insert}
use ipfs_crawler.GoMap.Laws.{lookup-insert, contains-add, contains-remove, contains-append}
use ipfs_crawler.AddrTools.{Manet}
use ipfs_crawler.Queue.{ToCrawlQueue, push, addrs_of}
use ipfs_crawler.Queue.Sync.{IsSynced, popped, popped-IsSynced, push-IsSynced, Pushed, push-Pushed}
use ipfs_crawler.Manager.{
  CrawlManager, Dispatch, neighbor_ids, to_node_information, to_result, to_status,
  upsert_crawl_result, start_crawl,
}
use ipfs_crawler.Manager.Pure.{
  IsSound, no_error, is_ok, is_done, done, upsert-IsSound, data_neighbors, report_neighbors,
  untracked, with_token, node_of, pop_state, offer, offers, offer-crawled, after_report, forced,
  after_pop, after_token,
}

-- The peer is queued, being crawled, or in the database.
abbrev pub tracked : CrawlManager → PeerId → Bool
tracked cm k =
    contains text_dec k cm.to_crawl.queue
    || contains text_dec k cm.crawls_in_progress
    || is_some (lookup text_dec k cm.crawled)

abbrev pub neighbors : Option NodeInformation → List PeerId
neighbors none = []
neighbors (some r) = r.crawl_neighbors

-- The invariant, but for the neighbors in `pending`.
pub record IsCoveredBut (pending : List PeerId) (cm : CrawlManager) : Type 0 where
  pub synced : IsSynced cm.to_crawl
  pub sound : IsSound cm
  pub covered :
      (k : PeerId) → is_some (lookup text_dec k cm.to_crawl.addr_info) ≡ true → tracked cm k ≡ true
  pub closed :
      (k : PeerId) (st : NodeCrawlStatus) (n : PeerId)
      → lookup text_dec k cm.crawled ≡ some st
      → contains text_dec n (neighbors st.result) ≡ true
      → contains text_dec n pending ≡ false
      → tracked cm n ≡ true

abbrev pub IsCovered : CrawlManager → Type 0
IsCovered = IsCoveredBut []

-- The bucket does not matter to it.
pub bucket-IsCovered :
    (cm : CrawlManager) (bucket : List ℕ)
    → IsCovered cm
    → IsCovered (record cm { token_bucket = bucket })
bucket-IsCovered cm bucket h = record {
  synced = h.synced;
  sound = h.sound;
  covered = h.covered;
  closed = h.closed;
}

abbrev ids : List AddrInfo → List PeerId
ids = map (λ p. p.id)

module _ (manet : Manet) where
  offer-keeps :
      (cm : CrawlManager) (p : AddrInfo) (k : PeerId)
      → tracked cm k ≡ true
      → tracked (offer manet cm p) k ≡ true
  unfolding offer
  offer-keeps cm p k h = ground (arith, (push-Pushed manet cm.to_crawl p).keeps k)

  -- A peer that is offered is tracked afterwards: it is done, or known and so tracked before, or new
  -- and so queued.
  offer-tracked :
      (pending : List PeerId) (cm : CrawlManager) (p : AddrInfo)
      → IsCoveredBut pending cm
      → tracked (offer manet cm p) p.id ≡ true
  unfolding offer
  offer-tracked pending cm p h = ground (
    arith,
    (push-Pushed manet cm.to_crawl p).fresh,
    (push-Pushed manet cm.to_crawl p).keeps p.id,
    h.covered p.id,
  )

  offer-covered :
      (pending : List PeerId) (cm : CrawlManager) (p : AddrInfo) (k : PeerId)
      → IsCoveredBut pending cm
      → is_some (lookup text_dec k (offer manet cm p).to_crawl.addr_info) ≡ true
      → tracked (offer manet cm p) k ≡ true
  unfolding offer
  offer-covered pending cm p k h e = ground (
    arith,
    (push-Pushed manet cm.to_crawl p).learns k,
    offer-keeps cm p k,
    offer-tracked pending cm p h,
    h.covered k,
  )

  pub offer-IsSynced :
      (cm : CrawlManager) (p : AddrInfo)
      → IsSynced cm.to_crawl
      → IsSynced (offer manet cm p).to_crawl
  unfolding offer
  offer-IsSynced cm p h = elim (Bool-cases (done cm p.id)) [
    | inl e ↦ rw e h
    | inr e ↦ rw e (push-IsSynced manet cm.to_crawl p false (λ f. cc) h)
  ]

  offer-IsCoveredBut :
      (pending : List PeerId) (cm : CrawlManager) (p : AddrInfo)
      → IsCoveredBut (p.id ∷ pending) cm
      → IsCoveredBut pending (offer manet cm p)
  unfolding contains
  offer-IsCoveredBut pending cm p h = record {
    synced = offer-IsSynced cm p h.synced;
    sound = λ k st e. h.sound k st (rw offer-crawled at e);
    covered = λ k e. offer-covered (p.id ∷ pending) cm p k h e;
    closed = λ k st n e m free. ground (
      arith,
      offer-crawled manet cm p,
      offer-tracked (p.id ∷ pending) cm p h,
      offer-keeps cm p n,
      h.closed k st n,
    );
  }

  offers-IsCovered :
      (cm : CrawlManager) (ps : List AddrInfo)
      → IsCoveredBut (ids ps) cm
      → IsCovered (offers manet cm ps)
  unfolding offers
  offers-IsCovered cm [] h = h
  offers-IsCovered cm (p ∷ ps) h =
      offers-IsCovered (offer manet cm p) ps (offer-IsCoveredBut (ids ps) cm p h)

  -- Before the crawl has any result, a push keeps the invariant.
  pub push-IsCovered :
      (cm : CrawlManager) (p : AddrInfo)
      → cm.crawled ≡ []
      → IsCovered cm
      → IsCovered (record cm { to_crawl = push manet cm.to_crawl p false })
        × (tracked (record cm { to_crawl = push manet cm.to_crawl p false }) p.id ≡ true)
  unfolding offer lookup contains
  push-IsCovered cm p fresh h =
      let e : offer manet cm p ≡ record cm { to_crawl = push manet cm.to_crawl p false } =
        ground (arith, ap (lookup text_dec p.id) fresh) in
      let more : IsCoveredBut (p.id ∷ []) cm = record {
        synced = h.synced;
        sound = h.sound;
        covered = h.covered;
        closed = λ k st n l m _. h.closed k st n l m refl;
      } in
      (
        subst IsCovered e (offer-IsCoveredBut [] cm p more),
        rw e at (offer-tracked (p.id ∷ []) cm p more),
      )

  pub push-keeps :
      (cm : CrawlManager) (p : AddrInfo) (k : PeerId)
      → tracked cm k ≡ true
      → tracked (record cm { to_crawl = push manet cm.to_crawl p false }) k ≡ true
  push-keeps cm p k h = ground (arith, (push-Pushed manet cm.to_crawl p).keeps k)

  pub offers-keeps :
      (cm : CrawlManager) (ps : List AddrInfo) (k : PeerId)
      → tracked cm k ≡ true
      → tracked (offers manet cm ps) k ≡ true
  unfolding offers
  offers-keeps cm [] k h = h
  offers-keeps cm (p ∷ ps) k h = offers-keeps (offer manet cm p) ps k (offer-keeps cm p k h)
