-- ===== src/Manager/Coverage/Handlers.antt =====
-- The cases of the `select` in `CrawlNetwork` and the peers that the manager has heard of.
use ipfs_crawler.Prelude.{
  ℕ, ◌≡◌, refl, ap, true, false, List, [], ◌∷◌, ◌++◌, Option, none, some, is_some, text_dec, arith,
  inl, inr, Bool-cases,
}
use ipfs_crawler.Types.{
  PeerId, Error, CrawlData, RawNodeInformation, NodeCrawlResult, NodeCrawlStatus, Exclusive,
}
use ipfs_crawler.GoMap.{contains, lookup}
use ipfs_crawler.GoMap.Laws.{lookup-insert, contains-add, contains-remove, contains-append}
use ipfs_crawler.AddrTools.{Manet, filter_out_old_addresses, strip_local_addrs}
use ipfs_crawler.AddrTools.Laws.{filter_out-strip_self}
use mathlib.Core.List.{append-nil}
use ipfs_crawler.Queue.{push, push_forced, addrs_of}
use ipfs_crawler.Queue.Sync.{popped, popped-IsSynced, push-IsSynced}
use ipfs_crawler.Manager.{
  CrawlManager, neighbor_ids, to_result, to_status, upsert_crawl_result, start_crawl,
}
use ipfs_crawler.Manager.Pure.{
  done, upsert-IsSound, data_neighbors, report_neighbors, untracked, with_token, node_of, pop_state,
  after_report, forced, after_pop, after_token,
}
use ipfs_crawler.Manager.Coverage.{
  tracked, bucket-IsCovered, neighbors, ids, IsCoveredBut, IsCovered, offers-IsCovered,
  offers-keeps,
}

data_neighbors-ids : (d : Option CrawlData) → neighbor_ids d ≡ ids (data_neighbors d)
unfolding neighbor_ids
data_neighbors-ids none = refl
data_neighbors-ids (some d) = refl

-- The neighbors that a report puts in the database are those that it offers to the queue.
to_result-neighbors :
    (err : Option Error) (node : Option RawNodeInformation)
    → Exclusive err node
    → neighbors (to_result node) ≡ ids (report_neighbors err node)
unfolding to_result
to_result-neighbors none none h = refl
to_result-neighbors (some e) none h = refl
to_result-neighbors none (some n) h = data_neighbors-ids n.crawl_data.result
to_result-neighbors (some e) (some n) h = cc

abbrev recorded : CrawlManager → NodeCrawlResult → CrawlManager
recorded cm r = upsert_crawl_result (untracked cm r.id) r

recorded-keeps :
    (cm : CrawlManager) (r : NodeCrawlResult) (k : PeerId)
    → tracked cm k ≡ true
    → tracked (recorded cm r) k ≡ true
unfolding upsert_crawl_result
recorded-keeps cm r k h = ground (
  arith,
  contains-remove text_dec k r.id cm.crawls_in_progress,
  lookup-insert text_dec k r.id (to_status r) cm.crawled,
)

recorded-closed :
    (cm : CrawlManager) (r : NodeCrawlResult) (k : PeerId) (st : NodeCrawlStatus) (n : PeerId)
    → Exclusive r.err r.node
    → IsCovered cm
    → lookup text_dec k (recorded cm r).crawled ≡ some st
    → contains text_dec n (neighbors st.result) ≡ true
    → contains text_dec n (ids (report_neighbors r.err r.node)) ≡ false
    → tracked (recorded cm r) n ≡ true
unfolding upsert_crawl_result to_status contains
recorded-closed cm r k st n x h e m free = ground (
  arith,
  lookup-insert text_dec k r.id (to_status r) cm.crawled,
  to_result-neighbors r.err r.node,
  recorded-keeps cm r n,
  h.closed k st n,
)

recorded-IsCoveredBut :
    (cm : CrawlManager) (r : NodeCrawlResult)
    → Exclusive r.err r.node
    → IsCovered cm
    → IsCoveredBut (ids (report_neighbors r.err r.node)) (recorded cm r)
unfolding upsert_crawl_result
recorded-IsCoveredBut cm r x h = record {
  synced = h.synced;
  sound = upsert-IsSound (untracked cm r.id) r x h.sound;
  covered = λ k e. recorded-keeps cm r k (h.covered k e);
  closed = λ k st n e m free. recorded-closed cm r k st n x h e m free;
}

-- A node that is popped stays tracked, provided that it is tracked otherwise afterwards.
popped-IsCovered :
    (cm cm' : CrawlManager) (k : PeerId) (rest : List PeerId)
    → cm.to_crawl.queue ≡ k ∷ rest
    → cm'.to_crawl ≡ popped cm.to_crawl k rest
    → cm'.crawled ≡ cm.crawled
    → ((j : PeerId)
        → contains text_dec j cm.crawls_in_progress ≡ true
        → contains text_dec j cm'.crawls_in_progress ≡ true)
    → tracked cm' k ≡ true
    → IsCovered cm
    → IsCovered cm'
unfolding contains
popped-IsCovered cm cm' k rest front q c keep now h = record {
  synced = rw q (popped-IsSynced cm.to_crawl k rest front h.synced).0;
  sound = λ j st e. h.sound j st (rw c at e);
  covered = λ j e. moved j (h.covered j (ground arith));
  closed = λ j st n e m free. moved n (h.closed j st n (rw c at e) m free);
}
  where
    moved : (j : PeerId) → tracked cm j ≡ true → tracked cm' j ≡ true
    moved j t = ground (arith, keep j, ap (contains text_dec j) front, text_dec k j)

module _ (manet : Manet) where
  pub after_report-IsCovered :
      (cm : CrawlManager) (r : NodeCrawlResult)
      → Exclusive r.err r.node
      → IsCovered cm
      → IsCovered (after_report manet cm r)
  unfolding after_report
  after_report-IsCovered cm r x h =
      offers-IsCovered manet (recorded cm r) (report_neighbors r.err r.node)
        (recorded-IsCoveredBut cm r x h)

  -- A node that goes back moves to the end of the queue, and every stored address stays as it was.
  pub forced-lookup :
      (cm : CrawlManager) (k j : PeerId) (rest : List PeerId)
      → is_some (lookup text_dec k cm.to_crawl.addr_info) ≡ true
      → lookup text_dec j (forced manet (pop_state cm k rest) (node_of cm k)).to_crawl.addr_info
        ≡ lookup text_dec j cm.to_crawl.addr_info
  unfolding push push_forced addrs_of
  forced-lookup cm k j rest known = ground (
    arith,
    lookup-insert text_dec j k
        (addrs_of cm.to_crawl k
          ++ filter_out_old_addresses (addrs_of cm.to_crawl k)
              (strip_local_addrs manet (addrs_of cm.to_crawl k)))
        cm.to_crawl.addr_info,
    filter_out-strip_self manet (addrs_of cm.to_crawl k),
    append-nil (addrs_of cm.to_crawl k),
  )

  pub forced-queue :
      (cm : CrawlManager) (k : PeerId) (rest : List PeerId)
      → (forced manet (pop_state cm k rest) (node_of cm k)).to_crawl.queue ≡ rest ++ k ∷ []
  unfolding push push_forced
  forced-queue cm k rest = refl

  forced-tracked :
      (cm : CrawlManager) (k j : PeerId) (rest : List PeerId)
      → cm.to_crawl.queue ≡ k ∷ rest
      → tracked cm j ≡ true
      → tracked (forced manet (pop_state cm k rest) (node_of cm k)) j ≡ true
  unfolding contains
  forced-tracked cm k j rest front t = ground (
    arith,
    forced-queue cm k rest,
    contains-append text_dec j rest (k ∷ []),
    ap (contains text_dec j) front,
    text_dec k j,
  )

  forced-IsCovered :
      (cm : CrawlManager) (k : PeerId) (rest : List PeerId)
      → cm.to_crawl.queue ≡ k ∷ rest
      → IsCovered cm
      → IsCovered (forced manet (pop_state cm k rest) (node_of cm k))
  unfolding contains
  forced-IsCovered cm k rest front h =
      let known = h.synced.known k (ground (arith, ap (contains text_dec k) front)) in
      record {
        synced =
            push-IsSynced manet (popped cm.to_crawl k rest) (node_of cm k) true
              (λ _. ground (arith, contains-remove text_dec k k cm.to_crawl.in_queue))
              (popped-IsSynced cm.to_crawl k rest front h.synced).0;
        sound = h.sound;
        covered = λ j e.
            forced-tracked cm k j rest front
              (h.covered j (ground (arith, forced-lookup cm k j rest known)));
        closed = λ j st n e m free. forced-tracked cm k n rest front (h.closed j st n e m free);
      }

  done-is_some :
      (cm : CrawlManager) (k : PeerId)
      → done cm k ≡ true
      → is_some (lookup text_dec k cm.crawled) ≡ true
  done-is_some cm k h = ground arith

  after_pop-IsCovered :
      (cm : CrawlManager) (id : ℕ) (ys : List PeerId)
      → cm.to_crawl.queue ≡ ys
      → IsCovered cm
      → IsCovered (after_pop manet cm id ys).0
  unfolding after_pop start_crawl
  after_pop-IsCovered cm id [] front h = bucket-IsCovered cm (cm.token_bucket ++ id ∷ []) h
  after_pop-IsCovered cm id (k ∷ rest) front h =
      elim (Bool-cases (contains text_dec k cm.crawls_in_progress)) [
        | inl busy ↦ rw busy (
            bucket-IsCovered (forced manet (pop_state cm k rest) (node_of cm k))
              (cm.token_bucket ++ id ∷ []) (forced-IsCovered cm k rest front h))
        | inr free ↦ elim (Bool-cases (done cm k)) [
          | inl e ↦
              rw (free, e)
                (popped-IsCovered cm (with_token (pop_state cm k rest) id) k rest front refl refl
                  (λ j m. m) (ground (arith, done-is_some cm k e)) h)
          | inr e ↦
              rw (free, e)
                (popped-IsCovered cm (start_crawl (pop_state cm k rest) (node_of cm k) id).0 k rest
                  front refl refl
                  (λ j m. ground (arith, contains-add text_dec j k cm.crawls_in_progress))
                  (ground (arith, contains-add text_dec k k cm.crawls_in_progress)) h)
        ]
      ]

  -- No report makes the manager lose track of a peer, and no token either.
  pub after_report-keeps :
      (cm : CrawlManager) (r : NodeCrawlResult) (j : PeerId)
      → tracked cm j ≡ true
      → tracked (after_report manet cm r) j ≡ true
  unfolding after_report
  after_report-keeps cm r j t =
      offers-keeps manet (recorded cm r) (report_neighbors r.err r.node) j (recorded-keeps cm r j t)

  after_pop-keeps :
      (cm : CrawlManager) (id : ℕ) (ys : List PeerId) (j : PeerId)
      → cm.to_crawl.queue ≡ ys
      → tracked cm j ≡ true
      → tracked (after_pop manet cm id ys).0 j ≡ true
  unfolding after_pop start_crawl contains
  after_pop-keeps cm id [] j front t = t
  after_pop-keeps cm id (k ∷ rest) j front t = ground (
    arith,
    forced-tracked cm k j rest front t,
    contains-add text_dec j k cm.crawls_in_progress,
    ap (contains text_dec j) front,
    text_dec k j,
    done-is_some cm k,
  )

  pub after_token-keeps :
      (cm : CrawlManager) (id : ℕ) (j : PeerId)
      → tracked cm j ≡ true
      → tracked (after_token manet cm id).0 j ≡ true
  unfolding after_token
  after_token-keeps cm id j t = after_pop-keeps cm id cm.to_crawl.queue j refl t

  pub after_token-IsCovered :
      (cm : CrawlManager) (id : ℕ) → IsCovered cm → IsCovered (after_token manet cm id).0
  unfolding after_token
  after_token-IsCovered cm id h = after_pop-IsCovered cm id cm.to_crawl.queue refl h
