-- ===== src/System/Budget.antt =====
-- `CrawlNetwork` of crawling/crawlmanager.go: how often it contacts a peer.
use ipfs_crawler.Prelude.{
  ℕ, ◌+◌, ◌≤◌, ◌≡◌, refl, ap, List, [], ◌∷◌, Option, none, some, arith, text_dec, ite, inl, inr,
  Bool-cases,
}
use ipfs_crawler.Types.{PeerId, AddrInfo, NodeCrawlResult}
use ipfs_crawler.GoMap.{contains}
use ipfs_crawler.GoMap.Laws.{contains-append}
use ipfs_crawler.AddrTools.{Manet}
use ipfs_crawler.Queue.Sync.{IsSynced, popped-IsSynced}
use ipfs_crawler.Queue.Budget.{queued, allowance, push-Paid}
use ipfs_crawler.Manager.{CrawlManager, upsert_crawl_result, start_crawl, Dispatch}
use ipfs_crawler.Manager.Pure.{
  done, untracked, report_neighbors, offer, offers, after_report, after_pop, after_token,
}
use ipfs_crawler.Manager.Coverage.{IsCovered, offer-IsSynced}
use ipfs_crawler.Manager.Coverage.Handlers.{forced-lookup, forced-queue}
use ipfs_crawler.System.{System, Run, here, next}
use ipfs_crawler.System.Invariant.{Inv}
use ipfs_crawler.System.Invariant.Runs.{Run-Inv}
use ipfs_crawler.System.Moves.{
  Move, stay, give_back, keep, start, receive, holding, result_of, step-Move,
}
use ipfs_crawler.System.Contacts.{times}

module _ (manet : Manet) (k : PeerId) where
  abbrev Saved : CrawlManager → CrawlManager → Type 0
  Saved cm cm' =
      queued cm'.to_crawl k + allowance cm.to_crawl k
      ≤ queued cm.to_crawl k + allowance cm'.to_crawl k

  offer-Saved :
      (cm : CrawlManager) (p : AddrInfo) → IsSynced cm.to_crawl → Saved cm (offer manet cm p)
  unfolding offer
  offer-Saved cm p h = elim (Bool-cases (done cm p.id)) [
    | inl e ↦ rw e (omega arith)
    | inr e ↦ rw e (push-Paid cm.to_crawl p k manet h)
  ]

  offers-Saved :
      (cm : CrawlManager) (ps : List AddrInfo)
      → IsSynced cm.to_crawl
      → Saved cm (offers manet cm ps)
  unfolding offers
  offers-Saved cm [] h = omega arith
  offers-Saved cm (p ∷ ps) h =
      omega (
        arith,
        offer-Saved cm p h,
        offers-Saved (offer manet cm p) ps (offer-IsSynced manet cm p h),
      )

  after_report-Saved :
      (cm : CrawlManager) (r : NodeCrawlResult)
      → IsSynced cm.to_crawl
      → Saved cm (after_report manet cm r)
  unfolding after_report upsert_crawl_result
  after_report-Saved cm r h =
      offers-Saved (upsert_crawl_result (untracked cm r.id) r) (report_neighbors r.err r.node) h

  -- What the token costs: one for the peer whose crawl starts.
  abbrev spent : Option Dispatch → ℕ
  spent none = 0
  spent (some d) = ite (text_dec d.node.id k) 1 0

  after_pop-Saved :
      (cm : CrawlManager) (id : ℕ) (ys : List PeerId)
      → cm.to_crawl.queue ≡ ys
      → IsSynced cm.to_crawl
      → let r = after_pop manet cm id ys in
        spent r.1 + queued r.0.to_crawl k + allowance cm.to_crawl k
        ≤ queued cm.to_crawl k + allowance r.0.to_crawl k
  unfolding after_pop start_crawl contains
  after_pop-Saved cm id [] e h = omega arith
  after_pop-Saved cm id (j ∷ rest) e h =
      let known = h.known j (ground (arith, ap (contains text_dec j) e)) in
      let absent = (popped-IsSynced cm.to_crawl j rest e h).1 in
      ground (
        arith,
        forced-lookup manet cm j k rest known,
        forced-queue manet cm j rest,
        contains-append text_dec k rest (j ∷ []),
        ap (contains text_dec k) e,
        absent,
      )

  abbrev pub Within : System → Type 0
  Within s = times k s.history + queued s.cm.to_crawl k ≤ allowance s.cm.to_crawl k

  after_token-Saved :
      (s : System) (id : ℕ) (bucket : List ℕ)
      → IsCovered s.cm
      → let r = after_token manet (holding s bucket) id in
        spent r.1 + queued r.0.to_crawl k + allowance s.cm.to_crawl k
        ≤ queued s.cm.to_crawl k + allowance r.0.to_crawl k
  unfolding after_token
  after_token-Saved s id bucket h =
      after_pop-Saved (holding s bucket) id s.cm.to_crawl.queue refl h.synced

  Move-Within : {s u : System} → IsCovered s.cm → Move manet s u → Within s → Within u
  Move-Within h (stay e) w = rw e w
  Move-Within h (give_back i id g e) w = rw e w
  Move-Within {s} h (keep id bucket b m e) w =
      let cost = after_token-Saved s id bucket h in rw e (omega (arith, cost))
  Move-Within {s} h (start id bucket d b m e) w =
      let cost : spent (some d)
            + queued (after_token manet (holding s bucket) id).0.to_crawl k
            + allowance s.cm.to_crawl k
          ≤ queued s.cm.to_crawl k
            + allowance (after_token manet (holding s bucket) id).0.to_crawl k =
        rw m.started at (after_token-Saved s id bucket h) in
      rw e (ground (arith, cost))
  Move-Within {s} h (receive i d o g x e) w =
      let cost = after_report-Saved s.cm (result_of d o) h.synced in rw e (omega (arith, cost))

  -- If it holds at a state with the invariant, then in every run from there: a peer was
  -- contacted at most once, and once more for each address that is stored for it; one time less
  -- if it is waiting in the queue; and never if it has no stored entry.
  pub contacts_bounded :
      {total : ℕ} {s t : System} → Inv total s → Within s → Run manet s t → Within t
  contacts_bounded inv w here = w
  contacts_bounded {total} inv w (next {t} {u} run e fair eq) =
      let now = Run-Inv manet total inv run in
      Move-Within now.covered (step-Move manet total t u e fair now eq) (contacts_bounded inv w run)
