-- ===== src/Manager/Pure.antt =====
-- The handlers of crawling/crawlmanager.go on a sound database, as functions without faults.
use ipfs_crawler.Prelude.{
  ℕ, ◌<◌, ◌≡◌, refl, sym, ap, ◌∙◌, Bool, true, false, not, ◌&&◌, List, [], ◌∷◌, ◌++◌, Option, none,
  some, is_nil, if◌then◌else◌, length, ltb, text_dec, arith, inl, inr, Option-cases, Bool-cases,
  lt→ltb,
}
use ipfs_crawler.Panic.{ok}
use ipfs_crawler.Types.{
  PeerId, AddrInfo, Error, CrawlData, RawNodeInformation, NodeCrawlResult, NodeInformation,
  NodeCrawlStatus, Exclusive,
}
use ipfs_crawler.GoMap.{contains, remove, lookup}
use ipfs_crawler.GoMap.Laws.{lookup-insert}
use ipfs_crawler.AddrTools.{Manet}
use ipfs_crawler.Queue.{len, pop, push, addrs_of}
use ipfs_crawler.Queue.Sync.{IsSynced, popped, pop-popped, queue_empty}
use ipfs_crawler.Manager.{
  CrawlManager, Dispatch, crawl_ok, succeeded, to_status, upsert_crawl_result, needs_crawl,
  return_token, start_crawl, handle_new_node, handle_neighbors, handle_crawl_data, handle_node,
  handle_report, put_back, consider, handle_token,
}

-- In every entry of the database `err` and `result` are mutually exclusive.
abbrev pub IsSound : CrawlManager → Type 0
IsSound cm =
    (k : PeerId) (st : NodeCrawlStatus)
    → lookup text_dec k cm.crawled ≡ some st
    → Exclusive st.err st.result

abbrev pub no_error : Option NodeInformation → Bool
no_error none = false
no_error (some r) = is_nil r.crawl_data_error

abbrev pub is_ok : NodeCrawlStatus → Bool
is_ok st = is_nil st.err && no_error st.result

-- Has the peer been crawled successfully?
abbrev pub is_done : Option NodeCrawlStatus → Bool
is_done none = false
is_done (some st) = is_ok st

abbrev pub done : CrawlManager → PeerId → Bool
done cm k = is_done (lookup text_dec k cm.crawled)

crawl_ok_lem :
    (err : Option Error) (result : Option NodeInformation)
    → Exclusive err result
    → crawl_ok err result ≡ ok (is_nil err && no_error result)
unfolding crawl_ok
crawl_ok_lem err result h = ground arith

pub succeeded-is_ok :
    (st : NodeCrawlStatus) → Exclusive st.err st.result → succeeded st ≡ ok (is_ok st)
unfolding succeeded
succeeded-is_ok st h = crawl_ok_lem st.err st.result h

pub to_status-Exclusive :
    (r : NodeCrawlResult)
    → Exclusive r.err r.node
    → Exclusive (to_status r).err (to_status r).result
unfolding to_status
to_status-Exclusive r h = ground arith

pub upsert-IsSound :
    (cm : CrawlManager) (r : NodeCrawlResult)
    → Exclusive r.err r.node
    → IsSound cm
    → IsSound (upsert_crawl_result cm r)
unfolding upsert_crawl_result
upsert-IsSound cm r x h k st e =
    ground
      (arith, to_status-Exclusive r, lookup-insert text_dec k r.id (to_status r) cm.crawled, h k st)

-- `delete(cm.crawlsInProgress, id)`
abbrev pub untracked : CrawlManager → PeerId → CrawlManager
untracked cm id = record cm { crawls_in_progress = remove text_dec id cm.crawls_in_progress }

abbrev pub with_token : CrawlManager → ℕ → CrawlManager
with_token cm id = record cm { token_bucket = cm.token_bucket ++ id ∷ [] }

-- The node that `pop` returns for the entry `k`, and the state that is left.
abbrev pub node_of : CrawlManager → PeerId → AddrInfo
node_of cm k = record { id = k; addrs = addrs_of cm.to_crawl k }

abbrev pub pop_state : CrawlManager → PeerId → List PeerId → CrawlManager
pop_state cm k rest = record cm { to_crawl = popped cm.to_crawl k rest }

-- The neighbors in a report that was a success.
abbrev pub data_neighbors : Option CrawlData → List AddrInfo
data_neighbors none = []
data_neighbors (some d) = d.neighbors

abbrev pub report_neighbors : Option Error → Option RawNodeInformation → List AddrInfo
report_neighbors (some e) _ = []
report_neighbors none none = []
report_neighbors none (some n) = data_neighbors n.crawl_data.result

module _ (manet : Manet) where
  -- `handleNewNode`
  unfoldable pub offer : CrawlManager → AddrInfo → CrawlManager
  offer cm p = if done cm p.id then cm else record cm { to_crawl = push manet cm.to_crawl p false }

  pub handle_new_node-offer :
      (cm : CrawlManager) (p : AddrInfo) → IsSound cm → handle_new_node manet cm p ≡ ok (offer cm p)
  unfolding handle_new_node offer
  handle_new_node-offer cm p h = elim (Option-cases (lookup text_dec p.id cm.crawled)) [
    | inl e ↦ rw (e, handle_new_node, offer)
    | inr (st, e) ↦ rw (e, handle_new_node, offer) (rw (succeeded-is_ok st (h p.id st e)))
  ]

  unfoldable pub offers : CrawlManager → List AddrInfo → CrawlManager
  offers cm [] = cm
  offers cm (p ∷ ps) = offers (offer cm p) ps

  pub offer-crawled : (cm : CrawlManager) (p : AddrInfo) → (offer cm p).crawled ≡ cm.crawled
  unfolding offer
  offer-crawled cm p = ground arith

  handle_neighbors-offers :
      (cm : CrawlManager) (ps : List AddrInfo)
      → IsSound cm
      → handle_neighbors manet cm ps ≡ ok (offers cm ps)
  unfolding handle_neighbors offers
  handle_neighbors-offers cm [] h = refl
  handle_neighbors-offers cm (p ∷ ps) h =
      rw (handle_new_node-offer cm p h)
        (handle_neighbors-offers (offer cm p) ps (λ k st e. h k st (rw offer-crawled at e)))

  -- `case report := <-cm.resultChan`
  unfoldable pub after_report : CrawlManager → NodeCrawlResult → CrawlManager
  after_report cm r =
      offers (upsert_crawl_result (untracked cm r.id) r) (report_neighbors r.err r.node)

  handle_node-offers :
      (cm : CrawlManager) (err : Option Error) (node : Option RawNodeInformation)
      → IsSound cm
      → Exclusive err node
      → handle_node manet cm err node ≡ ok (offers cm (report_neighbors err node))
  unfolding handle_node offers
  handle_node-offers cm (some e) _ h x = refl
  handle_node-offers cm none none h x = cc
  handle_node-offers cm none (some n) h x = elim (Option-cases n.crawl_data.result) [
    | inl e ↦ rw (e, handle_crawl_data)
    | inr (d, e) ↦ rw (e, handle_crawl_data) (handle_neighbors-offers cm d.neighbors h)
  ]

  pub handle_report-after :
      (cm : CrawlManager) (r : NodeCrawlResult)
      → IsSound cm
      → contains text_dec r.id cm.crawls_in_progress ≡ true
      → Exclusive r.err r.node
      → handle_report manet cm r ≡ ok (after_report cm r)
  unfolding handle_report after_report
  handle_report-after cm r h tracked x = rw tracked (
      handle_node-offers (upsert_crawl_result (untracked cm r.id) r) r.err r.node
        (upsert-IsSound (untracked cm r.id) r x h) x)

  abbrev pub forced : CrawlManager → AddrInfo → CrawlManager
  forced cm p = record cm { to_crawl = push manet cm.to_crawl p true }

  unfoldable pub after_pop : CrawlManager → ℕ → List PeerId → CrawlManager × Option Dispatch
  after_pop cm id [] = (with_token cm id, none)
  after_pop cm id (k ∷ rest) =
      if contains text_dec k cm.crawls_in_progress
      then (with_token (forced (pop_state cm k rest) (node_of cm k)) id, none)
      else if done cm k
      then (with_token (pop_state cm k rest) id, none)
      else start_crawl (pop_state cm k rest) (node_of cm k) id

  -- `case id := <-cm.tokenBucket`
  unfoldable pub after_token : CrawlManager → ℕ → CrawlManager × Option Dispatch
  unfolding after_pop
  after_token cm id = after_pop cm id cm.to_crawl.queue

  return_token-with :
      (cm : CrawlManager) (id : ℕ)
      → length cm.token_bucket < cm.bucket_cap
      → return_token cm id ≡ ok (with_token cm id, none)
  unfolding return_token
  return_token-with cm id h = rw (lt→ltb _ _ h)

  needs_crawl-done :
      (cm : CrawlManager) (k : PeerId)
      → IsSound cm
      → needs_crawl (lookup text_dec k cm.crawled) ≡ ok (not (done cm k))
  unfolding needs_crawl
  needs_crawl-done cm k h = elim (Option-cases (lookup text_dec k cm.crawled)) [
    | inl e ↦ rw e
    | inr (st, e) ↦ rw e (rw (succeeded-is_ok st (h k st e)))
  ]

  consider-after :
      (cm : CrawlManager) (k : PeerId) (rest : List PeerId) (id : ℕ)
      → IsSound cm
      → length cm.token_bucket < cm.bucket_cap
      → consider (pop_state cm k rest) (node_of cm k) id
        ≡ ok (
            if done cm k
            then (with_token (pop_state cm k rest) id, none)
            else start_crawl (pop_state cm k rest) (node_of cm k) id)
  unfolding consider
  consider-after cm k rest id h room = elim (Bool-cases (done cm k)) [
    | inl e ↦ rw (needs_crawl-done cm k h, e) (return_token-with (pop_state cm k rest) id room)
    | inr e ↦ rw (needs_crawl-done cm k h, e)
  ]

  handle_pop-after :
      (cm : CrawlManager) (k : PeerId) (rest : List PeerId) (id : ℕ)
      → IsSound cm
      → length cm.token_bucket < cm.bucket_cap
      → (if contains text_dec k cm.crawls_in_progress
          then put_back manet (pop_state cm k rest) (node_of cm k) id
          else consider (pop_state cm k rest) (node_of cm k) id)
        ≡ ok (after_pop cm id (k ∷ rest))
  unfolding put_back after_pop
  handle_pop-after cm k rest id h room =
      elim (Bool-cases (contains text_dec k cm.crawls_in_progress)) [
        | inl e ↦ rw e (return_token-with (forced (pop_state cm k rest) (node_of cm k)) id room)
        | inr e ↦ rw e (consider-after cm k rest id h room)
      ]

  handle_token-pop :
      (cm : CrawlManager) (id : ℕ) (k : PeerId) (rest : List PeerId)
      → IsSound cm
      → length cm.token_bucket < cm.bucket_cap
      → ltb 0 (len cm.to_crawl) ≡ true
      → cm.to_crawl.queue ≡ k ∷ rest
      → pop cm.to_crawl ≡ ok (node_of cm k, popped cm.to_crawl k rest)
      → handle_token manet cm id ≡ ok (after_token cm id)
  unfolding handle_token after_token
  handle_token-pop cm id k rest h room e front popped =
      rw (e, popped, handle_token) (handle_pop-after cm k rest id h room)
      ∙ ap (λ ys. ok (after_pop cm id ys)) (sym front)

  -- With room in the bucket for the token, no branch of the case panics or blocks.
  pub handle_token-after :
      (cm : CrawlManager) (id : ℕ)
      → IsSynced cm.to_crawl
      → IsSound cm
      → length cm.token_bucket < cm.bucket_cap
      → handle_token manet cm id ≡ ok (after_token cm id)
  unfolding handle_token after_token
  handle_token-after cm id synced h room = elim (Bool-cases (ltb 0 (len cm.to_crawl))) [
    | inr e ↦
        rw e (return_token-with cm id room)
        ∙ ap (λ ys. ok (after_pop cm id ys)) (sym (queue_empty cm.to_crawl (ground arith) synced))
    | inl e ↦
        let (k, rest, front, popped, _, _) = pop-popped cm.to_crawl (ground arith) synced in
        handle_token-pop cm id k rest h room e front popped
  ]
