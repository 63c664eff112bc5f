-- ===== src/Manager.antt =====
-- `CrawlManager` of crawling/crawlmanager.go: its state and the handlers of the dispatch loop. The
-- goroutines that `dispatch` starts are in System.antt.
pub mod Pure
pub mod Frames
pub mod Summary
pub mod Coverage
use ipfs_crawler.Prelude.{
  ℕ, ◌||◌, Bool, true, false, not, List, [], ◌∷◌, ◌++◌, map, Option, none, some, is_some, is_nil,
  if◌then◌else◌, length, ltb, text_dec, ◌==◌,
}
use ipfs_crawler.Panic.{
  Exec, ok, fault, ◌>>=◌, untracked_crawl, nil_dereference, deadlock, out_of_range,
}
use ipfs_crawler.Types.{
  PeerId, Multiaddr, AddrInfo, Error, Time, CrawlData, RawNodeInformation, NodeCrawlResult,
  NodeInformation, NodeCrawlStatus,
}
use ipfs_crawler.GoMap.{contains, add, remove, lookup, insert}
use ipfs_crawler.AddrTools.{Manet}
use ipfs_crawler.Queue.{ToCrawlQueue, len, pop, push}

-- `num_workers` is `len(cm.workers)`, `token_bucket` the content of the buffered channel, oldest
-- first, and `bucket_cap` its capacity. `resultChan` holds nothing: its sends are rendezvous.
pub record CrawlManager : Type 0 where
  pub token_bucket : List ℕ
  pub bucket_cap : ℕ
  pub num_workers : ℕ
  pub crawls_in_progress : List PeerId
  pub crawled : List (PeerId × NodeCrawlStatus)
  pub to_crawl : ToCrawlQueue

-- A call of `dispatch` on its way: `go cm.dispatch(node, id)`.
pub record Dispatch : Type 0 where
  pub node : AddrInfo
  pub token : ℕ

-- The condition of the `for` loop.
unfoldable pub has_work : CrawlManager → Bool
has_work cm = not (len cm.to_crawl == 0) || not (length cm.crawls_in_progress == 0)

-- `cm.tokenBucket <- id` by the manager. No other goroutine receives from the channel.
unfoldable pub send_token : CrawlManager → ℕ → Exec CrawlManager
send_token cm id =
    if ltb (length cm.token_bucket) cm.bucket_cap
    then ok (record cm { token_bucket = cm.token_bucket ++ id ∷ [] })
    else fault deadlock

-- `state.err == nil && state.result.crawlDataError == nil`
unfoldable pub crawl_ok : Option Error → Option NodeInformation → Exec Bool
crawl_ok (some e) result = ok false
crawl_ok none none = fault nil_dereference
crawl_ok none (some r) = ok (is_nil r.crawl_data_error)

unfoldable pub succeeded : NodeCrawlStatus → Exec Bool
unfolding crawl_ok
succeeded state = crawl_ok state.err state.result

-- The IDs that `upsertCrawlResult` copies from the neighbors.
unfoldable pub neighbor_ids : Option CrawlData → List PeerId
neighbor_ids none = []
neighbor_ids (some d) = map (λ p. p.id) d.neighbors

unfoldable pub to_node_information : RawNodeInformation → NodeInformation
unfolding neighbor_ids
to_node_information node = record {
  info = node.info;
  plugin_results = node.plugin_results;
  crawl_data_error = node.crawl_data.err;
  crawl_data_begin_ts = node.crawl_data.begin_timestamp;
  crawl_data_end_ts = node.crawl_data.end_timestamp;
  crawl_neighbors = neighbor_ids node.crawl_data.result;
}

-- `ncs.result`
unfoldable pub to_result : Option RawNodeInformation → Option NodeInformation
unfolding to_node_information
to_result none = none
to_result (some node) = some (to_node_information node)

unfoldable pub to_status : NodeCrawlResult → NodeCrawlStatus
unfolding to_result
to_status report = record {
  start_ts = report.start_ts;
  end_ts = report.end_ts;
  err = report.err;
  result = to_result report.node;
}

unfoldable pub upsert_crawl_result : CrawlManager → NodeCrawlResult → CrawlManager
unfolding to_status
upsert_crawl_result cm report = record cm {
  crawled = insert text_dec report.id (to_status report) cm.crawled;
}

-- `!ok || (ok && state.err != nil) || (ok && state.err == nil && state.result.crawlDataError != nil)`
unfoldable pub needs_crawl : Option NodeCrawlStatus → Exec Bool
unfolding succeeded
needs_crawl none = ok true
needs_crawl (some state) = do done ← succeeded state; ok (not done)

-- The token goes back to the bucket, and no crawl starts.
unfoldable pub return_token : CrawlManager → ℕ → Exec (CrawlManager × Option Dispatch)
unfolding send_token
return_token cm id = do cm' ← send_token cm id; ok (cm', none)

-- `cm.crawlsInProgress[node.ID] = struct{}{}; go cm.dispatch(node, id)`
unfoldable pub start_crawl : CrawlManager → AddrInfo → ℕ → CrawlManager × Option Dispatch
start_crawl cm node id = (
  record cm { crawls_in_progress = add text_dec node.id cm.crawls_in_progress },
  some (record { node = node; token = id }),
)

-- A node popped otherwise is crawled, unless that has succeeded before.
unfoldable pub consider : CrawlManager → AddrInfo → ℕ → Exec (CrawlManager × Option Dispatch)
unfolding return_token start_crawl needs_crawl
consider cm node id = do
  needed ← needs_crawl (lookup text_dec node.id cm.crawled)
  if needed then ok (start_crawl cm node id) else return_token cm id

module _ (manet : Manet) where
  unfoldable pub handle_new_node : CrawlManager → AddrInfo → Exec CrawlManager
  unfolding succeeded
  handle_new_node cm node = elim (lookup text_dec node.id cm.crawled) [
    | none ↦ ok (record cm { to_crawl = push manet cm.to_crawl node false })
    | some state ↦ do
      done ← succeeded state
      ok (if done then cm else record cm { to_crawl = push manet cm.to_crawl node false })
  ]

  -- `for _, addrInfo := range report.node.crawlData.result.neighbors`
  unfoldable pub handle_neighbors : CrawlManager → List AddrInfo → Exec CrawlManager
  handle_neighbors cm [] = ok cm
  handle_neighbors cm (p ∷ ps) = do cm' ← handle_new_node cm p; handle_neighbors cm' ps

  -- `if report.node.crawlData.result != nil`
  unfoldable pub handle_crawl_data : CrawlManager → Option CrawlData → Exec CrawlManager
  unfolding handle_neighbors
  handle_crawl_data cm none = ok cm
  handle_crawl_data cm (some d) = handle_neighbors cm d.neighbors

  -- The rest of the case after the database is updated.
  unfoldable pub handle_node :
      CrawlManager → Option Error → Option RawNodeInformation → Exec CrawlManager
  unfolding handle_crawl_data
  handle_node cm (some e) _ = ok cm
  handle_node cm none none = fault nil_dereference
  handle_node cm none (some node) = handle_crawl_data cm node.crawl_data.result

  -- `case report := <-cm.resultChan`
  unfoldable pub handle_report : CrawlManager → NodeCrawlResult → Exec CrawlManager
  unfolding upsert_crawl_result handle_node
  handle_report cm report =
      let tracked = record cm {
        crawls_in_progress = remove text_dec report.id cm.crawls_in_progress;
      } in
      if contains text_dec report.id cm.crawls_in_progress
      then handle_node (upsert_crawl_result tracked report) report.err report.node
      else fault untracked_crawl

  -- A node popped while its crawl is under way goes back to the queue, with the token.
  unfoldable pub put_back : CrawlManager → AddrInfo → ℕ → Exec (CrawlManager × Option Dispatch)
  unfolding return_token
  put_back cm node id = return_token (record cm { to_crawl = push manet cm.to_crawl node true }) id

  -- `case id := <-cm.tokenBucket`: `cm` is the state without the token. A crawl that starts is
  -- returned beside the state.
  unfoldable pub handle_token : CrawlManager → ℕ → Exec (CrawlManager × Option Dispatch)
  unfolding return_token put_back consider
  handle_token cm id =
      if ltb 0 (len cm.to_crawl)
      then (do
        (node, rest) ← pop cm.to_crawl
        let cm' = record cm { to_crawl = rest }
        if contains text_dec node.id cm.crawls_in_progress
            then put_back cm' node id
            else consider cm' node id)
      else return_token cm id

  -- `AddPeersToCrawl`
  unfoldable pub add_peers_to_crawl : CrawlManager → List AddrInfo → CrawlManager
  add_peers_to_crawl cm [] = cm
  add_peers_to_crawl cm (p ∷ ps) =
      add_peers_to_crawl (record cm { to_crawl = push manet cm.to_crawl p false }) ps

-- `worker := cm.workers[id]` at the start of `dispatch`
unfoldable pub worker_index : CrawlManager → Dispatch → Exec ℕ
worker_index cm d = if ltb d.token cm.num_workers then ok d.token else fault out_of_range

-- The message that `dispatch` sends, from what the worker's `crawlPeer` returned.
unfoldable pub dispatch_report :
    Dispatch → Option RawNodeInformation → Option Error → Time → Time → NodeCrawlResult
dispatch_report d result err before after = record {
  id = d.node.id;
  start_ts = before;
  end_ts = after;
  err = err;
  node = result;
}
