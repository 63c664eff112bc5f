-- ===== src/Tests/Run.antt =====
-- The states and the run of the small crawl.
use ipfs_crawler.Prelude.{ℕ, ◌≡◌, refl, List, [], ◌∷◌, none, some, text_dec}
use ipfs_crawler.Panic.{ok}
use ipfs_crawler.Types.{PeerId, Multiaddr, AddrInfo, NodeCrawlStatus}
use ipfs_crawler.GoMap.{contains, lookup, insert, add, remove}
use ipfs_crawler.AddrTools.{found, filter_out_old_addresses, strip_local_addrs}
use ipfs_crawler.Queue.{len, pop, push}
use ipfs_crawler.Manager.{
  Dispatch, has_work, handle_token, handle_report, handle_new_node, upsert_crawl_result,
  worker_index, dispatch_report,
}
use ipfs_crawler.System.{System, take_token, finish, give_token, step, Run, here, next}
use ipfs_crawler.Tests.Data.{manet, first, failure, success, found_node}

abbrev pub failed_status : NodeCrawlStatus
failed_status = record { start_ts = 0; end_ts = 3; err = some "unreachable"; result = none }

abbrev pub ok_status : List PeerId → NodeCrawlStatus
ok_status neighbors = record {
  start_ts = 0;
  end_ts = 3;
  err = none;
  result = some (record {
    info = (found_node []).info;
    plugin_results = [];
    crawl_data_error = none;
    crawl_data_begin_ts = 1;
    crawl_data_end_ts = 2;
    crawl_neighbors = neighbors;
  });
}

-- The state with the tokens `bucket`, the goroutines `crawling`, the tokens `returning`, the queue
-- `queue`, the addresses `a_addrs` of `/a`, the database `crawled` and the history `history`.
abbrev pub state :
    List ℕ
    → List Dispatch
    → List ℕ
    → List PeerId
    → List PeerId
    → List Multiaddr
    → List (PeerId × NodeCrawlStatus)
    → List PeerId
    → System
state bucket crawling returning in_progress queue a_addrs crawled history = record {
  cm = record {
    token_bucket = bucket;
    bucket_cap = 1;
    num_workers = 1;
    crawls_in_progress = in_progress;
    crawled = crawled;
    to_crawl = record {
      queue = queue;
      in_queue = queue;
      addr_info = ("/a", a_addrs) ∷ ("/b", "/b" ∷ []) ∷ [];
    };
  };
  crawling = crawling;
  returning = returning;
  history = history;
}

abbrev pub crawl_of : PeerId → List Multiaddr → List Dispatch
crawl_of k addrs = record { node = record { id = k; addrs = addrs }; token = 0 } ∷ []

abbrev pub neighbor : List AddrInfo
neighbor = record { id = "/a"; addrs = "/a2" ∷ [] } ∷ []

abbrev pub a_started : System
a_started =
    state [] (crawl_of "/a" ("/a" ∷ [])) [] ("/a" ∷ []) ("/b" ∷ []) ("/a" ∷ []) [] ("/a" ∷ [])

abbrev pub a_failed : System
a_failed = state [] [] (0 ∷ []) [] ("/b" ∷ []) ("/a" ∷ []) (("/a", failed_status) ∷ []) ("/a" ∷ [])

abbrev pub a_ended : System
a_ended = state (0 ∷ []) [] [] [] ("/b" ∷ []) ("/a" ∷ []) (("/a", failed_status) ∷ []) ("/a" ∷ [])

abbrev pub b_started : System
b_started =
    state [] (crawl_of "/b" ("/b" ∷ [])) [] ("/b" ∷ []) [] ("/a" ∷ []) (("/a", failed_status) ∷ [])
      ("/b" ∷ "/a" ∷ [])

abbrev pub b_crawled : System
b_crawled =
    state [] [] (0 ∷ []) [] ("/a" ∷ []) ("/a" ∷ "/a2" ∷ [])
      (("/a", failed_status) ∷ ("/b", ok_status ("/a" ∷ [])) ∷ []) ("/b" ∷ "/a" ∷ [])

abbrev pub b_ended : System
b_ended =
    state (0 ∷ []) [] [] [] ("/a" ∷ []) ("/a" ∷ "/a2" ∷ [])
      (("/a", failed_status) ∷ ("/b", ok_status ("/a" ∷ [])) ∷ []) ("/b" ∷ "/a" ∷ [])

abbrev pub a_again : System
a_again =
    state [] (crawl_of "/a" ("/a" ∷ "/a2" ∷ [])) [] ("/a" ∷ []) [] ("/a" ∷ "/a2" ∷ [])
      (("/a", failed_status) ∷ ("/b", ok_status ("/a" ∷ [])) ∷ []) ("/a" ∷ "/b" ∷ "/a" ∷ [])

abbrev pub last : System
last =
    state [] [] (0 ∷ []) [] [] ("/a" ∷ "/a2" ∷ [])
      (("/a", ok_status []) ∷ ("/b", ok_status ("/a" ∷ [])) ∷ []) ("/a" ∷ "/b" ∷ "/a" ∷ [])

pub a_started-step : step manet first take_token ≡ ok (some a_started)
unfolding step has_work len handle_token handle_report pop push contains lookup insert add remove
    text_dec filter_out_old_addresses strip_local_addrs upsert_crawl_result handle_new_node found
    worker_index dispatch_report
a_started-step = refl

pub a_started-Run : Run manet first a_started
a_started-Run = next here take_token tt a_started-step

pub a_failed-step : step manet a_started (finish 0 failure) ≡ ok (some a_failed)
unfolding step has_work len handle_token handle_report pop push contains lookup insert add remove
    text_dec filter_out_old_addresses strip_local_addrs upsert_crawl_result handle_new_node found
    worker_index dispatch_report
a_failed-step = refl

pub a_failed-Run : Run manet first a_failed
a_failed-Run = next a_started-Run (finish 0 failure) refl a_failed-step

pub a_ended-step : step manet a_failed (give_token 0) ≡ ok (some a_ended)
unfolding step has_work len handle_token handle_report pop push contains lookup insert add remove
    text_dec filter_out_old_addresses strip_local_addrs upsert_crawl_result handle_new_node found
    worker_index dispatch_report
a_ended-step = refl

pub a_ended-Run : Run manet first a_ended
a_ended-Run = next a_failed-Run (give_token 0) tt a_ended-step

pub b_started-step : step manet a_ended take_token ≡ ok (some b_started)
unfolding step has_work len handle_token handle_report pop push contains lookup insert add remove
    text_dec filter_out_old_addresses strip_local_addrs upsert_crawl_result handle_new_node found
    worker_index dispatch_report
b_started-step = refl

pub b_started-Run : Run manet first b_started
b_started-Run = next a_ended-Run take_token tt b_started-step

pub b_crawled-step : step manet b_started (finish 0 (success neighbor)) ≡ ok (some b_crawled)
unfolding step has_work len handle_token handle_report pop push contains lookup insert add remove
    text_dec filter_out_old_addresses strip_local_addrs upsert_crawl_result handle_new_node found
    worker_index dispatch_report
b_crawled-step = refl

pub b_crawled-Run : Run manet first b_crawled
b_crawled-Run = next b_started-Run (finish 0 (success neighbor)) refl b_crawled-step

pub b_ended-step : step manet b_crawled (give_token 0) ≡ ok (some b_ended)
unfolding step has_work len handle_token handle_report pop push contains lookup insert add remove
    text_dec filter_out_old_addresses strip_local_addrs upsert_crawl_result handle_new_node found
    worker_index dispatch_report
b_ended-step = refl

pub b_ended-Run : Run manet first b_ended
b_ended-Run = next b_crawled-Run (give_token 0) tt b_ended-step

pub a_again-step : step manet b_ended take_token ≡ ok (some a_again)
unfolding step has_work len handle_token handle_report pop push contains lookup insert add remove
    text_dec filter_out_old_addresses strip_local_addrs upsert_crawl_result handle_new_node found
    worker_index dispatch_report
a_again-step = refl

pub a_again-Run : Run manet first a_again
a_again-Run = next b_ended-Run take_token tt a_again-step

pub last-step : step manet a_again (finish 0 (success [])) ≡ ok (some last)
unfolding step has_work len handle_token handle_report pop push contains lookup insert add remove
    text_dec filter_out_old_addresses strip_local_addrs upsert_crawl_result handle_new_node found
    worker_index dispatch_report
last-step = refl

pub last-Run : Run manet first last
last-Run = next a_again-Run (finish 0 (success [])) refl last-step
