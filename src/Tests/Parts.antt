-- ===== src/Tests/Parts.antt =====
-- The theorems on the parts, at small inputs.
use ipfs_crawler.Prelude.{
  ◌≤◌, ◌<◌, ◌≡◌, ◌≢◌, ◌↔◌, refl, true, false, not, ◌&&◌, List, [], ◌∷◌, none, arith, text_dec,
  is_some, All,
}
use ipfs_crawler.Panic.{ok, Returns}
use ipfs_crawler.Types.{PeerId, AddrInfo}
use ipfs_crawler.Config.{check_manager, check_manager_iff}
use ipfs_crawler.Result.{value}
use ipfs_crawler.GoMap.{contains, lookup}
use ipfs_crawler.AddrTools.{found, filter_out_old_addresses, strip_local_addrs}
use ipfs_crawler.AddrTools.Laws.{found-strip_local, is_local, In, filter_out-In}
use ipfs_crawler.Queue.{ToCrawlQueue, len, pop, push, addrs_of}
use ipfs_crawler.Queue.Sync.{IsSynced, push-IsSynced, popped, pop-popped, Pushed, push-Pushed}
use ipfs_crawler.Queue.Budget.{Paid, push-Paid}
use ipfs_crawler.Manager.{has_work, add_peers_to_crawl}
use ipfs_crawler.Setup.{fill_tokens, parse_peer_string}
use ipfs_crawler.Setup.Start.{Filled, fill_tokens_start}
use ipfs_crawler.Setup.Crawls.{crawl_of_config}
use ipfs_crawler.System.Complete.{Reached}
use ipfs_crawler.System.Contacts.{times}
use ipfs_crawler.Queue.Budget.{allowance}
use ipfs_crawler.Tests.Data.{
  manet, parsers, chan_limit, load, new_worker, config, first_cm, first-Inv, made,
}
use ipfs_crawler.Tests.Run.{last, last-Run}

abbrev pub queue : ToCrawlQueue
queue = first_cm.to_crawl

first-IsSynced : IsSynced queue
first-IsSynced = first-Inv.covered.synced

abbrev pub newcomer : AddrInfo
newcomer = record { id = "/c"; addrs = "/c" ∷ [] }

crawl_of_config_example :
    All
      (λ text.
        (p : AddrInfo) × (parse_peer_string parsers text ≡ value p)
        × (is_some (lookup text_dec p.id last.cm.crawled) ≡ true))
      config.bootstrap_peers
    × All (λ (p : AddrInfo). is_some (lookup text_dec p.id last.cm.crawled) ≡ true) []
    × ((k : PeerId)
        → Reached manet (add_peers_to_crawl manet first_cm []) last.cm k
        → is_some (lookup text_dec k last.cm.crawled) ≡ true)
    × ((k : PeerId) → times k last.history ≤ allowance last.cm.to_crawl k)
unfolding add_peers_to_crawl has_work len
crawl_of_config_example =
    crawl_of_config manet parsers chan_limit load new_worker config (omega arith) first_cm (0 ∷ [])
      [] made last last-Run refl

fill_tokens_start_example : Returns (fill_tokens 3 0 2 6 []) (Filled 2 3)
fill_tokens_start_example = fill_tokens_start 3 2 6 (omega arith) (omega arith)

push-IsSynced_example : IsSynced (push manet queue newcomer true)
unfolding contains text_dec
push-IsSynced_example = push-IsSynced manet queue newcomer true (λ e. refl) first-IsSynced

pop-popped_example :
    (id : PeerId) × (rest : List PeerId) × (queue.queue ≡ id ∷ rest)
    × (pop queue ≡ ok (record { id = id; addrs = addrs_of queue id }, popped queue id rest))
    × IsSynced (popped queue id rest)
    × (contains text_dec id rest ≡ false)
unfolding len
pop-popped_example = pop-popped queue (λ e. omega (arith, e)) first-IsSynced

push-Pushed_example : Pushed queue (push manet queue newcomer false) newcomer
push-Pushed_example = push-Pushed manet queue newcomer

push-Paid_example : Paid queue newcomer "/c" (push manet queue newcomer false)
push-Paid_example = push-Paid queue newcomer "/c" manet first-IsSynced

check_manager_iff_example : (check_manager config ≡ none) ↔ (
    (config.preimage_file_path ≢ "")
    × (0 < config.num_workers)
    × (config.bootstrap_peers ≢ [])
    × (0 < config.concurrent_requests))
check_manager_iff_example = check_manager_iff config

filter_out-In_example :
    In "/b" (filter_out_old_addresses ("/a" ∷ []) ("/a" ∷ "/b" ∷ []))
    ↔ (In "/b" ("/a" ∷ "/b" ∷ []) × (¬ In "/b" ("/a" ∷ [])))
filter_out-In_example = filter_out-In "/b" ("/a" ∷ []) ("/a" ∷ "/b" ∷ [])

found-strip_local_example :
    found "/b" (strip_local_addrs manet ("/a" ∷ "/b" ∷ []))
    ≡ (found "/b" ("/a" ∷ "/b" ∷ []) && not (is_local manet "/b"))
found-strip_local_example = found-strip_local manet "/b" ("/a" ∷ "/b" ∷ [])
