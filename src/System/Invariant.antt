-- ===== src/System/Invariant.antt =====
-- The invariant of the loop of crawling/crawlmanager.go and its goroutines.
pub mod Tokens
pub mod Reports
pub mod Runs
use ipfs_crawler.Prelude.{
  ℕ, ◌+◌, ◌≤◌, ◌<◌, ◌≡◌, refl, sym, ap, ◌∙◌, subst, Bool, true, false, List, [], ◌∷◌, ◌++◌, Option,
  none, some, text_dec, arith, get_elem?, erase_idx, length, All, All-append, All-get_elem?,
  All-erase_idx, length-append, length-erase_idx, inl, inr, lt→ltb, if◌then◌else◌,
}
use ipfs_crawler.Panic.{ok, Returns}
use ipfs_crawler.Types.{PeerId, NodeCrawlStatus, NodeCrawlResult, Exclusive}
use ipfs_crawler.GoMap.{contains, insert, keys}
use ipfs_crawler.GoMap.Laws.{Distinct, contains-add, contains-remove, keys-insert, Distinct-add}
use ipfs_crawler.AddrTools.{Manet}
use ipfs_crawler.Manager.{
  CrawlManager, Dispatch, has_work, worker_index, dispatch_report, to_status, upsert_crawl_result,
}
use ipfs_crawler.Manager.Pure.{
  to_status-Exclusive, after_report, after_token, handle_report-after, handle_token-after,
}
use ipfs_crawler.Manager.Frames.{Kept, Started, after_report-frame, after_token-uses}
use ipfs_crawler.Manager.Coverage.{IsCovered, bucket-IsCovered}
use ipfs_crawler.Manager.Coverage.Handlers.{after_report-IsCovered, after_token-IsCovered}
use ipfs_crawler.Manager.Summary.{no_counts, AllExclusive, count_states-counted}
use ipfs_crawler.System.{
  System, Outcome, IsLawful, Event, take_token, finish, give_token, tick, spawned, give, take,
  report, loop_step, step, IsFair, Run, here, next,
}
use ipfs_crawler.System.Fliers.{fliers, contains-fliers, contains-erase, Distinct-erase}

pub record Inv (total : ℕ) (s : System) : Type 0 where
  -- every peer heard of is tracked
  pub covered : IsCovered s.cm
  -- in each entry of the database, error and result are mutually exclusive
  pub entries : AllExclusive s.cm.crawled
  -- the database has one entry for each peer
  pub unique : Distinct text_dec (keys s.cm.crawled)
  -- no token is lost or made up, and the bucket has room for all of them
  pub balance : length s.cm.token_bucket + length s.crawling + length s.returning ≡ total
  pub room : total ≤ s.cm.bucket_cap
  -- every token is the index of a worker
  pub in_bucket : All (λ t. t < s.cm.num_workers) s.cm.token_bucket
  pub in_crawls : All (λ (d : Dispatch). d.token < s.cm.num_workers) s.crawling
  pub in_returns : All (λ t. t < s.cm.num_workers) s.returning
  -- the set of crawls in progress is the peers of the goroutines, each with one goroutine
  pub apart : Distinct text_dec (fliers s.crawling)
  pub flying :
      (k : PeerId)
      → contains text_dec k s.cm.crawls_in_progress ≡ contains text_dec k (fliers s.crawling)

pub All-insert :
    (m : List (PeerId × NodeCrawlStatus)) (k : PeerId) (st : NodeCrawlStatus)
    → Exclusive st.err st.result
    → AllExclusive m
    → AllExclusive (insert text_dec k st m)
unfolding insert
All-insert [] k st x h = (x, tt)
All-insert ((j, w) ∷ m) k st x h = ground (arith, All-insert m k st)

-- A step that is possible ends in a state with the invariant.
abbrev pub Keeps : ℕ → Option System → Type 0
Keeps total none = Unit {0}
Keeps total (some s) = Inv total s

module _ (manet : Manet) (total : ℕ) where
  pub give-Inv :
      (s : System) (i : ℕ) (o : Option ℕ)
      → get_elem? s.returning i ≡ o
      → Inv total s
      → Returns (give s i o) (Keeps total)
  unfolding give
  give-Inv s i none e h = tt
  give-Inv s i (some id) e h =
      let shorter = length-erase_idx s.returning i id e in
      let free : length s.cm.token_bucket < s.cm.bucket_cap = omega (arith, h.balance, h.room) in
      rw (lt→ltb _ _ free) (record {
        covered = bucket-IsCovered s.cm (s.cm.token_bucket ++ id ∷ []) h.covered;
        entries = h.entries;
        unique = h.unique;
        balance = omega (arith, h.balance, shorter, length-append s.cm.token_bucket (id ∷ []));
        room = h.room;
        in_bucket =
            All-append (λ t. t < s.cm.num_workers) s.cm.token_bucket (id ∷ []) h.in_bucket
              (All-get_elem? (λ t. t < s.cm.num_workers) s.returning i id h.in_returns e, tt);
        in_crawls = h.in_crawls;
        in_returns = All-erase_idx (λ t. t < s.cm.num_workers) s.returning i h.in_returns;
        apart = h.apart;
        flying = h.flying;
      })
