-- ===== src/Manager/Summary.antt =====
-- `createReport`, and the counts that the info ticker logs.
use ipfs_crawler.Prelude.{
  ℕ, ◌+◌, ◌≤◌, ◌≡◌, List, [], ◌∷◌, Option, none, some, is_nil, if◌then◌else◌, length, arith, All,
}
use ipfs_crawler.Panic.{Exec, ok, fault, ◌>>=◌, nil_dereference}
use ipfs_crawler.Types.{PeerId, Multiaddr, Error, NodeInformation, NodeCrawlStatus, Exclusive}
use ipfs_crawler.Manager.{CrawlManager}
use ipfs_crawler.Manager.Pure.{is_ok}

pub record CrawlOutput : Type 0 where
  pub nodes : List (PeerId × NodeCrawlStatus)
  pub addr_info : List (PeerId × List Multiaddr)

pub record Counts : Type 0 where
  pub num_nodes : ℕ
  pub num_connectable : ℕ
  pub num_crawlable : ℕ

-- The body of the loop, for a state with the fields `err` and `result`.
unfoldable pub count_state : Counts → Option Error → Option NodeInformation → Exec Counts
count_state c (some e) result = ok (record c { num_nodes = c.num_nodes + 1 })
count_state c none none = fault nil_dereference
count_state c none (some r) = ok (record {
  num_nodes = c.num_nodes + 1;
  num_connectable = c.num_connectable + 1;
  num_crawlable = if is_nil r.crawl_data_error then c.num_crawlable + 1 else c.num_crawlable;
})

unfoldable pub count_states : Counts → List (PeerId × NodeCrawlStatus) → Exec Counts
unfolding count_state
count_states c [] = ok c
count_states c ((k, st) ∷ m) = do c' ← count_state c st.err st.result; count_states c' m

abbrev pub no_counts : Counts
no_counts = record { num_nodes = 0; num_connectable = 0; num_crawlable = 0 }

unfoldable pub create_report : CrawlManager → Exec (Counts × CrawlOutput)
unfolding count_states
create_report cm = do
  counts ← count_states no_counts cm.crawled
  ok (counts, record { nodes = cm.crawled; addr_info = cm.to_crawl.addr_info })

abbrev pub connectables : List (PeerId × NodeCrawlStatus) → ℕ
connectables [] = 0
connectables ((k, st) ∷ m) = let rest = connectables m in if is_nil st.err then rest + 1 else rest

abbrev pub crawlables : List (PeerId × NodeCrawlStatus) → ℕ
crawlables [] = 0
crawlables ((k, st) ∷ m) = let rest = crawlables m in if is_ok st then rest + 1 else rest

abbrev pub AllExclusive : List (PeerId × NodeCrawlStatus) → Type 0
AllExclusive = All (λ e. Exclusive e.1.err e.1.result)

abbrev pub counted : Counts → List (PeerId × NodeCrawlStatus) → Counts
counted c m = record {
  num_nodes = c.num_nodes + length m;
  num_connectable = c.num_connectable + connectables m;
  num_crawlable = c.num_crawlable + crawlables m;
}

count_state-counted :
    (c : Counts) (k : PeerId) (st : NodeCrawlStatus)
    → Exclusive st.err st.result
    → count_state c st.err st.result ≡ ok (counted c ((k, st) ∷ []))
unfolding count_state
count_state-counted c k st h = ground arith

pub count_states-counted :
    (c : Counts) (m : List (PeerId × NodeCrawlStatus))
    → AllExclusive m
    → count_states c m ≡ ok (counted c m)
unfolding count_states
count_states-counted c [] h = ground arith
count_states-counted c ((k, st) ∷ m) h =
    rw (count_state-counted c k st h.0)
      (ground (arith, count_states-counted (counted c ((k, st) ∷ [])) m h.1))

crawlables-le :
    (m : List (PeerId × NodeCrawlStatus))
    → (crawlables m ≤ connectables m) × (connectables m ≤ length m)
crawlables-le [] = omega arith
crawlables-le ((k, st) ∷ m) = ground (arith, crawlables-le m)

-- On a sound database the report does not panic. It hands over the database and the addresses as
-- they are, and counts each entry, each entry without a connection error, and each entry without
-- any error; so the counts decrease in this order.
pub create_report-counts :
    (cm : CrawlManager)
    → AllExclusive cm.crawled
    → (c : Counts) × (create_report cm
        ≡ ok (c, record { nodes = cm.crawled; addr_info = cm.to_crawl.addr_info }))
      × (c.num_nodes ≡ length cm.crawled)
      × (c.num_connectable ≡ connectables cm.crawled)
      × (c.num_crawlable ≡ crawlables cm.crawled)
      × (c.num_crawlable ≤ c.num_connectable)
      × (c.num_connectable ≤ c.num_nodes)
unfolding create_report
create_report-counts cm h =
    let below = crawlables-le cm.crawled in
    (
      counted no_counts cm.crawled,
      rw (count_states-counted no_counts cm.crawled h),
      omega arith,
      omega arith,
      omega arith,
      omega arith,
      omega arith,
    )
