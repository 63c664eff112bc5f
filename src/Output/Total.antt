-- ===== src/Output/Total.antt =====
-- `WritePeergraph` of crawling/io.go on the database of a finished crawl.
use ipfs_crawler.Prelude.{
  ℕ, ◌≡◌, true, false, List, [], ◌∷◌, none, some, is_some, text_dec, arith, All, inl, inr,
  Option-cases,
}
use ipfs_crawler.Panic.{ok}
use ipfs_crawler.Result.{value}
use ipfs_crawler.Types.{PeerId, NodeCrawlStatus, Exclusive}
use ipfs_crawler.GoMap.{contains, lookup, keys}
use ipfs_crawler.GoMap.Laws.{Distinct, contains-keys}
use ipfs_crawler.AddrTools.{Manet}
use ipfs_crawler.Manager.{has_work}
use ipfs_crawler.Manager.Coverage.{neighbors}
use ipfs_crawler.Manager.Summary.{CrawlOutput}
use ipfs_crawler.System.{System, Run}
use ipfs_crawler.System.Invariant.{Inv}
use ipfs_crawler.System.Invariant.Runs.{Run-Inv}
use ipfs_crawler.System.Complete.{neighbors_crawled}
use ipfs_crawler.Output.{FileErrors}
use ipfs_crawler.Output.Graph.{write_peergraph}
use ipfs_crawler.Output.Graph.Edges.{Present, IsClosed, edges, write_peergraph-edges}

-- A property of all members, entry by entry.
All-of-contains :
    (P : PeerId → Type 0) (ns : List PeerId)
    → ((n : PeerId) → contains text_dec n ns ≡ true → P n)
    → All P ns
unfolding contains
All-of-contains P [] h = tt
All-of-contains P (n ∷ ns) h =
    (h n (ground arith), All-of-contains P ns (λ k m. h k (ground arith)))

-- A property of all that a lookup finds, entry by entry, where no key stands twice.
pub All-of-lookup :
    (P : PeerId × NodeCrawlStatus → Type 0) (m : List (PeerId × NodeCrawlStatus))
    → Distinct text_dec (keys m)
    → ((k : PeerId) (st : NodeCrawlStatus) → lookup text_dec k m ≡ some st → P (k, st))
    → All P m
unfolding lookup
All-of-lookup P [] d h = tt
All-of-lookup P ((k, st) ∷ m) d h = (
  h k st (ground arith),
  All-of-lookup P m d.1 (λ j w e. h j w (ground (arith, contains-keys text_dec k m, d.0))),
)

module _ (manet : Manet) (total : ℕ) (s t : System) (inv : Inv total s) (run : Run manet s t) where
  -- At the end of the loop the database is closed under neighbors.
  pub end-IsClosed : has_work t.cm ≡ false → IsClosed t.cm.crawled t.cm.crawled
  end-IsClosed idle =
      let now = Run-Inv manet total inv run in
      All-of-lookup
        (λ e. Exclusive e.1.err e.1.result × All (Present t.cm.crawled) (neighbors e.1.result))
        t.cm.crawled now.unique
        (λ k st found. (
          now.covered.sound k st found,
          All-of-contains (Present t.cm.crawled) (neighbors st.result)
              (λ n m. present n (neighbors_crawled manet total s t inv run k st n idle found m)),
        ))
    where
      present :
          (n : PeerId) → is_some (lookup text_dec n t.cm.crawled) ≡ true → Present t.cm.crawled n
      present n h = elim (Option-cases (lookup text_dec n t.cm.crawled)) [
        | inl e ↦ absurd (ground arith)
        | inr (st, e) ↦ (st, e, (Run-Inv manet total inv run).covered.sound n st e)
      ]

  -- The peer graph of a crawl that ran from a state with the invariant to the end of the loop
  -- is written without a `nil` dereference, and holds exactly the edges of the database, if no
  -- call on the file fails.
  pub peergraph_of_crawl :
      (report : CrawlOutput) (files : FileErrors)
      → has_work t.cm ≡ false
      → report.nodes ≡ t.cm.crawled
      → files.create ≡ none
      → ((k : ℕ) → files.write k ≡ none)
      → files.flush ≡ none
      → files.close ≡ none
      → write_peergraph report files ≡ ok (value (edges t.cm.crawled t.cm.crawled))
  peergraph_of_crawl report files idle e created written flushed closed =
      write_peergraph-edges files t.cm.crawled report e (end-IsClosed idle) created written flushed
        closed
