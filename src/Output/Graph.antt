-- ===== src/Output/Graph.antt =====
-- `WritePeergraph` of crawling/io.go.
pub mod Edges
use Prim.Native.String.{◌++◌ as ◌<>◌}
use ipfs_crawler.Prelude.{
  ℕ, ◌+◌, ◌≡◌, refl, Bool, ◌&&◌, List, [], ◌∷◌, ◌++◌, map, Option, none, some, is_nil,
  if◌then◌else◌, text_dec, arith, All, length, inl, inr, Option-cases,
}
use ipfs_crawler.Panic.{Exec, ok, fault, ◌>>=◌, nil_dereference}
use ipfs_crawler.Result.{Result, value, error}
use ipfs_crawler.Types.{PeerId, Time, Error, NodeInformation, NodeCrawlStatus, Exclusive}
use ipfs_crawler.GoMap.{lookup}
use ipfs_crawler.Manager.{crawl_ok, succeeded}
use ipfs_crawler.Manager.Pure.{is_ok, no_error, succeeded-is_ok}
use ipfs_crawler.Manager.Coverage.{neighbors}
use ipfs_crawler.Manager.Summary.{CrawlOutput}
use ipfs_crawler.Output.{FileErrors, unless}

-- A line of the CSV file: source, target, target_crawlable, source_crawl_timestamp. How an ID and a
-- time are printed is the libraries'.
pub record Row : Type 0 where
  pub source : PeerId
  pub target : PeerId
  pub target_crawlable : Bool
  pub source_crawl_timestamp : Time

-- `report.nodes[neighbour]`: a missing key gives the zero value.
unfoldable pub or_zero : Option NodeCrawlStatus → NodeCrawlStatus
or_zero none = record { start_ts = 0; end_ts = 0; err = none; result = none }
or_zero (some st) = st

-- Lines before the lines that the rest of the loop writes.
unfoldable pub prepend : List Row → Result (List Row) → Result (List Row)
prepend rows (value more) = value (rows ++ more)
prepend rows (error e) = error e

module _ (files : FileErrors) (nodes : List (PeerId × NodeCrawlStatus)) where
  -- `report.nodes[neighbour].err == nil && report.nodes[neighbour].result.crawlDataError == nil`
  unfoldable pub target_crawlable : PeerId → Exec Bool
  unfolding or_zero succeeded
  target_crawlable n = succeeded (or_zero (lookup text_dec n nodes))

  -- The lines of one source; `k` counts the lines that are written before.
  unfoldable pub source_rows : ℕ → PeerId → Time → List PeerId → Exec (Result (List Row))
  unfolding target_crawlable prepend
  source_rows k id ts [] = ok (value [])
  source_rows k id ts (n ∷ ns) = do
    crawlable ← target_crawlable n
    let row : Row = record {
      source = id;
      target = n;
      target_crawlable = crawlable;
      source_crawl_timestamp = ts;
    }
    let rest = source_rows (k + 1) id ts ns
    elim (files.write k) [
      | some e ↦ ok (error ("unable to write output: " <> e))
      | none ↦ do more ← rest; ok (prepend (row ∷ []) more)
    ]

  unfoldable pub node_rows :
      ℕ → PeerId → Option Error → Option NodeInformation → Exec (Result (List Row))
  unfolding source_rows
  node_rows k id (some e) result = ok (value [])
  node_rows k id none none = fault nil_dereference
  node_rows k id none (some r) = elim r.crawl_data_error [
    | some e ↦ ok (value [])
    | none ↦ source_rows k id r.crawl_data_end_ts r.crawl_neighbors
  ]

  -- The loop over the nodes.
  unfoldable pub graph_rows : ℕ → List (PeerId × NodeCrawlStatus) → Exec (Result (List Row))
  unfolding node_rows prepend
  graph_rows k [] = ok (value [])
  graph_rows k ((id, node) ∷ rest) = do
    first ← node_rows k id node.err node.result
    elim first [
      | error e ↦ ok (error e)
      | value rows ↦ do more ← graph_rows (k + length rows) rest; ok (prepend rows more)
    ]

-- The file's lines below the header, if no call returns an error.
unfoldable pub write_peergraph : CrawlOutput → FileErrors → Exec (Result (List Row))
unfolding graph_rows
write_peergraph report files = elim files.create [
  | some e ↦ ok (error ("unable to open output file: " <> e))
  | none ↦ elim (files.write 0) [
    | some e ↦ ok (error ("unable to write output: " <> e))
    | none ↦ do
      rows ← graph_rows files report.nodes 1 report.nodes
      ok (unless files.flush "unable to flush CSV writer: " (unless files.close "" rows))
  ]
]
