-- ===== src/Output/Graph/Edges.antt =====
-- `WritePeergraph` of crawling/io.go: its lines against the edges that the file should hold.

use ipfs_crawler.Prelude.{
  ℕ, ◌+◌, ◌≡◌, refl, ◌&&◌, List, [], ◌∷◌, ◌++◌, map, Option, none, some, is_nil, if◌then◌else◌,
  text_dec, arith, All, length, inl, inr, Option-cases,
}
use ipfs_crawler.Panic.{Exec, ok, fault, ◌>>=◌, nil_dereference}
use ipfs_crawler.Result.{Result, value, error}
use ipfs_crawler.Types.{PeerId, Time, Error, NodeInformation, NodeCrawlStatus, Exclusive}
use ipfs_crawler.GoMap.{lookup}
use ipfs_crawler.Manager.{crawl_ok, succeeded}
use ipfs_crawler.Manager.Pure.{is_ok, no_error, succeeded-is_ok}
use ipfs_crawler.Manager.Coverage.{neighbors}
use ipfs_crawler.Manager.Summary.{CrawlOutput}
use ipfs_crawler.Output.{FileErrors, unless}
use ipfs_crawler.Output.Graph.{
  Row, or_zero, prepend, target_crawlable, source_rows, node_rows, graph_rows, write_peergraph,
}

abbrev pub end_of : Option NodeInformation → Time
end_of none = 0
end_of (some r) = r.crawl_data_end_ts

-- The edges that the file should hold: for each node that was crawled with success, one for each of
-- its neighbors, which says whether that neighbor was crawled with success.
module _ (nodes : List (PeerId × NodeCrawlStatus)) where
  abbrev pub edge : PeerId → Time → PeerId → Row
  edge id ts n = record {
    source = id;
    target = n;
    target_crawlable = is_ok (or_zero (lookup text_dec n nodes));
    source_crawl_timestamp = ts;
  }

  abbrev pub edges_of : PeerId → NodeCrawlStatus → List Row
  edges_of id st = if is_ok st then map (edge id (end_of st.result)) (neighbors st.result) else []

  abbrev pub edges : List (PeerId × NodeCrawlStatus) → List Row
  edges [] = []
  edges ((id, st) ∷ rest) = edges_of id st ++ edges rest

-- The lines; or an error, and then some write has failed.
abbrev pub Lines : FileErrors → List Row → Exec (Result (List Row)) → Type 0
Lines files rows (ok (value r)) = r ≡ rows
Lines files rows (ok (error e)) = (k : ℕ) × (e' : Error) × (files.write k ≡ some e')
Lines files rows (fault f) = ⊥

-- A neighbor with an entry that is sound.
abbrev pub Present : List (PeerId × NodeCrawlStatus) → PeerId → Type 0
Present nodes n =
    (st : NodeCrawlStatus) × (lookup text_dec n nodes ≡ some st) × Exclusive st.err st.result

-- Every entry is sound, and its neighbors have entries.
abbrev pub IsClosed : List (PeerId × NodeCrawlStatus) → List (PeerId × NodeCrawlStatus) → Type 0
IsClosed nodes =
    All (λ e. Exclusive e.1.err e.1.result × All (Present nodes) (neighbors e.1.result))

module _ (files : FileErrors) (nodes : List (PeerId × NodeCrawlStatus)) where
  Lines-prepend :
      (rows xs : List Row) (m : Exec (Result (List Row)))
      → Lines files xs m
      → Lines files (rows ++ xs) (m >>= λ more. ok (prepend rows more))
  unfolding prepend
  Lines-prepend rows xs (ok (value r)) h = rw h
  Lines-prepend rows xs (ok (error e)) h = h
  Lines-prepend rows xs (fault f) h = h

  target_crawlable_lem :
      (n : PeerId)
      → Present nodes n
      → target_crawlable files nodes n ≡ ok (is_ok (or_zero (lookup text_dec n nodes)))
  unfolding target_crawlable or_zero
  target_crawlable_lem n (st, found, sound) = rw found (succeeded-is_ok st sound)

  source_rows-Lines :
      (k : ℕ) (id : PeerId) (ts : Time) (ns : List PeerId)
      → All (Present nodes) ns
      → Lines files (map (edge nodes id ts) ns) (source_rows files nodes k id ts ns)
  unfolding source_rows
  source_rows-Lines k id ts [] h = refl
  source_rows-Lines k id ts (n ∷ ns) h =
      rw (target_crawlable_lem n h.0) (elim (Option-cases (files.write k)) [
        | inr (e, failed) ↦ rw failed (k, e, failed)
        | inl fine ↦ rw fine (
            Lines-prepend (edge nodes id ts n ∷ []) (map (edge nodes id ts) ns)
              (source_rows files nodes (k + 1) id ts ns) (source_rows-Lines (k + 1) id ts ns h.1))
      ])

  node_rows-Lines :
      (k : ℕ) (id : PeerId) (st : NodeCrawlStatus) (err : Option Error)
      (result : Option NodeInformation)
      → Exclusive err result
      → All (Present nodes) (neighbors result)
      → Lines files
          (if is_nil err && no_error result
            then map (edge nodes id (end_of result)) (neighbors result)
            else [])
          (node_rows files nodes k id err result)
  unfolding node_rows
  node_rows-Lines k id st (some e) result x h = refl
  node_rows-Lines k id st none none x h = cc
  node_rows-Lines k id st none (some r) x h = elim (Option-cases r.crawl_data_error) [
    | inr (e, failed) ↦ rw (failed, node_rows) refl
    | inl fine ↦
        rw (fine, node_rows) (source_rows-Lines k id r.crawl_data_end_ts r.crawl_neighbors h)
  ]

  -- The rest of the loop, after the lines of one node.
  more_rows-Lines :
      (k : ℕ) (xs ys : List Row) (rest : List (PeerId × NodeCrawlStatus))
      (first : Exec (Result (List Row)))
      → Lines files xs first
      → ((j : ℕ) → Lines files ys (graph_rows files nodes j rest))
      → Lines files (xs ++ ys) (
          first >>= λ r. elim r [
            | error e ↦ ok (error e)
            | value rows ↦
                graph_rows files nodes (k + length rows) rest >>= λ more. ok (prepend rows more)
          ])
  more_rows-Lines k xs ys rest (ok (value rows)) h g =
      rw (← h) (
        Lines-prepend rows ys (graph_rows files nodes (k + length rows) rest) (g (k + length rows)))
  more_rows-Lines k xs ys rest (ok (error e)) h g = h
  more_rows-Lines k xs ys rest (fault f) h g = h

  graph_rows-Lines :
      (k : ℕ) (m : List (PeerId × NodeCrawlStatus))
      → IsClosed nodes m
      → Lines files (edges nodes m) (graph_rows files nodes k m)
  unfolding graph_rows
  graph_rows-Lines k [] h = refl
  graph_rows-Lines k ((id, st) ∷ rest) h =
      more_rows-Lines k (edges_of nodes id st) (edges nodes rest) rest
        (node_rows files nodes k id st.err st.result)
        (node_rows-Lines k id st st.err st.result h.0.0 h.0.1) (λ j. graph_rows-Lines j rest h.1)

  -- On a database in which every entry is sound and every neighbor has an entry, the loop does not
  -- dereference `nil`. Unless a call on the file fails, the lines are exactly the edges: for each node
  -- crawled with success one line for each neighbor, in order, marked by whether that neighbor was
  -- crawled with success.
  pub write_peergraph-edges :
      (report : CrawlOutput)
      → report.nodes ≡ nodes
      → IsClosed nodes nodes
      → files.create ≡ none
      → ((k : ℕ) → files.write k ≡ none)
      → files.flush ≡ none
      → files.close ≡ none
      → write_peergraph report files ≡ ok (value (edges nodes nodes))
  unfolding write_peergraph
  write_peergraph-edges report e closed created written flushed closed_file =
      rw (created, written 0, e)
        (no_failure (graph_rows files nodes 1 nodes) (graph_rows-Lines 1 nodes closed))
    where
      no_failure :
          (m : Exec (Result (List Row)))
          → Lines files (edges nodes nodes) m
          → (m >>= λ rows.
              ok (unless files.flush "unable to flush CSV writer: " (unless files.close "" rows)))
            ≡ ok (value (edges nodes nodes))
      no_failure (ok (value r)) h = rw (flushed, closed_file, h)
      no_failure (ok (error x)) (k, e', failed) = absurd (ground (arith, written k))
      no_failure (fault f) h = absurd h

-- A neighbor that has no entry makes the loop dereference `nil`: the missing key gives the zero
-- status, whose error is `nil`, and so is its result.
pub target_missing :
    (files : FileErrors) (nodes : List (PeerId × NodeCrawlStatus)) (n : PeerId)
    → lookup text_dec n nodes ≡ none
    → target_crawlable files nodes n ≡ fault nil_dereference
unfolding target_crawlable or_zero succeeded crawl_ok
target_missing files nodes n e = rw e
