-- ===== src/Main/Concluded.antt =====
-- What cmd/ipfs-crawler/main.go leaves after a crawl.
use mathlib.Core.Option.{some-injective}
use ipfs_crawler.Prelude.{String, ℕ, ◌≡◌, refl, sym, ap, ◌∙◌, List, Option, none, some}
use ipfs_crawler.Panic.{ok}
use ipfs_crawler.Result.{value}
use ipfs_crawler.Types.{AddrInfo, Time}
use ipfs_crawler.Manager.{CrawlManager}
use ipfs_crawler.Manager.Summary.{CrawlOutput, AllExclusive, create_report-counts}
use ipfs_crawler.Output.{CrawlOutputJson, FileErrors}
use ipfs_crawler.Output.Graph.{Row}
use ipfs_crawler.Output.Graph.Edges.{IsClosed, edges, write_peergraph-edges}
use ipfs_crawler.Output.Cache.{Codec, restore_node_cache, good_nodes, restore-save}
use ipfs_crawler.Output.Metadata.{DescribesAll, write_metadata-DescribesAll}
use ipfs_crawler.Worker.Stop.{Stoppable, stop_all, AllStopped, stop_all-AllStopped}
use ipfs_crawler.Main.{Config, Files, Written, with_saved, with_peergraph, with_metadata, conclude}

-- No call on the file fails.
abbrev pub IsFine : FileErrors → Type 0
IsFine f = (f.create ≡ none) × ((k : ℕ) → f.write k ≡ none) × (f.flush ≡ none) × (f.close ≡ none)

-- The peers that were crawled with success, with their stored addresses.
abbrev pub successes : CrawlManager → List AddrInfo
successes cm = good_nodes cm.to_crawl.addr_info cm.crawled

module _ (codec : Codec) (cm : CrawlManager) where
  -- Where a cache is configured, the next run restores these peers from it.
  abbrev pub IsCached : Option String → Option String → Type 0
  IsCached none cache = cache ≡ none
  IsCached (some path) cache =
      (text : String) × (cache ≡ some text)
      × (restore_node_cache codec (value text) ≡ value (successes cm))

  pub IsCached-restored :
      (path cache : Option String) (text : String)
      → IsCached path cache
      → cache ≡ some text
      → restore_node_cache codec (value text) ≡ value (successes cm)
  IsCached-restored none cache text h e = absurd (let f : none ≡ some text = sym h ∙ e in cc)
  IsCached-restored (some path) cache text (saved, left, restored) e =
      ap (λ x. restore_node_cache codec (value x)) (some-injective _ _ (sym e ∙ left)) ∙ restored

  -- All workers are stopped, and the files hold the database.
  pub record IsWritten (workers : List Stoppable) (path : Option String) (before after : Time)
      (w : Written) : Type 0 where
    pub stopped : AllStopped workers w.workers
    pub start_date : w.metadata.start_date ≡ before
    pub end_date : w.metadata.end_date ≡ after
    pub nodes : DescribesAll cm.to_crawl.addr_info cm.crawled w.metadata.nodes
    pub peergraph : w.peergraph ≡ edges cm.crawled cm.crawled
    pub cache : IsCached path w.cache

  module _ (sound : AllExclusive cm.crawled)
      (inverse : codec.decode (codec.encode (successes cm)) ≡ value (successes cm)) (files : Files)
      (metadata_fine : IsFine files.metadata) (peergraph_fine : IsFine files.peergraph)
      (cache_fine : IsFine files.cache) (workers : List Stoppable) (before after : Time) where
    abbrev report : CrawlOutput
    report = record { nodes = cm.crawled; addr_info = cm.to_crawl.addr_info }

    with_peergraph-written :
        (path : Option String) (metadata : CrawlOutputJson) (rows : List Row)
        → (cache : Option String) × (with_peergraph codec report
              (stop_all workers)
              files.cache
              path
              metadata
              (value rows)
            ≡ ok (
                value (record {
                  workers = stop_all workers;
                  metadata = metadata;
                  peergraph = rows;
                  cache = cache;
                })))
          × IsCached path cache
    unfolding with_peergraph with_saved
    with_peergraph-written none metadata rows = (none, refl, refl)
    with_peergraph-written (some path) metadata rows =
        let (text, saved, restored) =
          restore-save codec report files.cache inverse sound cache_fine.0 (cache_fine.1 0)
            cache_fine.3 in
        (some text, rw saved refl, (text, refl, restored))

    pub conclude-IsWritten :
        (config : Config)
        → IsClosed cm.crawled cm.crawled
        → (w : Written) × (conclude codec config cm workers before after files ≡ ok (value w))
          × IsWritten workers config.cache_file_path before after w
    unfolding conclude with_metadata
    conclude-IsWritten config closed =
        let (counts, made, _, _, _, _, _) = create_report-counts cm sound in
        let (ns, meta, all) =
          write_metadata-DescribesAll report before after files.metadata sound metadata_fine.0
            (metadata_fine.1 0) metadata_fine.3 in
        let graph =
          write_peergraph-edges files.peergraph cm.crawled report refl closed peergraph_fine.0
            peergraph_fine.1 peergraph_fine.2 peergraph_fine.3 in
        let (cache, done, cached) =
          with_peergraph-written config.cache_file_path
            (record { start_date = before; end_date = after; nodes = ns })
            (edges cm.crawled cm.crawled) in
        (
          record {
            workers = stop_all workers;
            metadata = record { start_date = before; end_date = after; nodes = ns };
            peergraph = edges cm.crawled cm.crawled;
            cache = cache;
          },
          rw (made, meta, graph) done,
          record {
            stopped = stop_all-AllStopped workers;
            start_date = refl;
            end_date = refl;
            nodes = all;
            peergraph = refl;
            cache = cached;
          },
        )
