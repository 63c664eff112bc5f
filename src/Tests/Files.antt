-- ===== src/Tests/Files.antt =====
-- The theorems on the output files, for the end of the small crawl.
use ipfs_crawler.Prelude.{◌≤◌, ◌≡◌, refl, List, [], ◌∷◌, none, String, length, text_dec}
use ipfs_crawler.Panic.{ok}
use ipfs_crawler.Result.{value}
use ipfs_crawler.Types.{AddrInfo}
use ipfs_crawler.GoMap.{lookup}
use ipfs_crawler.Queue.{len, or_nil}
use ipfs_crawler.Manager.{has_work}
use ipfs_crawler.Manager.Summary.{
  CrawlOutput, Counts, AllExclusive, create_report, connectables, crawlables, create_report-counts,
}
use ipfs_crawler.Output.{CrawledNodeJson, FileErrors, write_metadata}
use ipfs_crawler.Output.Graph.{write_peergraph}
use ipfs_crawler.Output.Graph.Edges.{IsClosed, edges, write_peergraph-edges}
use ipfs_crawler.Output.Cache.{Codec, save_node_cache, restore_node_cache, good_nodes, restore-save}
use ipfs_crawler.Output.Metadata.{DescribesAll, write_metadata-DescribesAll}
use ipfs_crawler.Output.Total.{peergraph_of_crawl, end-IsClosed}
use ipfs_crawler.Tests.Data.{manet, first, first-Inv}
use ipfs_crawler.Tests.Run.{last, last-Run}

abbrev pub no_errors : FileErrors
no_errors = record { create = none; write = λ k. none; flush = none; close = none }

abbrev last_report : CrawlOutput
last_report = record { nodes = last.cm.crawled; addr_info = last.cm.to_crawl.addr_info }

-- A codec that decodes what it encoded, for the one list of this crawl.
abbrev cached : List AddrInfo
cached =
    record { id = "/a"; addrs = "/a" ∷ "/a2" ∷ [] } ∷ record { id = "/b"; addrs = "/b" ∷ [] } ∷ []

last-AllExclusive : AllExclusive last.cm.crawled
last-AllExclusive = (refl, (refl, tt))

peergraph_of_crawl_example :
    write_peergraph last_report no_errors ≡ ok (value (edges last.cm.crawled last.cm.crawled))
unfolding has_work len
peergraph_of_crawl_example =
    peergraph_of_crawl manet 1 first last first-Inv last-Run last_report no_errors refl refl refl
      (λ k. refl) refl refl

last-IsClosed : IsClosed last.cm.crawled last.cm.crawled
unfolding has_work len
last-IsClosed = end-IsClosed manet 1 first last first-Inv last-Run refl

write_peergraph-edges_example :
    write_peergraph last_report no_errors ≡ ok (value (edges last.cm.crawled last.cm.crawled))
write_peergraph-edges_example =
    write_peergraph-edges no_errors last.cm.crawled last_report refl last-IsClosed refl (λ k. refl)
      refl refl

write_metadata-DescribesAll_example :
    (ns : List CrawledNodeJson) × (write_metadata last_report 0 9 no_errors
      ≡ ok (value (record { start_date = 0; end_date = 9; nodes = ns })))
    × DescribesAll last_report.addr_info last_report.nodes ns
write_metadata-DescribesAll_example =
    write_metadata-DescribesAll last_report 0 9 no_errors last-AllExclusive refl refl refl

create_report-counts_example :
    (c : Counts) × (create_report last.cm ≡ ok (c, last_report))
    × (c.num_nodes ≡ length last.cm.crawled)
    × (c.num_connectable ≡ connectables last.cm.crawled)
    × (c.num_crawlable ≡ crawlables last.cm.crawled)
    × (c.num_crawlable ≤ c.num_connectable)
    × (c.num_connectable ≤ c.num_nodes)
create_report-counts_example = create_report-counts last.cm last-AllExclusive

abbrev codec : Codec
codec = record { encode = λ nodes. "two peers"; decode = λ text. value cached }

restore-save_example :
    (text : String) × (save_node_cache codec last_report no_errors ≡ ok (value text))
    × (restore_node_cache codec (value text)
        ≡ value (good_nodes last_report.addr_info last_report.nodes))
unfolding lookup text_dec or_nil
restore-save_example =
    restore-save codec last_report no_errors refl last-AllExclusive refl refl refl
