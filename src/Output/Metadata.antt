-- ===== src/Output/Metadata.antt =====
-- `WriteMetadata` of crawling/io.go: its records against the database.
use ipfs_crawler.Prelude.{
  true, false, ◌≡◌, refl, String, map, length, ◌==◌, if◌then◌else◌, List, [], ◌∷◌, Option, none,
  some, text_dec, arith,
}
use ipfs_crawler.Panic.{ok}
use ipfs_crawler.Result.{value}
use ipfs_crawler.Types.{
  PluginResult, PeerId, Multiaddr, Time, Error, NodeInformation, NodeCrawlStatus, Exclusive,
}
use ipfs_crawler.GoMap.{lookup}
use ipfs_crawler.Queue.{or_nil}
use ipfs_crawler.Manager.Summary.{CrawlOutput, AllExclusive}
use ipfs_crawler.Output.{
  CrawledNodeJson, CrawledNodeDataJson, PluginResultJson, to_plugin_json, FileErrors, to_node_data,
  node_result, crawled_node, to_crawled_node, to_crawled_nodes, write_metadata,
}

-- A plugin's entry: its name, its times, and its error and value.
abbrev pub ArePlugins : List (String × PluginResult) → List (String × PluginResultJson) → Type 0
ArePlugins [] [] = Unit
ArePlugins ((name, r) ∷ rs) ((name', j) ∷ js) =
    (name' ≡ name)
    × (j.begin_timestamp ≡ r.begin_timestamp)
    × (j.end_timestamp ≡ r.end_timestamp)
    × (j.err ≡ r.err)
    × (j.result ≡ r.result)
    × ArePlugins rs js
ArePlugins _ _ = ⊥

-- Without plugins there is no object for their results.
abbrev pub IsPluginData :
    List (String × PluginResult) → Option (List (String × PluginResultJson)) → Type 0
IsPluginData [] o = o ≡ none
IsPluginData (r ∷ rs) none = ⊥
IsPluginData (r ∷ rs) (some js) = ArePlugins (r ∷ rs) js

-- A record's data for what is known of a node: the agent, the protocols, the times and the error of
-- the crawl, and the results of the plugins.
pub record IsNodeData (r : NodeInformation) (d : CrawledNodeDataJson) : Type 0 where
  pub agent : d.agent_version ≡ r.info.agent_version
  pub protocols : d.supported_protocols ≡ r.info.supported_protocols
  pub begun : d.crawl_begin_ts ≡ r.crawl_data_begin_ts
  pub ended : d.crawl_end_ts ≡ r.crawl_data_end_ts
  pub crawl_err : d.crawl_error ≡ r.crawl_data_error
  pub plugins : IsPluginData r.plugin_results d.plugin_data

abbrev pub IsResult : Option NodeInformation → Option CrawledNodeDataJson → Type 0
IsResult none o = o ≡ none
IsResult (some r) none = ⊥
IsResult (some r) (some d) = IsNodeData r d

plugins-ArePlugins : (rs : List (String × PluginResult)) → ArePlugins rs (map to_plugin_json rs)
unfolding to_plugin_json
plugins-ArePlugins [] = tt
plugins-ArePlugins ((name, r) ∷ rs) = (refl, refl, refl, refl, refl, plugins-ArePlugins rs)

to_node_data-IsPluginData :
    (rs : List (String × PluginResult))
    → IsPluginData rs (if length rs == 0 then none else some (map to_plugin_json rs))
to_node_data-IsPluginData [] = refl
to_node_data-IsPluginData (r ∷ rs) =
    let some_left : (length (r ∷ rs) == 0) ≡ false = ground arith in
    rw some_left (plugins-ArePlugins (r ∷ rs))

pub to_node_data-IsNodeData : (r : NodeInformation) → IsNodeData r (to_node_data r)
unfolding to_node_data
to_node_data-IsNodeData r = record {
  agent = refl;
  protocols = refl;
  begun = refl;
  ended = refl;
  crawl_err = refl;
  plugins = to_node_data-IsPluginData r.plugin_results;
}

-- A record for the peer `id` with the status `st`: its stored addresses, and the status's error or its
-- data, of which there is exactly one.
pub record Describes (addr_book : List (PeerId × List Multiaddr)) (id : PeerId)
    (st : NodeCrawlStatus) (n : CrawledNodeJson) : Type 0 where
  pub same_id : n.id ≡ id
  pub addresses : n.multiaddrs ≡ or_nil (lookup text_dec id addr_book)
  pub connection : n.connection_error ≡ st.err
  pub either : Exclusive n.connection_error n.result
  pub node_data : IsResult st.result n.result

-- Entry by entry.
abbrev pub DescribesAll :
    List (PeerId × List Multiaddr) → List (PeerId × NodeCrawlStatus) → List CrawledNodeJson → Type 0
DescribesAll addr_book [] [] = Unit
DescribesAll addr_book ((id, st) ∷ m) (n ∷ ns) =
    Describes addr_book id st n × DescribesAll addr_book m ns
DescribesAll addr_book _ _ = ⊥

module _ (addr_book : List (PeerId × List Multiaddr)) where
  to_crawled_node-Describes :
      (id : PeerId) (st : NodeCrawlStatus) (err : Option Error) (result : Option NodeInformation)
      → st.err ≡ err
      → st.result ≡ result
      → Exclusive err result
      → (n : CrawledNodeJson) × (crawled_node id (or_nil (lookup text_dec id addr_book)) err result
          ≡ ok n)
        × Describes addr_book id st n
  unfolding crawled_node node_result
  to_crawled_node-Describes id st (some e) (some r) same there h =
      absurd (let x : true ≡ false = h in cc)
  to_crawled_node-Describes id st (some e) none same there h = (
    record {
      id = id;
      multiaddrs = or_nil (lookup text_dec id addr_book);
      connection_error = some e;
      result = none;
    },
    refl,
    record {
      same_id = refl;
      addresses = refl;
      connection = rw same;
      either = refl;
      node_data = rw there refl;
    },
  )
  to_crawled_node-Describes id st none none same there h = cc
  to_crawled_node-Describes id st none (some r) same there h = (
    record {
      id = id;
      multiaddrs = or_nil (lookup text_dec id addr_book);
      connection_error = none;
      result = some (to_node_data r);
    },
    refl,
    record {
      same_id = refl;
      addresses = refl;
      connection = rw same;
      either = refl;
      node_data = rw there (to_node_data-IsNodeData r);
    },
  )

  to_crawled_nodes-DescribesAll :
      (m : List (PeerId × NodeCrawlStatus))
      → AllExclusive m
      → (ns : List CrawledNodeJson) × (to_crawled_nodes addr_book m ≡ ok ns)
        × DescribesAll addr_book m ns
  unfolding to_crawled_nodes to_crawled_node
  to_crawled_nodes-DescribesAll [] h = ([], refl, tt)
  to_crawled_nodes-DescribesAll ((id, st) ∷ m) h =
      let (n, made, good) = to_crawled_node-Describes id st st.err st.result refl refl h.0 in
      let (ns, rest, all) = to_crawled_nodes-DescribesAll m h.1 in
      (n ∷ ns, rw (made, rest), (good, all))

-- On a sound database, and if no call on the file fails, the file holds the times of the crawl and
-- one record for each entry of the database, in order: the peer, its stored addresses, and the
-- entry's connection error or its data, of which there is exactly one.
pub write_metadata-DescribesAll :
    (report : CrawlOutput) (start end : Time) (files : FileErrors)
    → AllExclusive report.nodes
    → files.create ≡ none
    → files.write 0 ≡ none
    → files.close ≡ none
    → (ns : List CrawledNodeJson) × (write_metadata report start end files
        ≡ ok (value (record { start_date = start; end_date = end; nodes = ns })))
      × DescribesAll report.addr_info report.nodes ns
unfolding write_metadata
write_metadata-DescribesAll report start end files sound created written closed =
    let (ns, made, all) = to_crawled_nodes-DescribesAll report.addr_info report.nodes sound in
    (ns, rw (made, created, written, closed), all)
