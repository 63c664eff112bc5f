-- ===== src/Output/Cache.antt =====
-- `SaveNodeCache` and `RestoreNodeCache` of crawling/io.go.
use Prim.Native.String.{◌++◌ as ◌<>◌}
use ipfs_crawler.Prelude.{
  ◌≡◌, refl, Bool, true, not, ◌&&◌, List, [], ◌∷◌, Option, none, some, is_some, is_nil,
  if◌then◌else◌, text_dec, arith, String,
}
use ipfs_crawler.Panic.{Exec, ok, fault, ◌>>=◌, nil_dereference}
use ipfs_crawler.Result.{Result, value, error}
use ipfs_crawler.Types.{
  PeerId, Multiaddr, AddrInfo, Error, NodeInformation, NodeCrawlStatus, Exclusive,
}
use ipfs_crawler.GoMap.{lookup}
use ipfs_crawler.Queue.{or_nil}
use ipfs_crawler.Manager.Pure.{is_ok, no_error}
use ipfs_crawler.Manager.Summary.{CrawlOutput, AllExclusive}
use ipfs_crawler.Output.{FileErrors, unless}

-- The JSON encoder and decoder for a list of `peer.AddrInfo`.
pub record Codec : Type 0 where
  pub encode : List AddrInfo → String
  pub decode : String → Result (List AddrInfo)

-- `node.err != nil || node.result.crawlDataError != nil`
unfoldable pub failed : Option Error → Option NodeInformation → Exec Bool
failed (some e) result = ok true
failed none none = fault nil_dereference
failed none (some r) = ok (is_some r.crawl_data_error)

unfoldable pub nodes_save :
    List (PeerId × List Multiaddr) → List (PeerId × NodeCrawlStatus) → Exec (List AddrInfo)
unfolding failed or_nil
nodes_save addr_info [] = ok []
nodes_save addr_info ((id, node) ∷ rest) = do
  skip ← failed node.err node.result
  more ← nodes_save addr_info rest
  ok (
      if skip
      then more
      else record { id = id; addrs = or_nil (lookup text_dec id addr_info) } ∷ more)

-- The content of the cache file. The second write is the encoding.
unfoldable pub save_node_cache : Codec → CrawlOutput → FileErrors → Exec (Result String)
unfolding nodes_save
save_node_cache codec report files = do
  nodes ← nodes_save report.addr_info report.nodes
  ok (
      unless files.create "unable to create node cache file: " (
        unless (files.write 0) "unable to write node cache: "
          (unless files.close "" (value (codec.encode nodes)))))

-- `RestoreNodeCache` on what `os.ReadFile` returned.
unfoldable pub decoded : Result (List AddrInfo) → Result (List AddrInfo)
decoded (value nodes) = value nodes
decoded (error e) = error ("unable to decode node cache: " <> e)

unfoldable pub restore_node_cache : Codec → Result String → Result (List AddrInfo)
unfolding decoded
restore_node_cache codec (error e) = error ("unable to read node cache: " <> e)
restore_node_cache codec (value text) = decoded (codec.decode text)

-- What should be cached: the peers that were crawled with success, with their stored addresses.
abbrev pub good_nodes :
    List (PeerId × List Multiaddr) → List (PeerId × NodeCrawlStatus) → List AddrInfo
good_nodes addr_info [] = []
good_nodes addr_info ((id, st) ∷ rest) =
    let more = good_nodes addr_info rest in
    if is_ok st
    then record { id = id; addrs = or_nil (lookup text_dec id addr_info) } ∷ more
    else more

failed_lem :
    (err : Option Error) (result : Option NodeInformation)
    → Exclusive err result
    → failed err result ≡ ok (not (is_nil err && no_error result))
unfolding failed
failed_lem err result h = ground arith

nodes_save-good :
    (addr_info : List (PeerId × List Multiaddr)) (m : List (PeerId × NodeCrawlStatus))
    → AllExclusive m
    → nodes_save addr_info m ≡ ok (good_nodes addr_info m)
unfolding nodes_save
nodes_save-good addr_info [] h = refl
nodes_save-good addr_info ((id, st) ∷ m) h =
    rw (failed_lem st.err st.result h.0, nodes_save-good addr_info m h.1) (ground arith)

module _ (codec : Codec) (report : CrawlOutput) (files : FileErrors) where
  -- A cache that was saved without an error is restored as the peers that were crawled with success,
  -- each with the addresses that the crawl had stored for it, if the decoder reads that list back
  -- from its encoding.
  pub restore-save :
      let nodes = good_nodes report.addr_info report.nodes in
      codec.decode (codec.encode nodes) ≡ value nodes
      → AllExclusive report.nodes
      → files.create ≡ none
      → files.write 0 ≡ none
      → files.close ≡ none
      → (text : String) × (save_node_cache codec report files ≡ ok (value text))
        × (restore_node_cache codec (value text) ≡ value (good_nodes report.addr_info report.nodes))
  unfolding save_node_cache restore_node_cache
  restore-save inverse sound created written closed =
      let nodes = good_nodes report.addr_info report.nodes in
      (
        codec.encode nodes,
        rw (nodes_save-good report.addr_info report.nodes sound, created, written, closed),
        rw inverse,
      )
