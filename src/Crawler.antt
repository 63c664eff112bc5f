-- ===== src/Crawler.antt =====
-- The DHT crawler of crawling/crawler.go. The stream, the reader and the clock are libp2p's: what
-- their calls come to is a parameter.
pub mod Laws
pub mod Answers
pub mod Handled
use Prim.Native.String.{◌++◌ as ◌<>◌}
use ipfs_crawler.Prelude.{
  String, ℕ, zero, suc, ◌+◌, Bool, true, false, ◌&&◌, ◌||◌, List, [], ◌∷◌, ◌++◌, Option, none, some,
  length, if◌then◌else◌, ltb, ◌==◌, text_dec, is_some,
}
use ipfs_crawler.Panic.{Exec, ok, fault, nil_dereference, ◌>>=◌}
use ipfs_crawler.Result.{Result, value, error}
use ipfs_crawler.Types.{PeerId, AddrInfo, CrawlData, Error, Time}
use ipfs_crawler.Config.{CrawlerConfig}
use ipfs_crawler.GoMap.{contains, add}
use ipfs_crawler.Preimage.{PreimageHandler, BinId, find_pre_image_for_cpl}

-- A Go pair of a value and an error, in which the error does not rule out a value.
pub record Reply (A : Type 0) : Type 0 where
  pub content : A
  pub err : Option Error

-- `for i := uint(0); i < attempts; i++` around a call, until it returns no error. The pair holds
-- what the variables were set to last.
unfoldable pub retry : {A : Type 0} → ℕ → ℕ → (ℕ → Reply A) → Reply A → Reply A
retry zero i call last = last
retry (suc n) i call last =
    let rest = retry n (suc i) call (call i) in
    elim ((call i).err) [ none ↦ call i | some e ↦ rest ]

-- What the `select` of `sendFindNode` comes to: the write fails, the context ends first, or the
-- reader delivers a message or an error; then `ctx.Err()` is looked at. A channel that was closed
-- delivers no message or no error.
pub data Exchange : Type 0 where
  write_failed : Error → Exchange
  timed_out : Error → Exchange
  message : String → Option Error → Exchange
  read_failed : Option Error → Option Error → Exchange

-- The body of `case msg := <-responseChan`; `late` is `ctx.Err()`. The `err` that is returned then is
-- that of the write, which is `nil`.
unfoldable pub parsed :
    (String → Result (List AddrInfo)) → String → Option Error → Reply (List AddrInfo)
parsed unmarshal msg (some late) = record { content = []; err = none }
parsed unmarshal msg none = elim (unmarshal msg) [
  | error e ↦ record { content = []; err = some e }
  | value peers ↦ record { content = peers; err = none }
]

unfoldable pub send_find_node : (String → Result (List AddrInfo)) → Exchange → Reply (List AddrInfo)
unfolding parsed
send_find_node unmarshal (write_failed e) = record { content = []; err = some e }
send_find_node unmarshal (timed_out e) = record { content = []; err = some e }
send_find_node unmarshal (message msg late) = parsed unmarshal msg late
send_find_node unmarshal (read_failed e late) = record { content = []; err = e }

-- The variables of `fullNeighborCrawl`.
pub record Progress : Type 0 where
  pub neighbors : List AddrInfo
  pub seen_ids : List PeerId
  pub err : Option Error
  pub any_new_peers : Bool

-- The body of `for _, p := range peerResponse`.
unfoldable pub note_peer : Progress → AddrInfo → Progress
note_peer st p = if contains text_dec p.id st.seen_ids then st else record st {
  neighbors = st.neighbors ++ p ∷ [];
  seen_ids = add text_dec p.id st.seen_ids;
  any_new_peers = true;
}

unfoldable pub absorb : Progress → List AddrInfo → Progress
unfolding note_peer
absorb st [] = st
absorb st (p ∷ ps) = absorb (note_peer st p) ps

-- `kad` is `kb.ConvertPeerID`. `answer` gives the exchange for a preimage, by the bucket and the
-- attempt at it.
module _ (ph : PreimageHandler) (kad : PeerId → BinId) (unmarshal : String → Result (List AddrInfo))
    (answer : ℕ → ℕ → ℕ → Exchange) (config : CrawlerConfig) (p : PeerId) where
  -- The body of the loop over the buckets.
  unfoldable pub ask_bucket : ℕ → Progress → Exec Progress
  unfolding retry send_find_node absorb find_pre_image_for_cpl
  ask_bucket i st = do
    target ← find_pre_image_for_cpl ph (kad p) i
    let r =
        retry config.interaction_attempts 0 (λ j. send_find_node unmarshal (answer target i j))
          (record { content = []; err = st.err })
    ok (absorb (record st { err = r.err; any_new_peers = false }) r.content)

  -- The loop from the i-th bucket on; `none` if the fuel runs out first.
  unfoldable pub buckets : ℕ → ℕ → Progress → Exec (Option Progress)
  unfolding ask_bucket
  buckets zero i st = ok none
  buckets (suc fuel) i st =
      if ltb i 4 || (ltb i 24 && st.any_new_peers)
      then (do st' ← ask_bucket i st; buckets fuel (suc i) st')
      else ok (some st)

  -- At most 24 buckets are asked, so 25 rounds are enough.
  unfoldable pub full_neighbor_crawl : Exec (Option Progress)
  unfolding buckets
  full_neighbor_crawl =
      buckets 25 0 (record { neighbors = []; seen_ids = []; err = none; any_new_peers = false })

unfoldable pub crawled_data : Progress → Time → Time → Reply (Option CrawlData)
crawled_data st started finished = record {
  content = some (record {
    neighbors = st.neighbors;
    crawl_started_timestamp = started;
    crawl_finished_timestamp = finished;
  });
  err = none;
}

-- `HandlePeer` after the buckets are crawled: an error counts only if there are no neighbors.
unfoldable pub concluded : Progress → Time → Time → Option Error → Reply (Option CrawlData)
unfolding crawled_data
concluded st started finished none = crawled_data st started finished
concluded st started finished (some e) =
    if length st.neighbors == 0
    then record { content = none; err = some ("failed to extract peers: " <> e) }
    else crawled_data st started finished

unfoldable pub conclude : Option Progress → Time → Time → Option (Reply (Option CrawlData))
unfolding concluded
conclude none started finished = none
conclude (some st) started finished = some (concluded st started finished st.err)

-- `new_stream` is what the i-th call of `NewStream` returns; a stream that was never opened is `nil`,
-- and is dereferenced. `none` if the crawl of the buckets runs out of fuel.
module _ {S : Type 0} (ph : PreimageHandler) (kad : PeerId → BinId)
    (unmarshal : String → Result (List AddrInfo)) (answer : ℕ → ℕ → ℕ → Exchange)
    (config : CrawlerConfig) (p : PeerId) where
  unfoldable pub on_stream :
      Reply (Option S) → Time → Time → Exec (Option (Reply (Option CrawlData)))
  unfolding full_neighbor_crawl conclude
  on_stream stream started finished = elim stream.err [
    | some e ↦ ok (some (record { content = none; err = some ("unable to open stream: " <> e) }))
    | none ↦ elim stream.content [
      | none ↦ fault nil_dereference
      | some s ↦ do
        st ← full_neighbor_crawl ph kad unmarshal answer config p
        ok (conclude st started finished)
    ]
  ]

  unfoldable pub handle_peer :
      (ℕ → Reply (Option S)) → Time → Time → Exec (Option (Reply (Option CrawlData)))
  unfolding on_stream retry
  handle_peer new_stream started finished =
      on_stream
        (retry config.interaction_attempts 0 new_stream (record { content = none; err = none }))
        started finished
