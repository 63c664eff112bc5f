-- ===== src/Bitswap/Queried.antt =====
-- `HandlePeer` of plugins/bsprobe/plugin.go: what it asks for, what it returns and what it leaves.
use Prim.Native.String.{◌++◌ as ◌<>◌}
use ipfs_crawler.Prelude.{
  ◌≡◌, refl, ◌∙◌, true, false, List, [], ◌∷◌, ◌++◌, map, Option, none, some, text_dec, arith, ite,
  if_pos, if_neg, Bool-cases, inl, inr,
}
use ipfs_crawler.Panic.{ok, Returns}
use ipfs_crawler.Result.{Result, value, error}
use ipfs_crawler.Types.{PeerId, ProtocolId, Error}
use ipfs_crawler.GoMap.{contains, add, remove}
use ipfs_crawler.GoMap.Laws.{contains-add}
use ipfs_crawler.Bitswap.{
  Cid, Config, one_two, one_one, one_zero, no_version, protocol_strings, Entry, want_have,
  want_block, new_probe, Arrival, ProbeResult,
}
use ipfs_crawler.Bitswap.Heard.{IsAnswer, collect_responses-IsAnswer}
use ipfs_crawler.Bitswap.Query.{
  Wire, to_net_v0, to_net_v1, Stream, send, query_content, register_peer, unregister_peer, Handled,
  queried, probe_peer, Locks, with_stream,
}

-- The request for the CIDs that a protocol allows: the newest asks who has a block, and the others for
-- the block; the two newest have the new serialisation.
unfoldable pub request : List Cid → ProtocolId → Wire × List Entry
request cids p = (
  ite (text_dec p one_two) to_net_v1 (ite (text_dec p one_one) to_net_v1 to_net_v0),
  map
      (λ c. record {
        cid = c;
        priority = 2147483647;
        want_type = ite (text_dec p one_two) want_have want_block;
        send_dont_have = ite (text_dec p one_two) true false;
      })
      cids,
)

query_content-request :
    (cfg : Config) (s : Stream)
    → contains text_dec s.protocol protocol_strings ≡ true
    → query_content (new_probe cfg) s
      ≡ ok (send s (request cfg.cids s.protocol).0 (request cfg.cids s.protocol).1)
unfolding query_content new_probe request contains
query_content-request cfg s h = elim (text_dec s.protocol one_two) [
  | yes e2 ↦ rw (query_content, request, if_pos _ e2, if_pos _ e2, if_pos _ e2, if_pos _ e2) refl
  | no n2 ↦ elim (text_dec s.protocol one_one) [
    | yes e1 ↦
        rw
          (
            query_content,
            request,
            if_neg _ n2,
            if_neg _ n2,
            if_neg _ n2,
            if_neg _ n2,
            if_pos _ e1,
            if_pos _ e1,
          )
          refl
    | no n1 ↦ elim (text_dec s.protocol one_zero) [
      | yes e0 ↦
          rw
            (
              query_content,
              request,
              if_neg _ n2,
              if_neg _ n2,
              if_neg _ n2,
              if_neg _ n2,
              if_neg _ n1,
              if_neg _ n1,
              if_pos _ e0,
            )
            refl
      | no n0 ↦ elim (text_dec s.protocol no_version) [
        | yes e ↦
            rw
              (
                query_content,
                request,
                if_neg _ n2,
                if_neg _ n2,
                if_neg _ n2,
                if_neg _ n2,
                if_neg _ n1,
                if_neg _ n1,
                if_neg _ n0,
                if_pos _ e,
              )
              refl
        | no n ↦ ground arith
      ]
    ]
  ]
]

contains-add_self : (k : Cid) (s : List Cid) → contains text_dec k (add text_dec k s) ≡ true
contains-add_self k s = contains-add text_dec k k s ∙ if_pos (text_dec k k) refl _ _

remove-add :
    (k : Cid) (s : List Cid)
    → contains text_dec k s ≡ false
    → remove text_dec k (add text_dec k s) ≡ s
unfolding contains add remove
remove-add k [] h = if_pos (text_dec k k) refl _ _
remove-add k (x ∷ s) h = ground (arith, remove-add k s)

pub unregister_peer-add :
    (remote : PeerId) (receivers : List PeerId)
    → contains text_dec remote receivers ≡ false
    → unregister_peer remote (add text_dec remote receivers) ≡ receivers
unfolding unregister_peer
unregister_peer-add remote receivers h =
    ground (arith, contains-add_self remote receivers, remove-add remote receivers h)

-- The outcome of `HandlePeer` by the error of the write.
abbrev pub IsConcluded : List Cid → List Arrival → Result ProbeResult → Option Error → Type 0
IsConcluded cids arrivals o (some e) =
    o ≡ error ("unable to query for content: " <> ("unable to send message: " <> e))
IsConcluded cids arrivals o none = (r : ProbeResult) × (o ≡ value r) × IsAnswer cids arrivals r

-- What `HandlePeer` leaves, by what `NewStream` returned.
abbrev pub IsProbed : List Cid → List Arrival → Handled → Result Stream → Type 0
IsProbed cids arrivals h (error e) =
    (h.stream ≡ none) × (h.outcome ≡ error ("unable to open stream: " <> e))
IsProbed cids arrivals h (value s) =
    (h.stream ≡ some (record s { sent = s.sent ++ request cids s.protocol ∷ []; is_closed = true }))
    × IsConcluded cids arrivals h.outcome
        (s.write (request cids s.protocol).0 (request cids s.protocol).1)

-- Both calls of `Lock` return.
abbrev pub AreFree : Locks → Type 0
AreFree locks = (locks.registering ≡ true) × (locks.unregistering ≡ true)

-- What a call returns; without a value it waits for ever, with a stream and for the mutex.
abbrev pub IsReturned :
    List Cid → List Arrival → List PeerId → Locks → Result Stream → Option Handled → Type 0
IsReturned cids arrivals receivers locks (error e) none = ⊥
IsReturned cids arrivals receivers locks (value s) none = ¬ AreFree locks
IsReturned cids arrivals receivers locks (error e) (some h) =
    (h.receivers ≡ receivers) × IsProbed cids arrivals h (error e)
IsReturned cids arrivals receivers locks (value s) (some h) =
    AreFree locks × (h.receivers ≡ receivers) × IsProbed cids arrivals h (value s)

-- `NewStream` negotiates one of the protocols that it is asked for.
abbrev pub IsNegotiated : Result Stream → Type 0
IsNegotiated (error e) = Unit
IsNegotiated (value s) = contains text_dec s.protocol protocol_strings ≡ true

module _ (cfg : Config) (arrivals : List Arrival) (remote : PeerId) (receivers : List PeerId)
    (free : contains text_dec remote receivers ≡ false) where
  queried-IsConcluded :
      (s : Stream) (wire : Wire) (m : List Entry) (written : Option Error)
      → s.write wire m ≡ written
      → IsConcluded cfg.cids arrivals
          (queried (new_probe cfg) remote receivers arrivals (send s wire m)).outcome
          written
  unfolding queried send new_probe
  queried-IsConcluded s wire m none q = (_, rw q refl, collect_responses-IsAnswer cfg.cids arrivals)
  queried-IsConcluded s wire m (some e) q = rw q refl

  probed :
      (opened : Result Stream) (locks : Locks)
      → IsNegotiated opened
      → (new_stream : PeerId → List ProtocolId → Result Stream)
      → new_stream remote protocol_strings ≡ opened
      → Returns
          (probe_peer (new_probe cfg) new_stream locks arrivals remote receivers)
          (IsReturned cfg.cids arrivals receivers locks opened)
  unfolding probe_peer with_stream
  probed (error e) locks fit new_stream q = rw (probe_peer, q) (refl, (refl, refl))
  probed (value s) locks fit new_stream q = elim (Bool-cases locks.registering) [
    | inr waits ↦ rw (probe_peer, q, with_stream, waits) (ground (arith, waits))
    | inl registers ↦ elim (Bool-cases locks.unregistering) [
      | inr waits ↦
          rw
            (
              probe_peer,
              q,
              with_stream,
              registers,
              register_peer,
              free,
              query_content-request cfg s fit,
              waits,
            )
            (ground (arith, waits))
      | inl unregisters ↦
          rw
            (
              probe_peer,
              q,
              with_stream,
              registers,
              register_peer,
              free,
              query_content-request cfg s fit,
              unregisters,
            )
            (
              (refl, refl),
              unregister_peer-add remote receivers free,
              (
                refl,
                queried-IsConcluded s (request cfg.cids s.protocol).0
                    (request cfg.cids s.protocol).1 _ refl,
              ),
            )
    ]
  ]

-- `HandlePeer` of a probe made from any configuration does not panic on a peer that no call is under
-- way for, if the stream that `NewStream` returns has one of the protocols that it was asked for. It
-- never returns exactly if it has a stream, and `registerPeer` or `unregisterPeer` waits for the mutex
-- for ever. When it returns, the receivers are as they were; without a stream it is the wrapped error
-- of `NewStream`; with a stream, exactly one message was written on it, which asks for each configured
-- CID in the way that the protocol allows, the stream is closed, and the result is the wrapped error
-- of the write, or an answer to what arrived.
pub probe_peer-IsProbed :
    (cfg : Config) (new_stream : PeerId → List ProtocolId → Result Stream) (locks : Locks)
    (arrivals : List Arrival) (remote : PeerId) (receivers : List PeerId)
    → contains text_dec remote receivers ≡ false
    → IsNegotiated (new_stream remote protocol_strings)
    → Returns
        (probe_peer (new_probe cfg) new_stream locks arrivals remote receivers)
        (IsReturned cfg.cids arrivals receivers locks (new_stream remote protocol_strings))
probe_peer-IsProbed cfg new_stream locks arrivals remote receivers free fit =
    probed cfg arrivals remote receivers free (new_stream remote protocol_strings) locks fit
      new_stream refl
