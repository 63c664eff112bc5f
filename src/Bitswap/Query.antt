-- ===== src/Bitswap/Query.antt =====
-- The plugin's calls of plugins/bsprobe/plugin.go: `NewImpl`, `HandlePeer` with `queryContent`, the
-- map of receivers, `handleStream` and `Shutdown`. What waits for a lock or a channel stands in
-- Bitswap/Concurrent.
use Prim.Native.String.{◌++◌ as ◌<>◌}
use ipfs_crawler.Prelude.{
  String, Bool, true, false, List, [], ◌∷◌, ◌++◌, Option, none, some, text_dec, if◌then◌else◌, ite,
}
use ipfs_crawler.Panic.{Exec, ok, fault, parallel_requests, invalid_protocol, ◌>>=◌}
use ipfs_crawler.Result.{Result, value, error}
use ipfs_crawler.Types.{PeerId, ProtocolId, Error}
use ipfs_crawler.GoMap.{contains, add, remove}
use ipfs_crawler.Bitswap.{
  Config, one_two, one_one, one_zero, no_version, protocol_strings, Entry, BitswapProbe, new_probe,
  Message, Arrival, closed, failed, got, ProbeResult, collect_responses,
}

-- `NewImpl`. `decode` is `yaml.Unmarshal`.
unfoldable pub new_impl : (String → Result Config) → String → Result BitswapProbe
unfolding new_probe
new_impl decode bytes = elim (decode bytes) [
  | error e ↦ error ("unable to decode config: " <> e)
  | value cfg ↦ value (new_probe cfg)
]

-- The two serialisations of a message, `ToNetV0` and `ToNetV1`.
pub data Wire : Type 0 where
  to_net_v0 to_net_v1 : Wire

-- A stream: its protocol, what a write on it returns, the messages that were written, and whether it
-- is closed.
pub record Stream : Type 0 where
  pub protocol : ProtocolId
  pub write : Wire → List Entry → Option Error
  pub sent : List (Wire × List Entry)
  pub is_closed : Bool

-- The call of `ToNetV0` or `ToNetV1`, and what `queryContent` makes of its error.
unfoldable pub send : Stream → Wire → List Entry → Stream × Option Error
send s wire m = (
  record s { sent = s.sent ++ (wire, m) ∷ [] },
  elim (s.write wire m) [ none ↦ none | some e ↦ some ("unable to send message: " <> e) ],
)

unfoldable pub query_content : BitswapProbe → Stream → Exec (Stream × Option Error)
unfolding send
query_content w s = ite (text_dec s.protocol one_two) (ok (send s to_net_v1 w.want_have_message)) (
    ite (text_dec s.protocol one_one) (ok (send s to_net_v1 w.want_block_message)) (
      ite (text_dec s.protocol one_zero) (ok (send s to_net_v0 w.want_block_message)) (
        ite (text_dec s.protocol no_version) (ok (send s to_net_v0 w.want_block_message))
          (fault invalid_protocol))))

-- `receivers`, as the set of its keys.
unfoldable pub register_peer : PeerId → List PeerId → Exec (List PeerId)
register_peer remote receivers =
    if contains text_dec remote receivers
    then fault parallel_requests
    else ok (add text_dec remote receivers)

unfoldable pub unregister_peer : PeerId → List PeerId → List PeerId
unregister_peer remote receivers =
    if contains text_dec remote receivers then remove text_dec remote receivers else receivers

-- What a call of `HandlePeer` leaves: the receivers, the stream, if one was opened, and the result.
pub record Handled : Type 0 where
  pub receivers : List PeerId
  pub stream : Option Stream
  pub outcome : Result ProbeResult

-- Whether the calls of `receiversM.Lock` return, in `registerPeer` and in `unregisterPeer`. A handler
-- of a stream may hold the mutex for ever.
pub record Locks : Type 0 where
  pub registering : Bool
  pub unregistering : Bool

-- `HandlePeer` from the query on, with its deferred calls. `arrivals` is what the channel delivers in
-- the response period.
unfoldable pub queried :
    BitswapProbe → PeerId → List PeerId → List Arrival → Stream × Option Error → Handled
unfolding unregister_peer
queried w remote receivers arrivals (s, e) = record {
  receivers = unregister_peer remote receivers;
  stream = some (record s { is_closed = true });
  outcome = elim e [
    | some e ↦ error ("unable to query for content: " <> e)
    | none ↦ value (collect_responses w.cfg.cids arrivals)
  ];
}

-- The part of `HandlePeer` that has a stream; `none` if it waits for the mutex for ever.
unfoldable pub with_stream :
    BitswapProbe → Locks → List Arrival → PeerId → List PeerId → Stream → Exec (Option Handled)
unfolding queried register_peer query_content
with_stream w locks arrivals remote receivers s =
    if locks.registering
    then (do
      registered ← register_peer remote receivers
      q ← query_content w s
      ok (if locks.unregistering then some (queried w remote registered arrivals q) else none))
    else ok none

-- `HandlePeer`. `new_stream` is `NewStream` of the host.
unfoldable pub probe_peer :
    BitswapProbe
    → (PeerId → List ProtocolId → Result Stream)
    → Locks
    → List Arrival
    → PeerId
    → List PeerId
    → Exec (Option Handled)
unfolding with_stream
probe_peer w new_stream locks arrivals remote receivers =
    elim (new_stream remote protocol_strings) [
      | error e ↦ ok (
          some (record {
            receivers = receivers;
            stream = none;
            outcome = error ("unable to open stream: " <> e);
          }))
      | value s ↦ with_stream w locks arrivals remote receivers s
    ]

-- `io.EOF`
abbrev pub eof : Error
eof = "EOF"

-- What is sent on a channel: the peer that it is registered for, and what it delivers.
abbrev pub Delivery : Type 0
Delivery = PeerId × Arrival

-- The receivers that are left, and the sends on the channel of the peer with the close of it.
unfoldable pub receive_error : PeerId → Error → List PeerId → List PeerId × List Delivery
receive_error remote e receivers =
    if contains text_dec remote receivers
    then (
      remove text_dec remote receivers,
      ite (text_dec e eof) ((remote, closed) ∷ []) ((remote, failed e) ∷ (remote, closed) ∷ []),
    )
    else (receivers, [])

unfoldable pub receive_msg : PeerId → Message → List PeerId → List Delivery
receive_msg remote m receivers =
    if contains text_dec remote receivers then (remote, got m) ∷ [] else []

-- What `FromMsgReader` returns.
pub data Read : Type 0 where
  read_message : Message → Read
  read_error : Error → Read

-- What the handler of a stream leaves: the receivers, what it sent and to whom, and whether
-- it reset and closed the stream. A stream without a next read is waited on.
pub record StreamHandled : Type 0 where
  pub receivers : List PeerId
  pub delivered : List Delivery
  pub is_reset : Bool
  pub is_closed : Bool

-- The loop of `handleStream`.
unfoldable pub read_loop : PeerId → List PeerId → List Read → StreamHandled
unfolding receive_error receive_msg
read_loop remote receivers [] = record {
  receivers = receivers;
  delivered = [];
  is_reset = false;
  is_closed = false;
}
read_loop remote receivers (read_error e ∷ rest) = record {
  receivers = (receive_error remote e receivers).0;
  delivered = (receive_error remote e receivers).1;
  is_reset = ite (text_dec e eof) false true;
  is_closed = true;
}
read_loop remote receivers (read_message m ∷ rest) =
    let after = read_loop remote receivers rest in
    record after { delivered = receive_msg remote m receivers ++ after.delivered }

-- `handleStream`. It looks at `shutdown` once, at its start: `shut` is whether it was closed then.
unfoldable pub handle_stream : Bool → PeerId → List PeerId → List Read → StreamHandled
unfolding read_loop
handle_stream shut remote receivers reads =
    let served = read_loop remote receivers reads in
    if shut
    then record { receivers = receivers; delivered = []; is_reset = true; is_closed = true }
    else served

-- `Shutdown`: the flag that the channel `shutdown` is closed, and the protocols that the host serves.
unfoldable pub remove_handlers : List ProtocolId → List ProtocolId → List ProtocolId
remove_handlers [] served = served
remove_handlers (p ∷ ps) served = remove_handlers ps (remove text_dec p served)

unfoldable pub shutdown_probe : Bool → List ProtocolId → Bool × List ProtocolId
unfolding remove_handlers
shutdown_probe shut served = (true, remove_handlers protocol_strings served)
