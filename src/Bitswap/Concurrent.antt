-- ===== src/Bitswap/Concurrent.antt =====
-- The calls of `HandlePeer` and the handlers of streams of plugins/bsprobe/plugin.go side by side, as
-- steps on the map of receivers, the mutex `receiversM` and the channels. The channels have no buffer:
-- a handler that sends waits for `collectResponses` of the peer, and holds the mutex while it waits.
pub mod Sound
pub mod Sends
pub mod Safe
pub mod Stuck
pub mod Live
use ipfs_crawler.Prelude.{
  ◌==◌, ◌≡◌, Bool, true, false, List, [], ◌∷◌, Option, none, some, text_dec, length, if◌then◌else◌,
  ite, not, ◌&&◌,
}
use ipfs_crawler.Panic.{Exec, ok, fault, closed_channel, invalid_protocol, ◌>>=◌}
use ipfs_crawler.Types.{PeerId, Error, ProtocolId}
use ipfs_crawler.GoMap.{contains, add, remove, lookup, insert, delete}
use ipfs_crawler.Bitswap.{
  Cid, Message, Answers, no_answers, hear, ProbeResult, to_result, protocol_strings,
}
use ipfs_crawler.Bitswap.Query.{eof, register_peer, unregister_peer, Read, read_message, read_error}

-- Where a call of `HandlePeer` is, from `registerPeer` on: in `queryContent`, in `collectResponses`, or
-- at its end with the result, where a failed query has none. `unregisterPeer` comes next.
pub data Phase : Type 0 where
  querying : Phase
  collecting : Answers → Phase
  leaving : Option ProbeResult → Phase

-- The calls under way, the closed channels, and the handler that holds the mutex in a send: the peer,
-- and what it sends.
pub record ProbeState : Type 0 where
  pub cids : List Cid
  pub receivers : List PeerId
  pub active : List (PeerId × Phase)
  pub closed : List PeerId
  pub pending : Option (PeerId × Read)
  pub results : List (PeerId × Option ProbeResult)

pub data ProbeEvent : Type 0 where
  -- `registerPeer`
  begin : PeerId → ProbeEvent
  -- the end of `queryContent` without and with an error, on a stream of the protocol
  send_done send_failed : PeerId → ProtocolId → ProbeEvent
  -- a handler of a stream calls `receiveMsg` or `receiveError`
  receive : PeerId → Read → ProbeEvent
  -- the send on the channel takes place
  deliver : ProbeEvent
  -- the other cases of the `select` in `collectResponses`
  see_closed time_out : PeerId → ProbeEvent
  -- `unregisterPeer` and the return
  finish : PeerId → ProbeEvent

unfoldable pub set_phase : ProbeState → PeerId → Phase → ProbeState
set_phase s p phase = record s { active = insert text_dec p phase s.active }

-- The step of a call in `registerPeer`, which waits while the mutex is held.
unfoldable pub begin_call : ProbeState → PeerId → Exec (List PeerId) → Exec (Option ProbeState)
unfolding set_phase
begin_call s p (fault e) = fault e
begin_call s p (ok registered) = ok (
    some (record s {
      receivers = registered;
      active = insert text_dec p querying s.active;
      closed = remove text_dec p s.closed;
    }))

-- `close(r)` for the channel of `p`, or a send on it: a panic if it is closed.
unfoldable pub if_open : ProbeState → PeerId → ProbeState → Exec ProbeState
if_open s p t = if contains text_dec p s.closed then fault closed_channel else ok t

-- A call of a handler that has the mutex.
unfoldable pub receive_call : ProbeState → PeerId → Read → Bool → Exec ProbeState
unfolding if_open
receive_call s p r false = ok s
receive_call s p (read_message m) true =
    if_open s p (record s { pending = some (p, read_message m) })
receive_call s p (read_error e) true = if_open s p (
    ite (text_dec e eof)
      (record s { receivers = remove text_dec p s.receivers; closed = add text_dec p s.closed })
      (record s { pending = some (p, read_error e) }))

-- `collectResponses` with a message, which ends if no CID is outstanding.
unfoldable pub after_message : Answers → Phase
after_message st =
    if length st.outstanding == 0 then leaving (some (to_result st)) else collecting st

-- The state after the send of what was read to `collectResponses`: the mutex is free again, and an
-- error closes the channel.
unfoldable pub taken : ProbeState → PeerId → Answers → Read → ProbeState
unfolding after_message hear to_result
taken s p st (read_message m) = record s {
  pending = none;
  active = insert text_dec p (after_message (hear st m)) s.active;
}
taken s p st (read_error e) = record s {
  pending = none;
  active = insert text_dec p (leaving (some (to_result (record st { err = some e })))) s.active;
  receivers = remove text_dec p s.receivers;
  closed = add text_dec p s.closed;
}

-- The send waits until `collectResponses` of the peer takes it.
unfoldable pub delivered : ProbeState → PeerId → Read → Option Phase → Exec (Option ProbeState)
unfolding taken if_open
delivered s p r (some (collecting st)) = if_open s p (taken s p st r) >>= λ t. ok (some t)
delivered s p r (some querying) = ok none
delivered s p r (some (leaving o)) = ok none
delivered s p r none = ok none

unfoldable pub leave : ProbeState → PeerId → Option Phase → Option ProbeState
unfolding set_phase to_result
leave s p (some (collecting st)) = some (set_phase s p (leaving (some (to_result st))))
leave s p (some querying) = none
leave s p (some (leaving o)) = none
leave s p none = none

unfoldable pub end_query : ProbeState → PeerId → Phase → Option Phase → Option ProbeState
unfolding set_phase
end_query s p next (some querying) = some (set_phase s p next)
end_query s p next (some (collecting st)) = none
end_query s p next (some (leaving o)) = none
end_query s p next none = none

abbrev pub is_querying : Option Phase → Bool
is_querying (some querying) = true
is_querying (some (collecting st)) = false
is_querying (some (leaving o)) = false
is_querying none = false

unfoldable pub end_call : ProbeState → PeerId → Option Phase → Option ProbeState
unfolding unregister_peer
end_call s p (some (leaving o)) = some (record s {
  receivers = unregister_peer p s.receivers;
  active = delete text_dec p s.active;
  results = (p, o) ∷ s.results;
})
end_call s p (some querying) = none
end_call s p (some (collecting st)) = none
end_call s p none = none

-- The end of `queryContent` for a stream of the protocol, which panics for an unknown one.
unfoldable pub queried_on :
    ProbeState → PeerId → ProtocolId → Phase → Option Phase → Exec (Option ProbeState)
unfolding end_query
queried_on s p protocol next phase =
    if is_querying phase && not (contains text_dec protocol protocol_strings)
    then fault invalid_protocol
    else ok (end_query s p next phase)

-- One step; `none` if it has to wait.
unfoldable pub probe_step : ProbeEvent → ProbeState → Exec (Option ProbeState)
unfolding begin_call receive_call delivered leave queried_on end_call no_answers register_peer
probe_step (begin p) s = elim s.pending [
  | none ↦ begin_call s p (register_peer p s.receivers)
  | some held ↦ ok none
]
probe_step (send_done p protocol) s =
    queried_on s p protocol (collecting (no_answers s.cids)) (lookup text_dec p s.active)
probe_step (send_failed p protocol) s =
    queried_on s p protocol (leaving none) (lookup text_dec p s.active)
probe_step (receive p r) s = elim s.pending [
  | none ↦ receive_call s p r (contains text_dec p s.receivers) >>= λ t. ok (some t)
  | some held ↦ ok none
]
probe_step deliver s = elim s.pending [
  | none ↦ ok none
  | some (p, r) ↦ delivered s p r (lookup text_dec p s.active)
]
probe_step (see_closed p) s =
    if contains text_dec p s.closed then ok (leave s p (lookup text_dec p s.active)) else ok none
probe_step (time_out p) s = ok (leave s p (lookup text_dec p s.active))
probe_step (finish p) s = elim s.pending [
  | none ↦ ok (end_call s p (lookup text_dec p s.active))
  | some held ↦ ok none
]

-- A call begins only for a peer that no call is under way for: the manager has one crawl of a peer at
-- a time, and a worker calls its plugins one after the other. A stream has one of the protocols that
-- `NewStream` was asked for.
abbrev pub Apart : ProbeEvent → ProbeState → Type 0
Apart (begin p) s = lookup text_dec p s.active ≡ none
Apart (send_done p protocol) s = contains text_dec protocol protocol_strings ≡ true
Apart (send_failed p protocol) s = contains text_dec protocol protocol_strings ≡ true
Apart (receive p r) s = Unit
Apart deliver s = Unit
Apart (see_closed p) s = Unit
Apart (time_out p) s = Unit
Apart (finish p) s = Unit

pub data ProbeRun : ProbeState → ProbeState → Type 0 where
  still : (s : ProbeState) → ProbeRun s s
  next :
      (e : ProbeEvent) (s u t : ProbeState)
      → Apart e s
      → probe_step e s ≡ ok (some u)
      → ProbeRun u t
      → ProbeRun s t

unfoldable pub new_state : List Cid → ProbeState
new_state cids = record {
  cids = cids;
  receivers = [];
  active = [];
  closed = [];
  pending = none;
  results = [];
}
