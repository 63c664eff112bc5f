-- ===== src/Bitswap/Served.antt =====
-- `handleStream` and `Shutdown` of plugins/bsprobe/plugin.go: what reaches the channel of a peer.
use ipfs_crawler.Prelude.{
  ◌≡◌, refl, sym, Bool-cases, inl, inr, ap, ◌∙◌, Bool, true, false, not, ◌&&◌, List, [], ◌∷◌, ◌++◌,
  Option, none, some, text_dec, arith, ite, is_some, is_nil, if_pos, if_neg, All, map,
}
use ipfs_crawler.Types.{PeerId, ProtocolId, Error}
use ipfs_crawler.GoMap.{contains, remove}
use ipfs_crawler.GoMap.Laws.{contains-remove}
use ipfs_crawler.Bitswap.{Cid, Message, protocol_strings, Arrival}
use ipfs_crawler.Bitswap.Heard.{spoken, first_error}
use ipfs_crawler.Bitswap.Query.{
  eof, receive_error, receive_msg, Read, read_message, read_error, StreamHandled, read_loop,
  handle_stream, remove_handlers, shutdown_probe, Delivery,
}

-- What the messages say that are read before the first error.
abbrev pub said : (Message → List Cid) → List Read → List Cid
said part [] = []
said part (read_error e ∷ rest) = []
said part (read_message m ∷ rest) = part m ++ said part rest

-- The error that ends the reads.
abbrev pub read_failure : List Read → Option Error
read_failure [] = none
read_failure (read_error e ∷ rest) = some e
read_failure (read_message m ∷ rest) = read_failure rest

-- The end of a stream is no error.
abbrev pub unless_eof : Option Error → Option Error
unless_eof none = none
unless_eof (some e) = ite (text_dec e eof) none (some e)

abbrev pub contents : List Delivery → List Arrival
contents = map (λ d. d.1)

-- What the handler of a stream does while the peer is registered.
pub record IsServed (remote : PeerId) (receivers : List PeerId) (reads : List Read)
    (h : StreamHandled) : Type 0 where
  pub only : All (λ (d : Delivery). d.0 ≡ remote) h.delivered
  pub said_all : (part : Message → List Cid) → spoken part (contents h.delivered) ≡ said part reads
  pub err : first_error (contents h.delivered) ≡ unless_eof (read_failure reads)
  pub left :
      (k : PeerId)
      → contains text_dec k h.receivers
        ≡ ite (text_dec remote k) (is_nil (read_failure reads)) (contains text_dec k receivers)
  pub reset : h.is_reset ≡ is_some (unless_eof (read_failure reads))
  pub ended : h.is_closed ≡ is_some (read_failure reads)

module _ (remote : PeerId) (receivers : List PeerId) where
  error_arrivals :
      (e : Error)
      → contains text_dec remote receivers ≡ true
      → All (λ (d : Delivery). d.0 ≡ remote) (receive_error remote e receivers).1
        × ((part : Message → List Cid)
            → spoken part (contents (receive_error remote e receivers).1) ≡ [])
        × (first_error (contents (receive_error remote e receivers).1)
            ≡ ite (text_dec e eof) none (some e))
  unfolding receive_error
  error_arrivals e h = elim (text_dec e eof) [
    | yes q ↦ (
      rw (receive_error, h, if_pos _ q) (refl, tt),
      λ part. rw (receive_error, h, if_pos _ q) refl,
      rw (receive_error, h, if_pos _ q, if_pos _ q) refl,
    )
    | no n ↦ (
      rw (receive_error, h, if_neg _ n) (refl, (refl, tt)),
      λ part. rw (receive_error, h, if_neg _ n) refl,
      rw (receive_error, h, if_neg _ n, if_neg _ n) refl,
    )
  ]

  read_loop-IsServed :
      (reads : List Read)
      → contains text_dec remote receivers ≡ true
      → IsServed remote receivers reads (read_loop remote receivers reads)
  unfolding read_loop receive_error receive_msg
  read_loop-IsServed [] h = record {
    only = tt;
    said_all = λ part. refl;
    err = refl;
    left = λ k. elim (text_dec remote k) [
      | yes e ↦
          ap (λ j. contains text_dec j receivers) (sym e)
          ∙ h
          ∙ sym (if_pos (text_dec remote k) e true (contains text_dec k receivers))
      | no n ↦ rw (if_neg _ n) refl
    ];
    reset = refl;
    ended = refl;
  }
  read_loop-IsServed (read_error e ∷ rest) h = record {
    only = (error_arrivals e h).0;
    said_all = λ part. (error_arrivals e h).1 part;
    err = (error_arrivals e h).2;
    left = λ k. ground (arith, contains-remove text_dec k remote receivers);
    reset = ground arith;
    ended = refl;
  }
  read_loop-IsServed (read_message m ∷ rest) h =
      let ih = read_loop-IsServed rest h in
      record {
        only = rw (receive_msg, h) (refl, ih.only);
        said_all = λ part. rw (receive_msg, h) (ap (λ xs. part m ++ xs) (ih.said_all part));
        err = rw (receive_msg, h) ih.err;
        left = ih.left;
        reset = ih.reset;
        ended = ih.ended;
      }

  read_loop_unregistered :
      (reads : List Read)
      → contains text_dec remote receivers ≡ false
      → ((read_loop remote receivers reads).delivered ≡ [])
        × ((read_loop remote receivers reads).receivers ≡ receivers)
  unfolding read_loop receive_error receive_msg
  read_loop_unregistered [] h = (refl, refl)
  read_loop_unregistered (read_error e ∷ rest) h = ground arith
  read_loop_unregistered (read_message m ∷ rest) h = ground (arith, read_loop_unregistered rest h)

-- What the handler of a stream does by whether the peer is registered while it runs.
abbrev pub IsServedIf : Bool → PeerId → List PeerId → List Read → StreamHandled → Type 0
IsServedIf true remote receivers reads h = IsServed remote receivers reads h
IsServedIf false remote receivers reads h = (h.delivered ≡ []) × (h.receivers ≡ receivers)

read_loop-IsServedIf :
    (remote : PeerId) (receivers : List PeerId) (reads : List Read)
    → IsServedIf
        (contains text_dec remote receivers)
        remote
        receivers
        reads
        (read_loop remote receivers reads)
read_loop-IsServedIf remote receivers reads =
    elim (Bool-cases (contains text_dec remote receivers)) [
      | inl q ↦ rw (q, IsServedIf) (read_loop-IsServed remote receivers reads q)
      | inr q ↦ rw (q, IsServedIf) (read_loop_unregistered remote receivers reads q)
    ]

contains-remove_handlers :
    (p : ProtocolId) (ps served : List ProtocolId)
    → contains text_dec p (remove_handlers ps served)
      ≡ (not (contains text_dec p ps) && contains text_dec p served)
unfolding remove_handlers contains
contains-remove_handlers p [] served = refl
contains-remove_handlers p (q ∷ ps) served = ground (
  arith,
  contains-remove_handlers p ps (remove text_dec q served),
  contains-remove text_dec p q served,
)

-- A handler of a stream that starts before a shutdown, also if it is at work when `Shutdown` is called,
-- sends to no other peer's channel than that of its own. If its peer is registered it sends all the
-- messages that it reads before the first error, in order, then the error unless it is the end of the
-- stream; at an error, and then only, it drops the peer from the receivers and no other peer, and
-- closes the stream, which it has reset unless it is at its end. For a peer that is not registered,
-- nothing is sent and the receivers stay. A handler that starts after `Shutdown` sends nothing, leaves
-- the receivers and resets and closes the stream. After `Shutdown` the host serves none of the protocols any more.
pub handle_stream-shutdown_probe :
    (remote : PeerId) (receivers : List PeerId) (reads : List Read) (served : List ProtocolId)
    → IsServedIf
        (contains text_dec remote receivers)
        remote
        receivers
        reads
        (handle_stream false remote receivers reads)
      × (handle_stream (shutdown_probe false served).0 remote receivers reads
          ≡ record { receivers = receivers; delivered = []; is_reset = true; is_closed = true })
      × ((p : ProtocolId)
          → contains text_dec p (shutdown_probe false served).1
            ≡ (not (contains text_dec p protocol_strings) && contains text_dec p served))
unfolding handle_stream shutdown_probe
handle_stream-shutdown_probe remote receivers reads served = (
  read_loop-IsServedIf remote receivers reads,
  refl,
  λ p. contains-remove_handlers p protocol_strings served,
)
