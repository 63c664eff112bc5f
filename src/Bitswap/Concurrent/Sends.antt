-- ===== src/Bitswap/Concurrent/Sends.antt =====
-- The calls of `HandlePeer` side by side: what a send of a handler, its receipt and a close keep.
use ipfs_crawler.Prelude.{
  on_if, on_ite, ◌==◌, ◌≡◌, refl, subst, Bool, true, false, Option, none, some, text_dec, length,
  arith, ite,
}
use ipfs_crawler.Panic.{Returns, ok}
use ipfs_crawler.Types.{PeerId, Error}
use ipfs_crawler.GoMap.{contains, lookup, add, remove}
use ipfs_crawler.GoMap.Laws.{lookup-insert, contains-add, contains-remove}
use ipfs_crawler.Bitswap.{Answers, hear, to_result}
use ipfs_crawler.Bitswap.Collected.{IsSplit, hear-IsSplit}
use ipfs_crawler.Bitswap.Query.{eof, Read, read_message, read_error}
use ipfs_crawler.Bitswap.Concurrent.{
  Phase, querying, collecting, leaving, ProbeState, receive_call, after_message, delivered, if_open,
  taken,
}
use ipfs_crawler.Bitswap.Concurrent.Sound.{
  IsGoodPhase, IsHeld, IsSound, IsSoundIf, insert-IsGoodPhase,
}

module _ (s : ProbeState) (h : IsSound s) where
  -- The channel of a receiver is open.
  if_open-ok :
      (p : PeerId) (t : ProbeState) → contains text_dec p s.receivers ≡ true → if_open s p t ≡ ok t
  unfolding if_open
  if_open-ok p t known = rw (if_open, h.unclosed p known) refl

  -- The receiver of `p` is dropped when its channel is closed.
  drop-open :
      (p k : PeerId)
      → contains text_dec k (remove text_dec p s.receivers) ≡ true
      → contains text_dec k (add text_dec p s.closed) ≡ false
  drop-open p k i = ground (
    arith,
    h.unclosed k,
    contains-add text_dec k p s.closed,
    contains-remove text_dec k p s.receivers,
    i,
  )

  received-IsSound :
      (p : PeerId) (e : Error)
      → s.pending ≡ none
      → contains text_dec p s.receivers ≡ true
      → IsSound (
          ite
            (text_dec e eof)
            (record s {
              receivers = remove text_dec p s.receivers;
              closed = add text_dec p s.closed;
            })
            (record s { pending = some (p, read_error e) }))
  received-IsSound p e free q =
      on_ite IsSound (text_dec e eof)
        (record {
          inside = λ k i. h.inside k (ground (arith, contains-remove text_dec k p s.receivers, i));
          unclosed = drop-open p;
          held = rw free tt;
          phases = h.phases;
          divided = h.divided;
        })
        (record {
          inside = h.inside;
          unclosed = h.unclosed;
          held = q;
          phases = h.phases;
          divided = h.divided;
        })

  pub receive_call-IsSound :
      (p : PeerId) (r : Read) (b : Bool)
      → s.pending ≡ none
      → contains text_dec p s.receivers ≡ b
      → Returns (receive_call s p r b) IsSound
  unfolding receive_call
  receive_call-IsSound p r false free q = h
  receive_call-IsSound p (read_message m) true free q =
      rw (receive_call, if_open-ok p _ q)
        (record {
          inside = h.inside;
          unclosed = h.unclosed;
          held = q;
          phases = h.phases;
          divided = h.divided;
        })
  receive_call-IsSound p (read_error e) true free q =
      rw (receive_call, if_open-ok p _ q) (received-IsSound p e free q)

  after_message-IsGoodPhase :
      (st : Answers) → IsSplit s.cids st → IsGoodPhase s.cids (some (after_message st))
  unfolding after_message
  after_message-IsGoodPhase st x =
      on_if (λ v. IsGoodPhase s.cids (some v)) (length st.outstanding == 0) (st, x, refl) x

  taken-IsSound :
      (p : PeerId) (r : Read) (st : Answers) → IsSplit s.cids st → IsSound (taken s p st r)
  unfolding taken
  taken-IsSound p (read_message m) st x = record {
    inside = λ k i.
        ground
          (arith, h.inside k i, lookup-insert text_dec k p (after_message (hear st m)) s.active);
    unclosed = h.unclosed;
    held = tt;
    phases =
        insert-IsGoodPhase s.cids s.active h.phases p _
          (after_message-IsGoodPhase _ (hear-IsSplit s.cids st m x));
    divided = h.divided;
  }
  taken-IsSound p (read_error e) st x =
      let st' : Answers = record st { err = some e } in
      record {
        inside = λ k i. ground (
          arith,
          h.inside k,
          i,
          contains-remove text_dec k p s.receivers,
          lookup-insert text_dec k p (leaving (some (to_result st'))) s.active,
        );
        unclosed = drop-open p;
        held = tt;
        phases =
            insert-IsGoodPhase s.cids s.active h.phases p _
              (st', record { split = x.split; once = x.once }, refl);
        divided = h.divided;
      }

  -- The send of a sound state takes place.
  pub delivered-taken :
      (p : PeerId) (r : Read) (st : Answers)
      → s.pending ≡ some (p, r)
      → delivered s p r (some (collecting st)) ≡ ok (some (taken s p st r))
  unfolding delivered
  delivered-taken p r st held =
      rw (delivered, if_open-ok p (taken s p st r) (subst (IsHeld s.receivers) held h.held)) refl

  pub delivered-IsSound :
      (p : PeerId) (r : Read) (phase : Option Phase)
      → s.pending ≡ some (p, r)
      → lookup text_dec p s.active ≡ phase
      → Returns (delivered s p r phase) IsSoundIf
  unfolding delivered
  delivered-IsSound p r none held q = tt
  delivered-IsSound p r (some querying) held q = tt
  delivered-IsSound p r (some (leaving o)) held q = tt
  delivered-IsSound p r (some (collecting st)) held q =
      rw (delivered-taken p r st held)
        (taken-IsSound p r st (subst (IsGoodPhase s.cids) q (h.phases p)))
