-- ===== src/Bitswap/Concurrent/Live.antt =====
-- While no call waits for a handler that waits for it, each call of `HandlePeer` can come to its end.
use ipfs_crawler.Bitswap.Collected.{no_answers-IsSplit}
use ipfs_crawler.Prelude.{
  ◌≡◌, refl, ◌∙◌, subst, true, List, ◌∷◌, Option, none, some, text_dec, is_some, arith, if_pos,
}
use ipfs_crawler.Panic.{ok}
use ipfs_crawler.Types.{PeerId}
use ipfs_crawler.GoMap.{lookup, delete, contains}
use ipfs_crawler.GoMap.Laws.{lookup-insert, lookup-delete}
use ipfs_crawler.Bitswap.{
  Cid, Answers, ProbeResult, to_result, no_answers, one_two, protocol_strings,
}
use ipfs_crawler.Bitswap.Query.{unregister_peer, Read, read_message, read_error}
use ipfs_crawler.Bitswap.Concurrent.{
  Phase, querying, collecting, leaving, ProbeState, ProbeEvent, send_done, send_failed, deliver,
  time_out, finish, set_phase, delivered, leave, end_query, end_call, probe_step, Apart, ProbeRun,
  still, next, new_state, taken, queried_on,
}
use ipfs_crawler.Bitswap.Concurrent.Sends.{delivered-taken}
use ipfs_crawler.Bitswap.Concurrent.Sound.{IsSound, IsHeld, set_phase-IsSound}
use ipfs_crawler.Bitswap.Concurrent.Safe.{run-IsSound, new_state-IsSound}
use ipfs_crawler.Bitswap.Concurrent.Stuck.{IsStuck}

-- A state that can follow, in which the call of the peer is over.
abbrev pub CanReturn : PeerId → ProbeState → Type 0
CanReturn p s = (t : ProbeState) × ProbeRun s t × (lookup text_dec p t.active ≡ none)

one_two-fit : contains text_dec one_two protocol_strings ≡ true
unfolding contains text_dec
one_two-fit = refl

-- The step `e` first.
then_return :
    (p : PeerId) (e : ProbeEvent) (s u : ProbeState)
    → Apart e s
    → probe_step e s ≡ ok (some u)
    → CanReturn p u
    → CanReturn p s
then_return p e s u a q (t, run, over) = (t, next e s u t a q run, over)

module _ (p : PeerId) where
  lookup-set_phase :
      (s : ProbeState) (v : Phase) → lookup text_dec p (set_phase s p v).active ≡ some v
  unfolding set_phase
  lookup-set_phase s v = lookup-insert text_dec p p v s.active ∙ if_pos (text_dec p p) refl _ _

  finish_free :
      (s : ProbeState) (phase : Option Phase)
      → s.pending ≡ none
      → lookup text_dec p s.active ≡ phase
      → probe_step (finish p) s ≡ ok (end_call s p phase)
  unfolding probe_step
  finish_free s phase free q = simp (probe_step, free, q)

  deliver_held :
      (s : ProbeState) (k : PeerId) (r : Read) (phase : Option Phase)
      → s.pending ≡ some (k, r)
      → lookup text_dec k s.active ≡ phase
      → probe_step deliver s ≡ delivered s k r phase
  unfolding probe_step
  deliver_held s k r phase held q = rw (probe_step, held, q) refl

  from_leaving :
      (s : ProbeState) (o : Option ProbeResult)
      → s.pending ≡ none
      → lookup text_dec p s.active ≡ some (leaving o)
      → CanReturn p s
  unfolding probe_step end_call
  from_leaving s o free q =
      let t : ProbeState = record s {
        receivers = unregister_peer p s.receivers;
        active = delete text_dec p s.active;
        results = (p, o) ∷ s.results;
      } in
      then_return p (finish p) s t tt (finish_free s _ free q)
        (t, still t, lookup-delete text_dec p p s.active ∙ if_pos (text_dec p p) refl _ _)

  from_free :
      (s : ProbeState) (phase : Option Phase)
      → s.pending ≡ none
      → lookup text_dec p s.active ≡ phase
      → CanReturn p s
  unfolding probe_step leave end_query set_phase
  from_free s none free q = (s, still s, q)
  from_free s (some (leaving o)) free q = from_leaving s o free q
  from_free s (some (collecting st)) free q =
      then_return p (time_out p) s (set_phase s p (leaving (some (to_result st)))) tt
        (rw (probe_step, q) refl) (from_leaving _ _ free (lookup-set_phase s _))
  from_free s (some querying) free q =
      then_return p (send_failed p one_two) s (set_phase s p (leaving none)) one_two-fit
        (rw (probe_step, q, queried_on, one_two-fit) refl)
        (from_leaving _ _ free (lookup-set_phase s _))

  taken_free :
      (s : ProbeState) (k : PeerId) (r : Read) (st : Answers) → (taken s k st r).pending ≡ none
  unfolding taken
  taken_free s k (read_message m) st = refl
  taken_free s k (read_error e) st = refl

  -- The waiting send takes place.
  from_delivery :
      (s : ProbeState) (k : PeerId) (r : Read) (st : Answers)
      → IsSound s
      → s.pending ≡ some (k, r)
      → lookup text_dec k s.active ≡ some (collecting st)
      → CanReturn p s
  unfolding probe_step
  from_delivery s k r st h held q =
      then_return p deliver s (taken s k st r) tt
        (deliver_held s k r _ held q ∙ delivered-taken s h k r st held)
        (from_free (taken s k st r) _ (taken_free s k r st) refl)

  from_held :
      (s : ProbeState) (k : PeerId) (r : Read) (phase : Option Phase)
      → ((o : Option ProbeResult) → ¬ IsStuck k r o s)
      → IsSound s
      → is_some phase ≡ true
      → s.pending ≡ some (k, r)
      → lookup text_dec k s.active ≡ phase
      → CanReturn p s
  unfolding probe_step end_query set_phase
  from_held s k r none fluid sound h held q = ground arith
  from_held s k r (some (leaving o)) fluid sound h held q = absurd (fluid o (held, q))
  from_held s k r (some (collecting st)) fluid sound h held q = from_delivery s k r st sound held q
  from_held s k r (some querying) fluid sound h held q =
      let st = no_answers s.cids in
      let u = set_phase s k (collecting st) in
      let now : lookup text_dec k u.active ≡ some (collecting st) =
        lookup-insert text_dec k k (collecting st) s.active ∙ if_pos (text_dec k k) refl _ _ in
      then_return p (send_done k one_two) s u one_two-fit
        (rw (probe_step, q, queried_on, one_two-fit) refl)
        (from_delivery u k r st (set_phase-IsSound s sound k _ (no_answers-IsSplit s.cids)) held
          now)

  from_pending :
      (s : ProbeState) (pending : Option (PeerId × Read))
      → IsSound s
      → ((k : PeerId) (r : Read) (o : Option ProbeResult) → ¬ IsStuck k r o s)
      → s.pending ≡ pending
      → CanReturn p s
  from_pending s none h fluid held = from_free s _ held refl
  from_pending s (some (k, r)) h fluid held =
      from_held s k r _ (fluid k r) h (h.inside k (subst (IsHeld s.receivers) held h.held)) held
        refl

-- In every state that a new probe reaches, with calls only for peers without one, each call can come to
-- its end, unless a handler waits in a send to a peer whose call is past `collectResponses`: some
-- steps lead to a state in which no call for the peer is under way.
pub probe_step-CanReturn :
    (cids : List Cid) (s : ProbeState) (p : PeerId)
    → ProbeRun (new_state cids) s
    → ((k : PeerId) (r : Read) (o : Option ProbeResult) → ¬ IsStuck k r o s)
    → CanReturn p s
probe_step-CanReturn cids s p run fluid =
    from_pending p s s.pending (run-IsSound (new_state cids) s run (new_state-IsSound cids)) fluid
      refl
