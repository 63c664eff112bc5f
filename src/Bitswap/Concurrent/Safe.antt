-- ===== src/Bitswap/Concurrent/Safe.antt =====
-- The calls of `HandlePeer` side by side: no panic, and well-formed results.
use ipfs_crawler.Prelude.{◌≡◌, refl, subst, Bool, true, false, List, Option, none, some, text_dec}
use ipfs_crawler.Panic.{Returns, ok, Returns-bind}
use ipfs_crawler.Types.{PeerId}
use ipfs_crawler.GoMap.{contains, lookup}
use ipfs_crawler.Bitswap.{Cid}
use ipfs_crawler.Bitswap.Collected.{no_answers-IsSplit}
use ipfs_crawler.Bitswap.Query.{Read}
use ipfs_crawler.Bitswap.Concurrent.{
  ProbeState, ProbeEvent, begin, send_done, send_failed, receive, deliver, see_closed, time_out,
  finish, probe_step, Apart, ProbeRun, still, next, new_state, receive_call,
}
use ipfs_crawler.Bitswap.Concurrent.Sends.{receive_call-IsSound, delivered-IsSound}
use ipfs_crawler.Bitswap.Concurrent.Sound.{
  IsSound, IsSoundIf, leave-IsSound, queried_on-IsSound, end_call-IsSound, begin_call-IsSound,
}

module _ (s : ProbeState) (h : IsSound s) where
  deliver-IsSound :
      (pending : Option (PeerId × Read))
      → s.pending ≡ pending
      → Returns (probe_step deliver s) IsSoundIf
  unfolding probe_step
  deliver-IsSound none q = rw (probe_step, q) tt
  deliver-IsSound (some (p, r)) q = rw (probe_step, q) (delivered-IsSound s h p r _ q refl)

  see_closed-IsSound :
      (p : PeerId) (b : Bool)
      → contains text_dec p s.closed ≡ b
      → Returns (probe_step (see_closed p) s) IsSoundIf
  unfolding probe_step
  see_closed-IsSound p true q = rw (probe_step, q) (leave-IsSound s h p _ refl)
  see_closed-IsSound p false q = rw (probe_step, q) tt

  -- The events that wait for the mutex.
  locked-IsSound :
      (e : ProbeEvent) (pending : Option (PeerId × Read))
      → Apart e s
      → s.pending ≡ pending
      → Returns (probe_step e s) IsSoundIf
  unfolding probe_step
  locked-IsSound (begin p) none a q = rw (probe_step, q) (begin_call-IsSound s h p q a)
  locked-IsSound (begin p) (some x) a q = rw (probe_step, q) tt
  locked-IsSound (receive p r) none a q =
      rw (probe_step, q)
        (Returns-bind (receive_call s p r (contains text_dec p s.receivers)) (λ t. ok (some t))
          IsSound IsSoundIf (receive_call-IsSound s h p r _ q refl) (λ t x. x))
  locked-IsSound (receive p r) (some x) a q = rw (probe_step, q) tt
  locked-IsSound (finish p) none a q = rw (probe_step, q) (end_call-IsSound s h p _ q refl)
  locked-IsSound (finish p) (some x) a q = rw (probe_step, q) tt
  locked-IsSound deliver pending a q = deliver-IsSound pending q
  locked-IsSound (send_done p protocol) pending a q =
      queried_on-IsSound s h p protocol _ _ a (no_answers-IsSplit s.cids)
  locked-IsSound (send_failed p protocol) pending a q = queried_on-IsSound s h p protocol _ _ a tt
  locked-IsSound (time_out p) pending a q = leave-IsSound s h p _ refl
  locked-IsSound (see_closed p) pending a q = see_closed-IsSound p _ refl

pub probe_step-IsSound :
    (e : ProbeEvent) (s : ProbeState) → Apart e s → IsSound s → Returns (probe_step e s) IsSoundIf
probe_step-IsSound e s a h = locked-IsSound s h e s.pending a refl

pub new_state-IsSound : (cids : List Cid) → IsSound (new_state cids)
unfolding new_state lookup contains
new_state-IsSound cids = record {
  inside = λ k i. cc;
  unclosed = λ k i. refl;
  held = tt;
  phases = λ k. tt;
  divided = tt;
}

pub run-IsSound : (s t : ProbeState) → ProbeRun s t → IsSound s → IsSound t
run-IsSound _ _ (still s) h = h
run-IsSound _ _ (next e s u t a q run) h =
    run-IsSound u t run (subst (λ o. Returns o IsSoundIf) q (probe_step-IsSound e s a h))

-- A probe that has no call under way, and runs in any order of steps in which a call begins only for a
-- peer without one, and on streams of the protocols that were asked for: in each state that it reaches, a
-- receiver has a call under way and an open channel, the peer of a waiting send has a receiver, each result splits the configured CIDs into those that were answered
-- and those that were not, no step panics, also not by a send on a closed channel, a second close of one, or a
-- stream of an unknown protocol, and the next state is such a state again.
pub probe_step-new_state :
    (cids : List Cid) (t : ProbeState) (e : ProbeEvent)
    → ProbeRun (new_state cids) t
    → Apart e t
    → IsSound t × Returns (probe_step e t) IsSoundIf
probe_step-new_state cids t e run a =
    let h = run-IsSound (new_state cids) t run (new_state-IsSound cids) in
    (h, probe_step-IsSound e t a h)
