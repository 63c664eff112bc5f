-- ===== src/Bitswap/Concurrent/Stuck.antt =====
-- A handler that sends to a peer whose call is past `collectResponses` blocks the probe for ever.
use ipfs_crawler.Bitswap.Concurrent.Sound.{queried_on-fit}
use ipfs_crawler.Prelude.{
  ◌≡◌, refl, sym, ap, ◌∙◌, subst, Bool, true, false, ◌≢◌, if_neg, Option, none, some, text_dec,
  if_pos,
}
use mathlib.Core.Option.{some-injective}
use ipfs_crawler.Panic.{ok, Returns}
use ipfs_crawler.Types.{PeerId, ProtocolId}
use ipfs_crawler.GoMap.{contains, lookup}
use ipfs_crawler.GoMap.Laws.{lookup-insert}
use ipfs_crawler.Bitswap.{Message, Answers, ProbeResult, to_result, protocol_strings}
use ipfs_crawler.Bitswap.Query.{Read, read_message}
use ipfs_crawler.Bitswap.Concurrent.{
  Phase, querying, collecting, leaving, ProbeState, ProbeEvent, begin, send_done, send_failed,
  receive, deliver, see_closed, time_out, finish, set_phase, receive_call, delivered, leave,
  end_query, probe_step, ProbeRun, still, next, queried_on, if_open, Apart,
}

-- The handler of `p` waits in a send, and the call for `p` waits for the mutex.
abbrev pub IsStuck : PeerId → Read → Option ProbeResult → ProbeState → Type 0
IsStuck p r o s = (s.pending ≡ some (p, r)) × (lookup text_dec p s.active ≡ some (leaving o))

abbrev IsStuckIf : PeerId → Read → Option ProbeResult → Option ProbeState → Type 0
IsStuckIf p r o none = Unit
IsStuckIf p r o (some u) = IsStuck p r o u

module _ (p : PeerId) (r : Read) (o : Option ProbeResult) (s : ProbeState)
    (stuck : IsStuck p r o s) where
  -- A step of another call.
  set_phase-IsStuck :
      (k : PeerId) (v w : Phase)
      → lookup text_dec k s.active ≡ some v
      → v ≢ leaving o
      → IsStuck p r o (set_phase s k w)
  unfolding set_phase
  set_phase-IsStuck k v w q n = (
    stuck.0,
    lookup-insert text_dec p k w s.active
        ∙ if_neg (text_dec k p)
            (λ e. n (some-injective _ _ (sym q ∙ ap (λ j. lookup text_dec j s.active) e ∙ stuck.1)))
            _ _
        ∙ stuck.1,
  )

  leave-IsStuck :
      (k : PeerId) (phase : Option Phase)
      → lookup text_dec k s.active ≡ phase
      → IsStuckIf p r o (leave s k phase)
  unfolding leave
  leave-IsStuck k none q = tt
  leave-IsStuck k (some querying) q = tt
  leave-IsStuck k (some (leaving x)) q = tt
  leave-IsStuck k (some (collecting st)) q = set_phase-IsStuck k (collecting st) _ q (λ e. cc)

  end_query-IsStuck :
      (k : PeerId) (w : Phase) (phase : Option Phase)
      → lookup text_dec k s.active ≡ phase
      → IsStuckIf p r o (end_query s k w phase)
  unfolding end_query
  end_query-IsStuck k w none q = tt
  end_query-IsStuck k w (some querying) q = set_phase-IsStuck k querying w q (λ e. cc)
  end_query-IsStuck k w (some (leaving x)) q = tt
  end_query-IsStuck k w (some (collecting st)) q = tt

  see_closed-IsStuck :
      (k : PeerId) (b : Bool)
      → contains text_dec k s.closed ≡ b
      → Returns (probe_step (see_closed k) s) (IsStuckIf p r o)
  unfolding probe_step
  see_closed-IsStuck k true q = rw (probe_step, q) (leave-IsStuck k _ refl)
  see_closed-IsStuck k false q = rw (probe_step, q) tt

  -- No call is registered or comes to its end, and no handler gets the mutex.
  waits :
      (k : PeerId) (x : Read)
      → (probe_step (begin k) s ≡ ok none)
        × (probe_step (finish k) s ≡ ok none)
        × (probe_step (receive k x) s ≡ ok none)
  unfolding probe_step
  waits k x =
      (rw (probe_step, stuck.0) refl, rw (probe_step, stuck.0) refl, rw (probe_step, stuck.0) refl)

  queried_on-IsStuck :
      (k : PeerId) (protocol : ProtocolId) (w : Phase)
      → contains text_dec protocol protocol_strings ≡ true
      → Returns (queried_on s k protocol w (lookup text_dec k s.active)) (IsStuckIf p r o)
  queried_on-IsStuck k protocol w fit =
      rw (queried_on-fit s k protocol w (lookup text_dec k s.active) fit)
        (end_query-IsStuck k w _ refl)

  probe_step-IsStuck : (e : ProbeEvent) → Apart e s → Returns (probe_step e s) (IsStuckIf p r o)
  unfolding probe_step delivered
  probe_step-IsStuck (begin k) a = rw ((waits k r).0) tt
  probe_step-IsStuck (finish k) a = rw ((waits k r).1) tt
  probe_step-IsStuck (receive k x) a = rw ((waits k x).2) tt
  probe_step-IsStuck (send_done k protocol) a = queried_on-IsStuck k protocol _ a
  probe_step-IsStuck (send_failed k protocol) a = queried_on-IsStuck k protocol _ a
  probe_step-IsStuck (time_out k) a = leave-IsStuck k _ refl
  probe_step-IsStuck (see_closed k) a = see_closed-IsStuck k _ refl
  probe_step-IsStuck deliver a = rw (probe_step, stuck.0, stuck.1) tt

run-IsStuck :
    (p : PeerId) (r : Read) (o : Option ProbeResult) (s t : ProbeState)
    → ProbeRun s t
    → IsStuck p r o s
    → IsStuck p r o t
run-IsStuck p r o _ _ (still s) h = h
run-IsStuck p r o _ _ (next e s u t a q run) h =
    run-IsStuck p r o u t run
      (subst (λ x. Returns x (IsStuckIf p r o)) q (probe_step-IsStuck p r o s h e a))

-- From any state with a free mutex, in which the call for some peer collects responses and has its
-- receiver with an open channel, two steps lead to a deadlock: a message of the peer arrives, and the response period is
-- over before it is taken. In every state that can follow, the call for the peer has not returned, no
-- call for any peer can register or come to its end, and no handler of a stream gets the mutex.
pub time_out-waits :
    (s : ProbeState) (p : PeerId) (st : Answers) (m : Message)
    → s.pending ≡ none
    → contains text_dec p s.receivers ≡ true
    → contains text_dec p s.closed ≡ false
    → lookup text_dec p s.active ≡ some (collecting st)
    → (t : ProbeState) × (u : ProbeState) × (probe_step (receive p (read_message m)) s
        ≡ ok (some u))
      × (probe_step (time_out p) u ≡ ok (some t))
      × ((v : ProbeState)
          → ProbeRun t v
          → (lookup text_dec p v.active ≡ some (leaving (some (to_result st))))
            × ((k : PeerId) (x : Read)
                → (probe_step (begin k) v ≡ ok none)
                  × (probe_step (finish k) v ≡ ok none)
                  × (probe_step (receive k x) v ≡ ok none)))
unfolding probe_step receive_call if_open leave set_phase
time_out-waits s p st m free known unclosed q =
    let u : ProbeState = record s { pending = some (p, read_message m) } in
    let o : Option ProbeResult = some (to_result st) in
    let t = set_phase u p (leaving o) in
    let now : IsStuck p (read_message m) o t =
      (refl, lookup-insert text_dec p p (leaving o) s.active ∙ if_pos (text_dec p p) refl _ _) in
    (
      t,
      u,
      rw (probe_step, free, known, receive_call, if_open, unclosed) refl,
      rw (probe_step, q) refl,
      λ v run.
          let stuck = run-IsStuck p (read_message m) o t v run now in
          (stuck.1, λ k x. waits p (read_message m) o v stuck k x),
    )
