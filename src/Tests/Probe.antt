-- ===== src/Tests/Probe.antt =====
-- The theorems on the plugin of plugins/bsprobe/plugin.go, for a probe for two CIDs.
use ipfs_crawler.Prelude.{◌≡◌, refl, true, false, not, ◌&&◌, List, [], ◌∷◌, none, some, text_dec}
use ipfs_crawler.Panic.{ok, Returns}
use ipfs_crawler.Result.{Result, value}
use ipfs_crawler.Types.{PeerId, ProtocolId}
use ipfs_crawler.Config.{pos}
use ipfs_crawler.GoMap.{contains, add, remove, insert, lookup}
use ipfs_crawler.Bitswap.{
  Config, one_one, protocol_strings, new_probe, Message, no_answers, Arrival, failed, got,
  collect_responses, to_result,
}
use ipfs_crawler.Bitswap.Heard.{IsAnswer, collect_responses-IsAnswer}
use ipfs_crawler.Bitswap.Query.{
  Stream, probe_peer, Read, read_message, read_error, handle_stream, shutdown_probe, Locks,
}
use ipfs_crawler.Bitswap.Queried.{IsReturned, probe_peer-IsProbed}
use ipfs_crawler.Bitswap.Served.{IsServedIf, handle_stream-shutdown_probe}
use ipfs_crawler.Bitswap.Concurrent.{
  querying, collecting, leaving, ProbeState, begin, send_done, receive, time_out, finish,
  probe_step, ProbeRun, still, next, new_state,
}
use ipfs_crawler.Bitswap.Concurrent.Sound.{IsSound, IsSoundIf}
use ipfs_crawler.Bitswap.Concurrent.Safe.{probe_step-new_state}
use ipfs_crawler.Bitswap.Concurrent.Stuck.{time_out-waits}
use ipfs_crawler.Bitswap.Concurrent.Live.{CanReturn, probe_step-CanReturn}

abbrev cfg : Config
cfg = record { cids = "c1" ∷ "c2" ∷ []; request_timeout = pos 10; response_period = pos 60 }

abbrev have_one : Message
have_one = record { blocks = []; haves = "c1" ∷ []; dont_haves = [] }

abbrev arrivals : List Arrival
arrivals = got have_one ∷ failed "reset" ∷ []

abbrev new_stream : PeerId → List ProtocolId → Result Stream
new_stream p ps =
    value (record { protocol = one_one; write = λ wire m. none; sent = []; is_closed = false })

abbrev free : Locks
free = record { registering = true; unregistering = true }

abbrev reads : List Read
reads = read_message have_one ∷ read_error "EOF" ∷ []

collect_responses-IsAnswer_example :
    IsAnswer cfg.cids arrivals (collect_responses cfg.cids arrivals)
collect_responses-IsAnswer_example = collect_responses-IsAnswer cfg.cids arrivals

one_answer : collect_responses cfg.cids arrivals ≡ record {
  err = some "reset";
  haves = "c1" ∷ [];
  dont_haves = [];
  blocks = [];
  no_response = "c2" ∷ [];
}
unfolding collect_responses text_dec remove add
one_answer = refl

probe_peer-IsProbed_example :
    Returns
      (probe_peer (new_probe cfg) new_stream free arrivals "/a" ("/b" ∷ []))
      (IsReturned cfg.cids arrivals ("/b" ∷ []) free (new_stream "/a" protocol_strings))
unfolding contains text_dec
probe_peer-IsProbed_example =
    probe_peer-IsProbed cfg new_stream free arrivals "/a" ("/b" ∷ []) refl refl

handle_stream-shutdown_probe_example :
    IsServedIf
      (contains text_dec "/a" ("/a" ∷ []))
      "/a"
      ("/a" ∷ [])
      reads
      (handle_stream false "/a" ("/a" ∷ []) reads)
    × (handle_stream (shutdown_probe false protocol_strings).0 "/a" ("/a" ∷ []) reads
        ≡ record { receivers = "/a" ∷ []; delivered = []; is_reset = true; is_closed = true })
    × ((p : ProtocolId)
        → contains text_dec p (shutdown_probe false protocol_strings).1
          ≡ (not (contains text_dec p protocol_strings) && contains text_dec p protocol_strings))
handle_stream-shutdown_probe_example =
    handle_stream-shutdown_probe "/a" ("/a" ∷ []) reads protocol_strings

abbrev begun : ProbeState
begun = record (new_state cfg.cids) { receivers = "/a" ∷ []; active = ("/a", querying) ∷ [] }

abbrev asked : ProbeState
asked = record begun { active = ("/a", collecting (no_answers cfg.cids)) ∷ [] }

begun_asked : ProbeRun (new_state cfg.cids) asked
unfolding probe_step new_state text_dec lookup contains add insert remove
begun_asked =
    next (begin "/a") (new_state cfg.cids) begun asked refl refl
      (next (send_done "/a" one_one) begun asked asked refl refl (still asked))

probe_step-new_state_example :
    IsSound asked × Returns (probe_step (receive "/a" (read_message have_one)) asked) IsSoundIf
probe_step-new_state_example =
    probe_step-new_state cfg.cids asked (receive "/a" (read_message have_one)) begun_asked tt

time_out-waits_example :
    (t : ProbeState) × (u : ProbeState) × (probe_step (receive "/a" (read_message have_one)) asked
      ≡ ok (some u))
    × (probe_step (time_out "/a") u ≡ ok (some t))
    × ((v : ProbeState)
        → ProbeRun t v
        → (lookup text_dec "/a" v.active ≡ some (leaving (some (to_result (no_answers cfg.cids)))))
          × ((k : PeerId) (x : Read)
              → (probe_step (begin k) v ≡ ok none)
                × (probe_step (finish k) v ≡ ok none)
                × (probe_step (receive k x) v ≡ ok none)))
unfolding contains lookup text_dec new_state
time_out-waits_example =
    time_out-waits asked "/a" (no_answers cfg.cids) have_one refl refl refl refl

probe_step-CanReturn_example : CanReturn "/a" asked
unfolding new_state
probe_step-CanReturn_example =
    probe_step-CanReturn cfg.cids asked "/a" begun_asked (λ k r o stuck. cc)
