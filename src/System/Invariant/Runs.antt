-- ===== src/System/Invariant/Runs.antt =====
-- The invariant of the loop of crawling/crawlmanager.go and its goroutines along a run.
use ipfs_crawler.Prelude.{ℕ, refl, Bool, true, false, none, some, get_elem?, if◌then◌else◌}
use ipfs_crawler.Panic.{ok, Returns}
use ipfs_crawler.AddrTools.{Manet}
use ipfs_crawler.Manager.{has_work}
use ipfs_crawler.Manager.Summary.{no_counts, count_states-counted}
use ipfs_crawler.System.{
  System, Event, take_token, finish, give_token, tick, loop_step, step, IsFair, Run, here, next,
}
use ipfs_crawler.System.Invariant.{Inv, Keeps, give-Inv}
use ipfs_crawler.System.Invariant.Tokens.{take-Inv}
use ipfs_crawler.System.Invariant.Reports.{report-Inv}

module _ (manet : Manet) (total : ℕ) where
  loop_step-Inv :
      (s : System) (e : Event)
      → IsFair manet e
      → Inv total s
      → Returns (loop_step manet s e) (Keeps total)
  unfolding loop_step
  loop_step-Inv s take_token fair h = take-Inv manet total s s.cm.token_bucket refl h
  loop_step-Inv s (finish i o) fair h =
      report-Inv manet total s i o (get_elem? s.crawling i) refl fair h
  loop_step-Inv s tick fair h = rw (count_states-counted no_counts s.cm.crawled h.entries) h
  loop_step-Inv s (give_token i) fair h = tt

  guarded-Inv :
      (s : System) (e : Event) (b : Bool)
      → IsFair manet e
      → Inv total s
      → Returns (if b then loop_step manet s e else ok none) (Keeps total)
  guarded-Inv s e true fair h = loop_step-Inv s e fair h
  guarded-Inv s e false fair h = tt

  -- From a state with the invariant every event, of workers that keep their promise, goes
  -- through: nothing panics and the loop does not block on its own channel; and a state that
  -- follows has the invariant again.
  pub step-Inv :
      (s : System) (e : Event)
      → IsFair manet e
      → Inv total s
      → Returns (step manet s e) (Keeps total)
  unfolding step
  step-Inv s (give_token i) fair h = give-Inv manet total s i (get_elem? s.returning i) refl h
  step-Inv s take_token fair h = guarded-Inv s take_token (has_work s.cm) fair h
  step-Inv s (finish i o) fair h = guarded-Inv s (finish i o) (has_work s.cm) fair h
  step-Inv s tick fair h = guarded-Inv s tick (has_work s.cm) fair h

  pub Run-Inv : {s t : System} → Inv total s → Run manet s t → Inv total t
  Run-Inv h here = h
  Run-Inv h (next {t} {u} run e fair eq) =
      let r : Returns (ok (some u)) (Keeps total) = rw eq at (step-Inv t e fair (Run-Inv h run)) in
      r
