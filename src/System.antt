-- ===== src/System.antt =====
-- The dispatch loop of crawling/crawlmanager.go beside the goroutines that it starts. An event is a
-- choice of the scheduler: which case of the `select` runs, or which goroutine goes on.
pub mod Fliers
pub mod Invariant
pub mod Moves
pub mod Complete
pub mod Contacts
pub mod Budget
pub mod Progress
use ipfs_crawler.Prelude.{
  ℕ, ◌+◌, Bool, true, false, List, [], ◌∷◌, ◌++◌, map, Option, none, some, if◌then◌else◌, length,
  get_elem?, erase_idx, ltb, ◌≡◌,
}
use ipfs_crawler.Panic.{Exec, ok, fault, ◌>>=◌}
use ipfs_crawler.Types.{PeerId, AddrInfo, Error, Time, RawNodeInformation, Exclusive}
use ipfs_crawler.AddrTools.{Manet}
use ipfs_crawler.Manager.{
  CrawlManager, Dispatch, has_work, handle_report, handle_token, worker_index, dispatch_report,
}
use ipfs_crawler.Manager.Summary.{count_states, no_counts}

-- `crawling` holds the goroutines that have not yet sent their result, `returning` the tokens of
-- those that have. `history` is no state of the program: it lists the peers of all the crawls
-- started so far, the latest first.
pub record System : Type 0 where
  pub cm : CrawlManager
  pub crawling : List Dispatch
  pub returning : List ℕ
  pub history : List PeerId

-- What the worker's `crawlPeer` returned, with the times taken around it.
pub record Outcome : Type 0 where
  pub node : Option RawNodeInformation
  pub err : Option Error
  pub before : Time
  pub after : Time

-- What the interface `worker` promises: a node or an error, never both and never neither.
abbrev pub IsLawful : Outcome → Type 0
IsLawful o = Exclusive o.err o.node

pub data Event : Type 0 where
  -- the loop receives a token
  take_token : Event
  -- the i-th crawl returns, and the loop receives its result
  finish : ℕ → Outcome → Event
  -- the i-th goroutine that has reported puts its token back and ends
  give_token : ℕ → Event
  -- the info ticker fires
  tick : Event

-- `go cm.dispatch(node, id)`, if a crawl starts.
unfoldable pub spawned : System → CrawlManager → Option Dispatch → System
spawned s cm none = record s { cm = cm }
spawned s cm (some d) = record s {
  cm = cm;
  crawling = d ∷ s.crawling;
  history = d.node.id ∷ s.history;
}

-- `cm.tokenBucket <- id` at the end of `dispatch`: it waits while the channel is full.
unfoldable pub give : System → ℕ → Option ℕ → Exec (Option System)
give s i none = ok none
give s i (some id) =
    let cm = s.cm in
    ok (
      if ltb (length cm.token_bucket) cm.bucket_cap
      then some (record s {
        cm = record cm { token_bucket = cm.token_bucket ++ id ∷ [] };
        returning = erase_idx s.returning i;
      })
      else none)

module _ (manet : Manet) where
  unfoldable pub take : System → List ℕ → Exec (Option System)
  unfolding spawned
  take s [] = ok none
  take s (id ∷ bucket) = do
    (cm', started) ← handle_token manet (record (s.cm) { token_bucket = bucket }) id
    ok (some (spawned s cm' started))

  unfoldable pub report : System → ℕ → Outcome → Option Dispatch → Exec (Option System)
  report s i o none = ok none
  report s i o (some d) = do
    _ ← worker_index s.cm d
    cm' ← handle_report manet s.cm (dispatch_report d o.node o.err o.before o.after)
    ok (
        some (record s {
          cm = cm';
          crawling = erase_idx s.crawling i;
          returning = d.token ∷ s.returning;
        }))

  -- The events of the loop, while its condition holds.
  unfoldable pub loop_step : System → Event → Exec (Option System)
  unfolding take report
  loop_step s take_token = take s s.cm.token_bucket
  loop_step s (finish i o) = report s i o (get_elem? s.crawling i)
  loop_step s tick = do _ ← count_states no_counts s.cm.crawled; ok (some s)
  loop_step s (give_token i) = ok none

  -- `none` if the event is not possible now.
  unfoldable pub step : System → Event → Exec (Option System)
  unfolding give loop_step
  step s (give_token i) = give s i (get_elem? s.returning i)
  step s e = if has_work s.cm then loop_step s e else ok none

  -- The events that a run may contain: a worker keeps its promise.
  abbrev pub IsFair : Event → Type 0
  IsFair (finish i o) = IsLawful o
  IsFair _ = Unit {0}

  -- `Run s t`: some sequence of events leads from `s` to `t`.
  pub data Run (s : System) : System → Type 0 where
    here : Run s s
    next : {t u : System} → Run s t → (e : Event) → IsFair e → step t e ≡ ok (some u) → Run s u
