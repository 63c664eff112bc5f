-- ===== src/System/Moves.antt =====
-- The steps of the loop of crawling/crawlmanager.go and its goroutines, as what they do: a relation
-- without guards or faults.
use ipfs_crawler.Prelude.{
  ℕ, ◌≡◌, refl, ap, ◌∙◌, true, false, Bool, List, [], ◌∷◌, Option, none, some, if◌then◌else◌, arith,
  get_elem?, erase_idx, length, ◌<◌, inl, inr, All-get_elem?,
}
use ipfs_crawler.Panic.{ok}
use ipfs_crawler.Types.{NodeCrawlResult}
use ipfs_crawler.AddrTools.{Manet}
use ipfs_crawler.Manager.{CrawlManager, Dispatch, has_work, dispatch_report, worker_index}
use ipfs_crawler.Manager.Pure.{
  with_token, after_report, after_token, handle_report-after, handle_token-after,
}
use ipfs_crawler.Manager.Frames.{Kept, Started, after_token-uses}
use ipfs_crawler.Manager.Coverage.{bucket-IsCovered}
use ipfs_crawler.Manager.Summary.{no_counts, count_states-counted}
use ipfs_crawler.System.{
  System, Outcome, IsLawful, Event, take_token, finish, give_token, tick, spawned, give, take,
  report, loop_step, step, IsFair,
}
use ipfs_crawler.System.Fliers.{contains-fliers}
use ipfs_crawler.System.Invariant.{Inv}

abbrev pub holding : System → List ℕ → CrawlManager
holding s bucket = record (s.cm) { token_bucket = bucket }

abbrev pub reported : System → ℕ → Dispatch → CrawlManager → System
reported s i d cm = record s {
  cm = cm;
  crawling = erase_idx s.crawling i;
  returning = d.token ∷ s.returning;
}

abbrev pub result_of : Dispatch → Outcome → NodeCrawlResult
result_of d o = dispatch_report d o.node o.err o.before o.after

module _ (manet : Manet) where
  pub data Move (s u : System) : Type 0 where
    -- the info ticker
    stay : u ≡ s → Move s u
    -- a goroutine puts its token back and ends
    give_back :
        (i id : ℕ)
        → get_elem? s.returning i ≡ some id
        → u ≡ record s { cm = with_token s.cm id; returning = erase_idx s.returning i }
        → Move s u
    -- the loop takes a token, and puts it back: no crawl starts
    keep :
        (id : ℕ) (bucket : List ℕ)
        → s.cm.token_bucket ≡ id ∷ bucket
        → Kept (holding s bucket) id (after_token manet (holding s bucket) id)
        → u ≡ record s { cm = (after_token manet (holding s bucket) id).0 }
        → Move s u
    -- the loop takes a token, and starts a crawl
    start :
        (id : ℕ) (bucket : List ℕ) (d : Dispatch)
        → s.cm.token_bucket ≡ id ∷ bucket
        → Started (holding s bucket) id d (after_token manet (holding s bucket) id)
        → u ≡ record s {
          cm = (after_token manet (holding s bucket) id).0;
          crawling = d ∷ s.crawling;
          history = d.node.id ∷ s.history;
        }
        → Move s u
    -- the loop receives the result of a crawl
    receive :
        (i : ℕ) (d : Dispatch) (o : Outcome)
        → get_elem? s.crawling i ≡ some d
        → IsLawful o
        → u ≡ reported s i d (after_report manet s.cm (result_of d o))
        → Move s u

  give-Move :
      (s u : System) (i : ℕ) (o : Option ℕ)
      → get_elem? s.returning i ≡ o
      → give s i o ≡ ok (some u)
      → Move s u
  unfolding give
  give-Move s u i none e h = absurd (ground arith)
  give-Move s u i (some id) e h = give_back i id e (ground arith)

  take-Move :
      (total : ℕ) (s u : System) (ids : List ℕ)
      → s.cm.token_bucket ≡ ids
      → Inv total s
      → take manet s ids ≡ ok (some u)
      → Move s u
  unfolding take spawned
  take-Move total s u [] e inv h = absurd (ground arith)
  take-Move total s u (id ∷ bucket) e inv h =
      let c = bucket-IsCovered s.cm bucket inv.covered in
      let free : length bucket < s.cm.bucket_cap =
        omega (arith, inv.balance, inv.room, ap length e) in
      let done = handle_token-after manet (holding s bucket) id c.synced c.sound free in
      elim (after_token-uses manet (holding s bucket) id) [
        | inl k ↦ keep id bucket e k (ground (arith, done, k.nothing))
        | inr (d, k) ↦ start id bucket d e k (ground (arith, done, k.started))
      ]

  report-Move :
      (total : ℕ) (s u : System) (i : ℕ) (o : Outcome) (found : Option Dispatch)
      → get_elem? s.crawling i ≡ found
      → IsLawful o
      → Inv total s
      → report manet s i o found ≡ ok (some u)
      → Move s u
  unfolding report worker_index dispatch_report
  report-Move total s u i o none e x inv h = absurd (ground arith)
  report-Move total s u i o (some d) e x inv h =
      let busy = inv.flying d.node.id ∙ contains-fliers s.crawling i d e in
      let valid =
        All-get_elem? (λ (c : Dispatch). c.token < s.cm.num_workers) s.crawling i d inv.in_crawls
          e in
      let done = handle_report-after manet s.cm (result_of d o) inv.covered.sound busy x in
      receive i d o e x (ground (arith, done, valid))

  loop_step-Move :
      (total : ℕ) (s u : System) (e : Event)
      → IsFair manet e
      → Inv total s
      → loop_step manet s e ≡ ok (some u)
      → Move s u
  unfolding loop_step
  loop_step-Move total s u take_token fair inv h = take-Move total s u s.cm.token_bucket refl inv h
  loop_step-Move total s u (finish i o) fair inv h =
      report-Move total s u i o (get_elem? s.crawling i) refl fair inv h
  loop_step-Move total s u tick fair inv h =
      stay (ground (arith, count_states-counted no_counts s.cm.crawled inv.entries))
  loop_step-Move total s u (give_token i) fair inv h = absurd (ground arith)

  guarded-Move :
      (total : ℕ) (s u : System) (e : Event) (b : Bool)
      → IsFair manet e
      → Inv total s
      → (if b then loop_step manet s e else ok none) ≡ ok (some u)
      → Move s u
  guarded-Move total s u e true fair inv h = loop_step-Move total s u e fair inv h
  guarded-Move total s u e false fair inv h = absurd (ground arith)

  -- Every event that is possible makes one of the moves.
  pub step-Move :
      (total : ℕ) (s u : System) (e : Event)
      → IsFair manet e
      → Inv total s
      → step manet s e ≡ ok (some u)
      → Move s u
  unfolding step
  step-Move total s u (give_token i) fair inv h = give-Move s u i (get_elem? s.returning i) refl h
  step-Move total s u take_token fair inv h =
      guarded-Move total s u take_token (has_work s.cm) fair inv h
  step-Move total s u (finish i o) fair inv h =
      guarded-Move total s u (finish i o) (has_work s.cm) fair inv h
  step-Move total s u tick fair inv h = guarded-Move total s u tick (has_work s.cm) fair inv h
