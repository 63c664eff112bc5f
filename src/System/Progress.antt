-- ===== src/System/Progress.antt =====
-- `CrawlNetwork` of crawling/crawlmanager.go: the way from a state to the end of the loop.
use ipfs_crawler.Prelude.{
  ℕ, zero, suc, ◌+◌, ◌*◌, ◌<◌, ◌≡◌, ◌≢◌, refl, ap, ◌∙◌, true, false, List, [], ◌∷◌, ◌++◌, Option,
  none, some, arith, length, text_dec, inl, inr, Bool-cases, List-cases, get_elem?, erase_idx,
  lt→ltb, All-get_elem?,
}
use ipfs_crawler.Panic.{ok}
use ipfs_crawler.Types.{PeerId}
use ipfs_crawler.GoMap.{contains}
use ipfs_crawler.AddrTools.{Manet}
use ipfs_crawler.Queue.{len}
use ipfs_crawler.Queue.Sync.{pop-popped}
use ipfs_crawler.Manager.{
  CrawlManager, has_work, worker_index, dispatch_report, upsert_crawl_result, start_crawl, Dispatch,
}
use ipfs_crawler.Manager.Pure.{
  offers, after_report, after_pop, after_token, handle_token-after, handle_report-after,
}
use ipfs_crawler.Manager.Coverage.{bucket-IsCovered}
use ipfs_crawler.System.{
  System, Outcome, Event, take_token, finish, give_token, step, loop_step, take, give, report,
  spawned, IsFair, Run, here, next,
}
use ipfs_crawler.System.Fliers.{fliers, contains-fliers}
use ipfs_crawler.System.Invariant.{Inv}
use ipfs_crawler.System.Invariant.Runs.{Run-Inv}
use ipfs_crawler.System.Moves.{holding, reported, result_of}

-- The steps that are left if every crawl from now on fails.
abbrev work_left : System → ℕ
work_left s = 3 * length s.cm.to_crawl.queue + 2 * length s.crawling + length s.returning

-- A crawl that fails to connect.
abbrev failure : Outcome
failure = record { node = none; err = some "dial"; before = 0; after = 0 }

module _ (manet : Manet) (total : ℕ) where
  Run-trans : {s t u : System} → Run manet s t → Run manet t u → Run manet s u
  Run-trans r here = r
  Run-trans r (next run e fair eq) = next (Run-trans r run) e fair eq

  -- A step that is possible, and takes the run nearer to its end.
  abbrev Nearer : System → Type 0
  Nearer s =
      (e : Event) × (u : System) × IsFair manet e
      × (step manet s e ≡ ok (some u))
      × (work_left u < work_left s)

  give-Nearer :
      (s : System) (id : ℕ) (rest : List ℕ) → Inv total s → s.returning ≡ id ∷ rest → Nearer s
  unfolding step give
  give-Nearer s id rest inv e =
      let free : length s.cm.token_bucket < s.cm.bucket_cap =
        omega (arith, inv.balance, inv.room, ap length e) in
      (
        give_token 0,
        record s {
          cm = record (s.cm) { token_bucket = s.cm.token_bucket ++ id ∷ [] };
          returning = erase_idx s.returning 0;
        },
        tt,
        ground (arith, e, lt→ltb _ _ free),
        omega (arith, ap length e, ap (λ xs. length (erase_idx xs 0)) e),
      )

  failure_queue :
      (cm : CrawlManager) (d : Dispatch)
      → (after_report manet cm (result_of d failure)).to_crawl ≡ cm.to_crawl
  unfolding after_report dispatch_report offers upsert_crawl_result
  failure_queue cm d = refl

  finish-Nearer :
      (s : System) (d : Dispatch) (rest : List Dispatch)
      → Inv total s
      → has_work s.cm ≡ true
      → s.crawling ≡ d ∷ rest
      → Nearer s
  unfolding step loop_step report worker_index dispatch_report
  finish-Nearer s d rest inv work e =
      let found : get_elem? s.crawling 0 ≡ some d = ap (λ xs. get_elem? xs 0) e in
      let busy = inv.flying d.node.id ∙ contains-fliers s.crawling 0 d found in
      let valid =
        All-get_elem? (λ (c : Dispatch). c.token < s.cm.num_workers) s.crawling 0 d inv.in_crawls
          found in
      let r = result_of d failure in
      (
        finish 0 failure,
        reported s 0 d (after_report manet s.cm r),
        refl,
        ground (
          arith,
          work,
          found,
          lt→ltb _ _ valid,
          handle_report-after manet s.cm r inv.covered.sound busy refl,
        ),
        omega (
          arith,
          ap (λ xs. length (erase_idx xs 0)) e,
          ap length e,
          ap (λ q. length q.queue) (failure_queue s.cm d),
        ),
      )

  empty_of_absent : (xs : List PeerId) → ((k : PeerId) → contains text_dec k xs ≡ false) → xs ≡ []
  unfolding contains
  empty_of_absent [] h = refl
  empty_of_absent (x ∷ xs) h = let e = h x in absurd (ground arith)

  abbrev crawls : Option Dispatch → ℕ
  crawls none = 0
  crawls (some d) = 1

  after_pop_work :
      (cm : CrawlManager) (id : ℕ) (k : PeerId) (rest : List PeerId)
      → contains text_dec k cm.crawls_in_progress ≡ false
      → let r = after_pop manet cm id (k ∷ rest) in
        3 * length r.0.to_crawl.queue + 2 * crawls r.1 < 3 * length (k ∷ rest)
  unfolding after_pop start_crawl
  after_pop_work cm id k rest free = ground arith

  spawned_work :
      (s : System) (r : CrawlManager × Option Dispatch)
      → work_left (spawned s r.0 r.1)
        ≡ 3 * length r.0.to_crawl.queue
          + 2 * crawls r.1
          + 2 * length s.crawling
          + length s.returning
  unfolding spawned
  spawned_work s (cm, none) = omega arith
  spawned_work s (cm, some d) = omega arith

  no_crawls : (s : System) → Inv total s → s.crawling ≡ [] → s.cm.crawls_in_progress ≡ []
  unfolding contains
  no_crawls s inv c =
      empty_of_absent s.cm.crawls_in_progress
        (λ k. inv.flying k ∙ ap (λ xs. contains text_dec k (fliers xs)) c)

  waiting :
      (s : System) → has_work s.cm ≡ true → s.cm.crawls_in_progress ≡ [] → len s.cm.to_crawl ≢ 0
  unfolding has_work
  waiting s work idle e = ground (arith, ap length idle)

  -- The loop takes a token and the head of the queue.
  take_head :
      (s : System) (id : ℕ) (bucket : List ℕ) (k : PeerId) (rest : List PeerId)
      → Inv total s
      → has_work s.cm ≡ true
      → s.cm.token_bucket ≡ id ∷ bucket
      → s.cm.to_crawl.queue ≡ k ∷ rest
      → s.cm.crawls_in_progress ≡ []
      → Nearer s
  unfolding step loop_step take after_token contains
  take_head s id bucket k rest inv work b q idle =
      let c = bucket-IsCovered s.cm bucket inv.covered in
      let free : length bucket < s.cm.bucket_cap =
        omega (arith, inv.balance, inv.room, ap length b) in
      let r = after_token manet (holding s bucket) id in
      let cost = after_pop_work (holding s bucket) id k rest (ap (contains text_dec k) idle) in
      let now : r ≡ after_pop manet (holding s bucket) id (k ∷ rest) =
        ap (after_pop manet (holding s bucket) id) q in
      (
        take_token,
        spawned s r.0 r.1,
        tt,
        ground
            (arith, work, b, handle_token-after manet (holding s bucket) id c.synced c.sound free),
        omega (
          arith,
          spawned_work s r,
          cost,
          ap length q,
          ap (λ (t : CrawlManager × Option Dispatch). length t.0.to_crawl.queue) now,
          ap (λ (t : CrawlManager × Option Dispatch). crawls t.1) now,
        ),
      )

  -- While there is work, some event is possible that takes the run nearer to its end: the loop is
  -- never stuck, and never bound to spin.
  pub has_work-Nearer : (s : System) → 0 < total → Inv total s → has_work s.cm ≡ true → Nearer s
  has_work-Nearer s some_token inv work = elim (List-cases s.returning) [
    | inr (id, rest, e) ↦ give-Nearer s id rest inv e
    | inl r ↦ elim (List-cases s.crawling) [
      | inr (d, rest, e) ↦ finish-Nearer s d rest inv work e
      | inl c ↦ elim (List-cases s.cm.token_bucket) [
        | inl none_left ↦
            absurd (omega (arith, inv.balance, ap length none_left, ap length c, ap length r))
        | inr (id, bucket, b) ↦
            let idle = no_crawls s inv c in
            let (k, rest, q, _, _, _) =
              pop-popped s.cm.to_crawl (waiting s work idle) inv.covered.synced in
            take_head s id bucket k rest inv work b q idle
      ]
    ]
  ]

  finish_within :
      (fuel : ℕ) (s : System)
      → work_left s < fuel
      → 0 < total
      → Inv total s
      → (t : System) × Run manet s t × (has_work t.cm ≡ false)
  finish_within zero s h some_token inv = absurd (omega arith)
  finish_within (suc fuel) s h some_token inv = elim (Bool-cases (has_work s.cm)) [
    | inr idle ↦ (s, here, idle)
    | inl work ↦
        let (e, u, fair, eq, less) = has_work-Nearer s some_token inv work in
        let first : Run manet s u = next here e fair eq in
        let (t, run, idle) =
          finish_within fuel u (omega arith) some_token (Run-Inv manet total inv first) in
        (t, Run-trans first run, idle)
  ]

  -- From every state with the invariant and at least one token, some sequence of events leads
  -- to the end of the loop.
  pub can_finish :
      (s : System)
      → 0 < total
      → Inv total s
      → (t : System) × Run manet s t × (has_work t.cm ≡ false)
  can_finish s some_token inv = finish_within (suc (work_left s)) s (omega arith) some_token inv
