-- ===== src/System/Contacts.antt =====
-- `CrawlNetwork` of crawling/crawlmanager.go: which peers it contacts again.
use ipfs_crawler.Prelude.{
  ℕ, ◌+◌, ◌≡◌, refl, ap, ◌∙◌, true, false, List, [], ◌∷◌, Option, none, some, arith, length,
  is_some, text_dec, ◌||◌, ite,
}
use ipfs_crawler.Types.{PeerId, NodeCrawlStatus, NodeCrawlResult}
use ipfs_crawler.GoMap.{contains, lookup}
use ipfs_crawler.GoMap.Laws.{lookup-insert, contains-add, contains-remove}
use ipfs_crawler.AddrTools.{Manet}
use ipfs_crawler.Manager.{CrawlManager, dispatch_report, to_status, upsert_crawl_result}
use ipfs_crawler.Manager.Pure.{done, is_done, is_ok, after_report}
use ipfs_crawler.Manager.Frames.{after_report-frame}
use ipfs_crawler.Panic.{ok}
use ipfs_crawler.System.{System, Event, IsFair, step, Run, here, next}
use ipfs_crawler.System.Fliers.{contains-fliers}
use ipfs_crawler.System.Invariant.{Inv}
use ipfs_crawler.System.Invariant.Runs.{Run-Inv}
use ipfs_crawler.System.Moves.{Move, stay, give_back, keep, start, receive, result_of, step-Move}

-- A peer that a crawl was started for is being crawled, or in the database; and a peer that was
-- crawled with success is not being crawled.
pub record Contacted (s : System) : Type 0 where
  pub accounted :
      (k : PeerId)
      → contains text_dec k s.history ≡ true
      → (contains text_dec k s.cm.crawls_in_progress || is_some (lookup text_dec k s.cm.crawled))
        ≡ true
  pub settled :
      (k : PeerId) → done s.cm k ≡ true → contains text_dec k s.cm.crawls_in_progress ≡ false

-- How often `k` stands in the list.
abbrev pub times : PeerId → List PeerId → ℕ
times k [] = 0
times k (x ∷ xs) = ite (text_dec x k) (times k xs + 1) (times k xs)

longer : {h' : List PeerId} (h : List PeerId) (k : PeerId) → h' ≡ h → h' ≡ k ∷ h → ⊥
longer h k e g = omega (arith, ap length e, ap length g)

module _ (manet : Manet) where
  receive-crawled :
      (cm : CrawlManager) (r : NodeCrawlResult) (k : PeerId)
      → lookup text_dec k (after_report manet cm r).crawled
        ≡ ite (text_dec r.id k) (some (to_status r)) (lookup text_dec k cm.crawled)
  unfolding upsert_crawl_result
  receive-crawled cm r k =
      rw (after_report-frame manet cm r).crawled
        (lookup-insert text_dec k r.id (to_status r) cm.crawled)

  receive-progress :
      (cm : CrawlManager) (r : NodeCrawlResult) (k : PeerId)
      → contains text_dec k (after_report manet cm r).crawls_in_progress
        ≡ ite (text_dec r.id k) false (contains text_dec k cm.crawls_in_progress)
  unfolding upsert_crawl_result
  receive-progress cm r k =
      rw (after_report-frame manet cm r).in_progress
        (contains-remove text_dec k r.id cm.crawls_in_progress)

  Move-Contacted : {s u : System} → Move manet s u → Contacted s → Contacted u
  unfolding contains
  Move-Contacted (stay e) c = rw e c
  Move-Contacted (give_back i id g e) c =
      rw e (record { accounted = c.accounted; settled = c.settled })
  Move-Contacted (keep id bucket b m e) c = rw e (record {
    accounted = λ k h. rw (m.in_progress, m.crawled) (c.accounted k h);
    settled = λ k h. rw m.in_progress (c.settled k (rw m.crawled at h));
  })
  Move-Contacted {s} (start id bucket d b m e) c = rw e (record {
    accounted = λ k h. ground (
      arith,
      m.in_progress,
      m.crawled,
      contains-add text_dec k d.node.id s.cm.crawls_in_progress,
      c.accounted k,
    );
    settled = λ k h. ground (
      arith,
      m.in_progress,
      m.crawled,
      m.undone,
      contains-add text_dec k d.node.id s.cm.crawls_in_progress,
      c.settled k,
    );
  })
  Move-Contacted {s} (receive i d o g x e) c =
      let r = result_of d o in
      rw e (record {
        accounted = λ k h.
            ground (arith, receive-crawled s.cm r k, receive-progress s.cm r k, c.accounted k h);
        settled =
            λ k h. ground (arith, receive-crawled s.cm r k, receive-progress s.cm r k, c.settled k);
      })

  pub Run-Contacted :
      {total : ℕ} {s t : System} → Inv total s → Contacted s → Run manet s t → Contacted t
  Run-Contacted inv c here = c
  Run-Contacted {total} inv c (next {t} {u} run e fair eq) =
      Move-Contacted (step-Move manet total t u e fair (Run-Inv manet total inv run) eq)
        (Run-Contacted inv c run)

  start_state :
      (s u : System) (k : PeerId)
      → Move manet s u
      → u.history ≡ k ∷ s.history
      → (contains text_dec k s.cm.crawls_in_progress ≡ false) × (done s.cm k ≡ false)
  start_state s u k (stay e) h = absurd (longer s.history k (ap (λ (v : System). v.history) e) h)
  start_state s u k (give_back i id g e) h =
      absurd (longer s.history k (ap (λ (v : System). v.history) e) h)
  start_state s u k (keep id bucket b m e) h =
      absurd (longer s.history k (ap (λ (v : System). v.history) e) h)
  start_state s u k (start id bucket d b m e) h =
      let same : k ≡ d.node.id = cc (h, ap (λ (v : System). v.history) e) in
      (rw same m.idle, rw same m.undone)
  start_state s u k (receive i d o g x e) h =
      absurd (longer s.history k (ap (λ (v : System). v.history) e) h)

  failed_before :
      (o : Option NodeCrawlStatus)
      → is_some o ≡ true
      → is_done o ≡ false
      → (st : NodeCrawlStatus) × (o ≡ some st) × (is_ok st ≡ false)
  failed_before none h n = cc
  failed_before (some st) h n = (st, refl, n)

  module _ (total : ℕ) (s t u : System) (inv : Inv total s) (fresh : Contacted s)
      (run : Run manet s t) where
    -- In a run from a state with the invariant in which each contacted peer is accounted for,
    -- let an event start a crawl of a peer that was contacted before. Then no crawl of this
    -- peer is under way, and its last result is in the database and is an error, of the
    -- connection or of the crawl.
    pub contact_again :
        (e : Event) (k : PeerId)
        → IsFair manet e
        → step manet t e ≡ ok (some u)
        → u.history ≡ k ∷ t.history
        → contains text_dec k t.history ≡ true
        → (st : NodeCrawlStatus) × (lookup text_dec k t.cm.crawled ≡ some st)
          × (is_ok st ≡ false)
          × (contains text_dec k t.cm.crawls_in_progress ≡ false)
    contact_again e k fair eq grows before =
        let (idle, undone) =
          start_state t u k (step-Move manet total t u e fair (Run-Inv manet total inv run) eq)
            grows in
        let (st, found, failed) =
          failed_before (lookup text_dec k t.cm.crawled)
            (ground (arith, (Run-Contacted inv fresh run).accounted k before)) undone in
        (st, found, failed, idle)

  Move-final :
      {total : ℕ} {s u : System} (k : PeerId)
      → Inv total s
      → Move manet s u
      → Contacted s
      → done s.cm k ≡ true
      → (lookup text_dec k u.cm.crawled ≡ lookup text_dec k s.cm.crawled)
        × (times k u.history ≡ times k s.history)
  unfolding dispatch_report
  Move-final {s = s} k inv (stay e) c h = rw e (refl, refl)
  Move-final {s = s} k inv (give_back i id g e) c h = rw e (refl, refl)
  Move-final {s = s} k inv (keep id bucket b m e) c h = rw e (rw m.crawled refl, refl)
  Move-final {s = s} k inv (start id bucket d b m e) c h =
      rw e (rw m.crawled refl, ground (arith, m.undone))
  Move-final {s = s} k inv (receive i d o g x e) c h =
      let r = result_of d o in
      rw e (
        ground (
          arith,
          receive-crawled s.cm r k,
          c.settled k h,
          inv.flying d.node.id,
          contains-fliers s.crawling i d g,
        ),
        refl,
      )

  -- In a run from a state with the invariant in which each contacted peer is accounted for, a
  -- peer that was crawled with success keeps its entry and is not contacted again.
  pub success_final :
      {total : ℕ} {s t : System} (k : PeerId)
      → Inv total s
      → Contacted s
      → done s.cm k ≡ true
      → Run manet s t
      → (lookup text_dec k t.cm.crawled ≡ lookup text_dec k s.cm.crawled)
        × (times k t.history ≡ times k s.history)
  success_final k inv c h here = (refl, refl)
  success_final {total} {s} k inv c h (next {t} {u} run e fair eq) =
      let (same, count) = success_final k inv c h run in
      let still : done t.cm k ≡ true = rw same h in
      let (same', count') =
        Move-final k (Run-Inv manet total inv run)
          (step-Move manet total t u e fair (Run-Inv manet total inv run) eq)
          (Run-Contacted inv c run) still in
      (same' ∙ same, count' ∙ count)
