-- ===== src/System/Invariant/Reports.antt =====
-- The invariant of the loop of crawling/crawlmanager.go where the loop receives a result.
use ipfs_crawler.Prelude.{
  ℕ, ◌<◌, ◌≡◌, refl, sym, ap, ◌∙◌, subst, ◌∷◌, Option, none, some, text_dec, arith, get_elem?,
  erase_idx, length, All, All-get_elem?, All-erase_idx, length-erase_idx, lt→ltb,
}
use ipfs_crawler.Panic.{Returns}
use ipfs_crawler.Types.{NodeCrawlResult, Exclusive}
use ipfs_crawler.GoMap.{keys}
use ipfs_crawler.GoMap.Laws.{contains-remove, keys-insert, Distinct-add}
use ipfs_crawler.AddrTools.{Manet}
use ipfs_crawler.Manager.{Dispatch, worker_index, dispatch_report, to_status, upsert_crawl_result}
use ipfs_crawler.Manager.Pure.{to_status-Exclusive, after_report, handle_report-after}
use ipfs_crawler.Manager.Frames.{after_report-frame}
use ipfs_crawler.Manager.Coverage.Handlers.{after_report-IsCovered}
use ipfs_crawler.System.{System, Outcome, IsLawful, report}
use ipfs_crawler.System.Fliers.{contains-fliers, contains-erase, Distinct-erase}
use ipfs_crawler.System.Invariant.{Inv, All-insert, Keeps}

module _ (manet : Manet) (total : ℕ) where
  report-done :
      (s : System) (i : ℕ) (d : Dispatch) (r : NodeCrawlResult)
      → get_elem? s.crawling i ≡ some d
      → r.id ≡ d.node.id
      → Exclusive r.err r.node
      → Inv total s
      → Inv total (record s {
        cm = after_report manet s.cm r;
        crawling = erase_idx s.crawling i;
        returning = d.token ∷ s.returning;
      })
  unfolding upsert_crawl_result
  report-done s i d r e same x h =
      let f = after_report-frame manet s.cm r in
      let valid =
        All-get_elem? (λ (c : Dispatch). c.token < s.cm.num_workers) s.crawling i d h.in_crawls e in
      record {
        covered = after_report-IsCovered manet s.cm r x h.covered;
        entries =
            rw f.crawled
              (All-insert s.cm.crawled r.id (to_status r) (to_status-Exclusive r x) h.entries);
        unique =
            rw (f.crawled, keys-insert text_dec r.id (to_status r) s.cm.crawled)
              (Distinct-add text_dec r.id (keys s.cm.crawled) h.unique);
        balance = omega (arith, h.balance, ap length f.bucket, length-erase_idx s.crawling i d e);
        room = omega (arith, h.room, f.cap);
        in_bucket = rw (f.workers, f.bucket) h.in_bucket;
        in_crawls =
            rw f.workers (
              All-erase_idx (λ (c : Dispatch). c.token < s.cm.num_workers) s.crawling i
                h.in_crawls);
        in_returns = (
          rw f.workers valid,
          subst (λ n. All (λ t. t < n) s.returning) (sym f.workers) h.in_returns,
        );
        apart = Distinct-erase s.crawling i h.apart;
        flying = λ k. ground (
          arith,
          f.in_progress,
          contains-remove text_dec k r.id s.cm.crawls_in_progress,
          h.flying k,
          contains-erase s.crawling i d k e h.apart,
        );
      }

  pub report-Inv :
      (s : System) (i : ℕ) (o : Outcome) (found : Option Dispatch)
      → get_elem? s.crawling i ≡ found
      → IsLawful o
      → Inv total s
      → Returns (report manet s i o found) (Keeps total)
  unfolding report worker_index dispatch_report
  report-Inv s i o none e x h = tt
  report-Inv s i o (some d) e x h =
      let r = dispatch_report d o.node o.err o.before o.after in
      let valid =
        All-get_elem? (λ (c : Dispatch). c.token < s.cm.num_workers) s.crawling i d h.in_crawls e in
      let busy = h.flying d.node.id ∙ contains-fliers s.crawling i d e in
      rw (lt→ltb _ _ valid, handle_report-after manet s.cm r h.covered.sound busy x)
        (report-done s i d r e refl x h)
