-- ===== src/Tests/Crawl.antt =====
-- The theorems on runs, at the states of the small crawl.
use ipfs_crawler.Prelude.{◌≡◌, refl, true, false, [], ◌∷◌, some, arith, text_dec, is_some}
use ipfs_crawler.Panic.{Returns}
use ipfs_crawler.Types.{NodeCrawlStatus}
use ipfs_crawler.GoMap.{contains, lookup}
use ipfs_crawler.Queue.{len}
use ipfs_crawler.Manager.{has_work}
use ipfs_crawler.Manager.Pure.{is_ok}
use ipfs_crawler.System.{System, take_token, finish, step, Run, here, next}
use ipfs_crawler.System.Invariant.{Inv, Keeps}
use ipfs_crawler.System.Invariant.Runs.{step-Inv, Run-Inv}
use ipfs_crawler.System.Moves.{Move, step-Move}
use ipfs_crawler.System.Complete.{seed, link, crawl_complete, neighbors_crawled}
use ipfs_crawler.System.Contacts.{times, Contacted, Run-Contacted, contact_again, success_final}
use ipfs_crawler.System.Budget.{Within, contacts_bounded}
use ipfs_crawler.System.Progress.{can_finish}
use ipfs_crawler.Tests.Data.{manet, first, first-Inv, success}
use ipfs_crawler.Tests.Run.{
  ok_status, b_crawled, b_ended, a_again, last, b_crawled-Run, b_ended-Run, a_again-step,
  a_again-Run, last-Run, last-step,
}

step-Inv_example : Returns (step manet first take_token) (Keeps 1)
step-Inv_example = step-Inv manet 1 first take_token tt first-Inv

Run-Inv_example : Inv 1 b_crawled
Run-Inv_example = Run-Inv manet 1 first-Inv b_crawled-Run

step-Move_example : Move manet b_ended a_again
step-Move_example =
    step-Move manet 1 b_ended a_again take_token tt (Run-Inv manet 1 first-Inv b_ended-Run)
      a_again-step

crawl_complete_example : is_some (lookup text_dec "/a" last.cm.crawled) ≡ true
unfolding has_work len lookup contains text_dec
crawl_complete_example =
    crawl_complete manet 1 first last first-Inv last-Run "/a" refl
      (link "/b" (ok_status ("/a" ∷ [])) "/a" (seed "/b" refl) refl refl)

neighbors_crawled_example : is_some (lookup text_dec "/a" last.cm.crawled) ≡ true
unfolding has_work len lookup contains text_dec
neighbors_crawled_example =
    neighbors_crawled manet 1 first last first-Inv last-Run "/b" (ok_status ("/a" ∷ [])) "/a" refl
      refl refl

first-Contacted : Contacted first
unfolding contains lookup
first-Contacted = record {
  accounted = λ k h. absurd (ground arith);
  settled = λ k h. absurd (ground arith);
}

contact_again_example :
    (st : NodeCrawlStatus) × (lookup text_dec "/a" b_ended.cm.crawled ≡ some st)
    × (is_ok st ≡ false)
    × (contains text_dec "/a" b_ended.cm.crawls_in_progress ≡ false)
unfolding contains text_dec
contact_again_example =
    contact_again manet 1 first b_ended a_again first-Inv first-Contacted b_ended-Run take_token
      "/a" tt a_again-step refl refl

success_final_example :
    (lookup text_dec "/b" last.cm.crawled ≡ lookup text_dec "/b" b_ended.cm.crawled)
    × (times "/b" last.history ≡ times "/b" b_ended.history)
unfolding lookup text_dec
success_final_example =
    success_final manet "/b" (Run-Inv manet 1 first-Inv b_ended-Run)
      (Run-Contacted manet first-Inv first-Contacted b_ended-Run) refl
      (next (next here take_token tt a_again-step) (finish 0 (success [])) refl last-step)

contacts_bounded_example : Within manet "/a" last
unfolding contains lookup text_dec
contacts_bounded_example = contacts_bounded manet "/a" first-Inv (omega arith) last-Run

can_finish_example : (t : System) × Run manet a_again t × (has_work t.cm ≡ false)
can_finish_example =
    can_finish manet 1 a_again (omega arith) (Run-Inv manet 1 first-Inv a_again-Run)
