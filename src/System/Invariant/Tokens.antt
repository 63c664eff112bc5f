-- ===== src/System/Invariant/Tokens.antt =====
-- The invariant of the loop of crawling/crawlmanager.go where the loop receives a token.
use ipfs_crawler.Prelude.{
  ℕ, ◌<◌, ◌≡◌, sym, ap, ◌∙◌, subst, List, [], ◌∷◌, Option, text_dec, arith, length, All, All-append,
  length-append, inl, inr,
}
use ipfs_crawler.Panic.{Returns}
use ipfs_crawler.GoMap.{contains}
use ipfs_crawler.GoMap.Laws.{contains-add}
use ipfs_crawler.AddrTools.{Manet}
use ipfs_crawler.Manager.{CrawlManager, Dispatch}
use ipfs_crawler.Manager.Pure.{after_token, handle_token-after}
use ipfs_crawler.Manager.Frames.{Kept, Started, after_token-uses}
use ipfs_crawler.Manager.Coverage.{IsCovered, bucket-IsCovered}
use ipfs_crawler.Manager.Coverage.Handlers.{after_token-IsCovered}
use ipfs_crawler.System.{System, spawned, take}
use ipfs_crawler.System.Invariant.{Inv, Keeps}

module _ (manet : Manet) (total : ℕ) where
  take-Kept :
      (s : System) (id : ℕ) (bucket : List ℕ) (r : CrawlManager × Option Dispatch)
      → s.cm.token_bucket ≡ id ∷ bucket
      → Kept (record (s.cm) { token_bucket = bucket }) id r
      → IsCovered r.0
      → Inv total s
      → Inv total (spawned s r.0 r.1)
  unfolding spawned
  take-Kept s id bucket (cm', started) e k c h =
      let split : All (λ t. t < s.cm.num_workers) (id ∷ bucket) = rw e at h.in_bucket in
      rw k.nothing (record {
        covered = c;
        entries = rw k.crawled h.entries;
        unique = rw k.crawled h.unique;
        balance =
            omega
              (arith, h.balance, ap length e, ap length k.bucket, length-append bucket (id ∷ []));
        room = omega (arith, h.room, k.cap);
        in_bucket =
            rw (k.workers, k.bucket)
              (All-append (λ t. t < s.cm.num_workers) bucket (id ∷ []) split.1 (split.0, tt));
        in_crawls = rw k.workers h.in_crawls;
        in_returns = rw k.workers h.in_returns;
        apart = h.apart;
        flying = λ j. rw k.in_progress (h.flying j);
      })

  take-Started :
      (s : System) (id : ℕ) (bucket : List ℕ) (d : Dispatch) (r : CrawlManager × Option Dispatch)
      → s.cm.token_bucket ≡ id ∷ bucket
      → Started (record (s.cm) { token_bucket = bucket }) id d r
      → IsCovered r.0
      → Inv total s
      → Inv total (spawned s r.0 r.1)
  unfolding spawned contains
  take-Started s id bucket d (cm', started) e k c h =
      let split : All (λ t. t < s.cm.num_workers) (id ∷ bucket) = rw e at h.in_bucket in
      rw k.started (record {
        covered = c;
        entries = rw k.crawled h.entries;
        unique = rw k.crawled h.unique;
        balance = omega (arith, h.balance, ap length e, ap length k.bucket);
        room = omega (arith, h.room, k.cap);
        in_bucket = rw (k.workers, k.bucket) split.1;
        in_crawls = (
          rw (k.workers, k.token) split.0,
          subst (λ n. All (λ (c : Dispatch). c.token < n) s.crawling) (sym k.workers) h.in_crawls,
        );
        in_returns = rw k.workers h.in_returns;
        apart = (sym (h.flying d.node.id) ∙ k.idle, h.apart);
        flying = λ j. ground (
          arith,
          k.in_progress,
          contains-add text_dec j d.node.id s.cm.crawls_in_progress,
          h.flying j,
        );
      })

  pub take-Inv :
      (s : System) (ids : List ℕ)
      → s.cm.token_bucket ≡ ids
      → Inv total s
      → Returns (take manet s ids) (Keeps total)
  unfolding take
  take-Inv s [] e h = tt
  take-Inv s (id ∷ bucket) e h =
      let cm = record (s.cm) { token_bucket = bucket } in
      let c = bucket-IsCovered s.cm bucket h.covered in
      let free : length bucket < s.cm.bucket_cap = omega (arith, h.balance, h.room, ap length e) in
      rw (handle_token-after manet cm id c.synced c.sound free)
        (elim (after_token-uses manet cm id) [
          | inl k ↦
              take-Kept s id bucket (after_token manet cm id) e k
                (after_token-IsCovered manet cm id c) h
          | inr (d, k) ↦
              take-Started s id bucket d (after_token manet cm id) e k
                (after_token-IsCovered manet cm id c) h
        ])
