-- ===== src/Setup/Start.antt =====
-- The parts of `NewCrawlManager` of crawling/crawlmanager.go: the tokens, the workers and the
-- bootstrap peers.
use ipfs_crawler.Prelude.{
  ℕ, zero, suc, ◌+◌, ◌%◌, ◌≤◌, ◌<◌, ◌≡◌, subst, true, false, List, [], ◌∷◌, ◌++◌, String, length,
  lt→ltb, arith, All, All-append, length-append, refl,
}
use ipfs_crawler.Panic.{Returns, Exec, ok, fault, WhenOk, WhenOk-bind}
use ipfs_crawler.Result.{Result, value, >>=-eq-value, value-injective, error, ◌>>=◌}
use ipfs_crawler.Types.{PeerId, AddrInfo}
use ipfs_crawler.AddrTools.{Manet}
use ipfs_crawler.Queue.{push}
use ipfs_crawler.Manager.{CrawlManager}
use ipfs_crawler.Manager.Coverage.{tracked, IsCovered, push-IsCovered, push-keeps}
use ipfs_crawler.Setup.{
  Parsers, parse_peer_string, fill_tokens, new_workers, add_bootstrap, with_worker,
}

-- The tokens in the bucket are indices of workers, and there are `total` of them.
abbrev pub Filled : ℕ → ℕ → List ℕ → Type 0
Filled workers total bucket = (length bucket ≡ total) × All (λ t. t < workers) bucket

fill_tokens-Filled :
    (rounds i workers size : ℕ) (bucket : List ℕ)
    → 0 < workers
    → length bucket + rounds ≤ size
    → All (λ t. t < workers) bucket
    → Returns (fill_tokens rounds i workers size bucket) (Filled workers (length bucket + rounds))
unfolding fill_tokens
fill_tokens-Filled zero i workers size bucket positive fits h = (omega arith, h)
fill_tokens-Filled (suc rounds) i workers size bucket positive fits h =
    let next = bucket ++ (i % workers) ∷ [] in
    let longer = length-append bucket ((i % workers) ∷ []) in
    let valid = All-append (λ t. t < workers) bucket ((i % workers) ∷ []) h (omega arith, tt) in
    let e : length next + rounds ≡ length bucket + suc rounds = omega (arith, longer) in
    let free : length bucket < size = omega arith in
    rw (lt→ltb _ _ free) (
      subst (λ n. Returns (fill_tokens rounds (i + 1) workers size next) (Filled workers n)) e
        (fill_tokens-Filled rounds (i + 1) workers size next positive (omega (arith, longer))
          valid))

-- With at least one worker and room in the channel for all the tokens, the loop over the tokens
-- does not block: the channel then holds one token for each round, each the index of a worker.
pub fill_tokens_start :
    (rounds workers size : ℕ)
    → 0 < workers
    → rounds ≤ size
    → Returns (fill_tokens rounds 0 workers size []) (Filled workers rounds)
fill_tokens_start rounds workers size positive fits =
    let e : length {A = ℕ} [] + rounds ≡ rounds = omega arith in
    subst (λ n. Returns (fill_tokens rounds 0 workers size []) (Filled workers n)) e
      (fill_tokens-Filled rounds 0 workers size [] positive (omega arith) tt)

-- All the workers, or an error.
abbrev pub Staffed : {W : Type 0} → ℕ → Result (List W) → Type 0
Staffed n (error e) = Unit {0}
Staffed n (value ws) = length ws ≡ n

with_worker-Staffed :
    {W : Type 0} (n : ℕ) (rest : Exec (Result (List W))) (w : Result W)
    → WhenOk rest (Staffed n)
    → WhenOk (with_worker rest w) (Staffed (suc n))
unfolding with_worker
with_worker-Staffed n rest (error e) h = tt
with_worker-Staffed n (ok (error e)) (value w) h = tt
with_worker-Staffed n (ok (value ws)) (value w) h = omega (arith, h)
with_worker-Staffed n (fault e) (value w) h = tt

pub new_workers-Staffed :
    {W : Type 0} (f : ℕ → Exec (Result W)) (n i : ℕ) → WhenOk (new_workers f n i) (Staffed n)
unfolding new_workers
new_workers-Staffed f zero i = refl
new_workers-Staffed {W} f (suc n) i =
    WhenOk-bind (f i) (with_worker (new_workers f n (i + 1))) (λ (w : Result W). Unit {0})
      (Staffed (suc n)) (any (f i))
      (λ w _. with_worker-Staffed n (new_workers f n (i + 1)) w (new_workers-Staffed f n (i + 1)))
  where
    any : (m : Exec (Result W)) → WhenOk m (λ w. Unit {0})
    any (ok w) = tt
    any (fault e) = tt

with_worker-ok :
    {W : Type 0} (rest : Exec (Result (List W))) (w : Result W)
    → ((r : Result (List W)) × (rest ≡ ok r))
    → (r : Result (List W)) × (with_worker rest w ≡ ok r)
unfolding with_worker
with_worker-ok rest (error e) h = (error e, refl)
with_worker-ok rest (value w) (r, e) = (r >>= (λ ws. value (w ∷ ws)), rw (with_worker, e) refl)

-- If no call panics.
pub new_workers-ok :
    {W : Type 0} (f : ℕ → Exec (Result W)) (n i : ℕ)
    → ((j : ℕ) → (w : Result W) × (f j ≡ ok w))
    → (r : Result (List W)) × (new_workers f n i ≡ ok r)
unfolding new_workers
new_workers-ok f zero i h = (value [], refl)
new_workers-ok f (suc n) i h =
    let (w, e) = h i in
    let (r, q) = with_worker-ok (new_workers f n (i + 1)) w (new_workers-ok f n (i + 1) h) in
    (r, rw (new_workers, e) q)

-- A manager before its crawl: nothing in progress or crawled, and the invariant holds.
pub record IsReady (bucket : List ℕ) (size workers : ℕ) (cm : CrawlManager) : Type 0 where
  pub tokens : cm.token_bucket ≡ bucket
  pub capacity : cm.bucket_cap ≡ size
  pub staff : cm.num_workers ≡ workers
  pub idle : cm.crawls_in_progress ≡ []
  pub fresh : cm.crawled ≡ []
  pub covered : IsCovered cm

module _ (manet : Manet) where
  abbrev pub pushed : CrawlManager → AddrInfo → CrawlManager
  pushed cm p = record cm { to_crawl = push manet cm.to_crawl p false }

  pub pushed-IsReady :
      {bucket : List ℕ} {size workers : ℕ} (cm : CrawlManager) (p : AddrInfo)
      → IsReady bucket size workers cm
      → IsReady bucket size workers (pushed cm p)
  pushed-IsReady cm p r = record {
    tokens = r.tokens;
    capacity = r.capacity;
    staff = r.staff;
    idle = r.idle;
    fresh = r.fresh;
    covered = (push-IsCovered manet cm p r.fresh r.covered).0;
  }

  -- The bootstrap peers are queued, and stay so while more are pushed.
  pub add_bootstrap-IsReady :
      (parsers : Parsers) {bucket : List ℕ} {size workers : ℕ} (cm cm' : CrawlManager)
      (peers : List String)
      → IsReady bucket size workers cm
      → add_bootstrap manet parsers cm peers ≡ value cm'
      → IsReady bucket size workers cm'
        × ((k : PeerId) → tracked cm k ≡ true → tracked cm' k ≡ true)
        × All
            (λ text.
              (p : AddrInfo) × (parse_peer_string parsers text ≡ value p)
              × (tracked cm' p.id ≡ true))
            peers
  unfolding add_bootstrap
  add_bootstrap-IsReady parsers {bucket} {size} {workers} cm cm' [] r e =
      subst
        (λ c.
          IsReady bucket size workers c
          × ((k : PeerId) → tracked cm k ≡ true → tracked c k ≡ true)
          × Unit {0})
        (value-injective e) (r, λ k t. t, tt)
  add_bootstrap-IsReady parsers cm cm' (text ∷ peers) r e =
      let (p, parsed, e₁) = >>=-eq-value (parse_peer_string parsers text) _ e in
      let (ready, keeps, rest) =
        add_bootstrap-IsReady parsers (pushed cm p) cm' peers (pushed-IsReady cm p r) e₁ in
      (
        ready,
        λ k t. keeps k (push-keeps manet cm p k t),
        ((p, parsed, keeps p.id (push-IsCovered manet cm p r.fresh r.covered).1), rest),
      )
