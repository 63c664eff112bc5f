-- ===== src/Crawler/Handled.antt =====
-- `HandlePeer` of crawling/crawler.go: what it returns.
use Prim.Native.String.{◌++◌ as ◌<>◌}
use ipfs_crawler.Prelude.{
  String, ℕ, zero, suc, ◌<◌, ◌≡◌, refl, List, Option, none, some, arith, inl, inr, Option-cases,
}
use ipfs_crawler.Panic.{ok}
use ipfs_crawler.Result.{Result}
use ipfs_crawler.Types.{PeerId, AddrInfo, CrawlData, Error, Time, Exclusive}
use ipfs_crawler.Config.{CrawlerConfig, check_crawler}
use ipfs_crawler.Preimage.{PreimageHandler, BinId}
use ipfs_crawler.Crawler.{
  Reply, retry, Exchange, Progress, concluded, conclude, crawled_data, on_stream, handle_peer,
}
use ipfs_crawler.Crawler.Answers.{full_neighbor_crawl-Gathers}

-- What every call's result satisfies, the last result satisfies, if there is a call at all.
retry_all :
    {A : Type 0} (P : Reply A → Type 0) (n i : ℕ) (call : ℕ → Reply A) (last : Reply A)
    → P last
    → ((j : ℕ) → P (call j))
    → P (retry n i call last)
unfolding retry
retry_all P zero i call last before h = before
retry_all P (suc n) i call last before h = elim (Option-cases ((call i).err)) [
  | inl e ↦ rw (retry, e) (h i)
  | inr (x, e) ↦ rw (retry, e) (retry_all P n (suc i) call (call i) (h i) h)
]

pub retry_last :
    {A : Type 0} (P : Reply A → Type 0) (n : ℕ) (call : ℕ → Reply A) (last : Reply A)
    → 0 < n
    → ((j : ℕ) → P (call j))
    → P (retry n 0 call last)
unfolding retry
retry_last P zero call last positive h = absurd (omega arith)
retry_last P (suc n) call last positive h = retry_all P (suc n) 0 call (call 0) (h 0) h

concluded-Exclusive :
    (st : Progress) (started finished : Time) (e : Option Error)
    → Exclusive (concluded st started finished e).err (concluded st started finished e).content
unfolding concluded crawled_data
concluded-Exclusive st started finished none = refl
concluded-Exclusive st started finished (some e) = ground arith

attempts_of_check :
    (config : CrawlerConfig) → check_crawler config ≡ none → 0 < config.interaction_attempts
unfolding check_crawler
attempts_of_check config e = ground arith

module _ {S : Type 0} (ph : PreimageHandler) (kad : PeerId → BinId)
    (unmarshal : String → Result (List AddrInfo)) (answer : ℕ → ℕ → ℕ → Exchange)
    (config : CrawlerConfig) (p : PeerId) where
  on_stream-Exclusive :
      (stream : Reply (Option S)) (started finished : Time)
      → Exclusive stream.err stream.content
      → (r : Reply (Option CrawlData)) × (on_stream ph kad unmarshal answer config p stream started
            finished
          ≡ ok (some r))
        × Exclusive r.err r.content
  unfolding on_stream conclude
  on_stream-Exclusive stream started finished x = elim (Option-cases stream.err) [
    | inr (e, q) ↦
        (record { content = none; err = some ("unable to open stream: " <> e) }, rw q refl, refl)
    | inl q ↦ elim (Option-cases stream.content) [
      | inl none_open ↦ absurd (ground arith)
      | inr (s, opened) ↦
          let (st, n, e, _, _, _, _, _) =
            full_neighbor_crawl-Gathers ph kad unmarshal answer config p in
          (
            concluded st started finished st.err,
            rw (q, opened, e) refl,
            concluded-Exclusive st started finished st.err,
          )
    ]
  ]

  -- With a configuration that passes its check, and streams that are opened or give an error,
  -- `HandlePeer` comes to an end without a panic and returns data or an error, never both and never
  -- neither.
  pub handle_peer-Exclusive :
      (new_stream : ℕ → Reply (Option S)) (started finished : Time)
      → check_crawler config ≡ none
      → ((i : ℕ) → Exclusive (new_stream i).err (new_stream i).content)
      → (r : Reply (Option CrawlData)) × (handle_peer ph kad unmarshal answer config p new_stream
            started finished
          ≡ ok (some r))
        × Exclusive r.err r.content
  unfolding handle_peer
  handle_peer-Exclusive new_stream started finished passed streams =
      on_stream-Exclusive _ started finished (
        retry_last (λ r. Exclusive r.err r.content) config.interaction_attempts new_stream
          (record { content = none; err = none }) (attempts_of_check config passed) streams)
