-- ===== src/Queue/Budget.antt =====
-- `toCrawlQueue.push` of crawling/crawlmanager.go: the places in the queue that it adds, against the
-- addresses that it stores.
use ipfs_crawler.Prelude.{
  ℕ, suc, ◌+◌, ◌≤◌, ◌≡◌, refl, true, false, List, [], ◌∷◌, ◌++◌, Option, none, some, arith, length,
  length-append, text_dec, inl, inr, Bool-cases,
}
use ipfs_crawler.Types.{PeerId, Multiaddr, AddrInfo}
use ipfs_crawler.GoMap.{contains, lookup}
use ipfs_crawler.GoMap.Laws.{lookup-insert, contains-append}
use ipfs_crawler.AddrTools.{Manet}
use ipfs_crawler.Queue.{ToCrawlQueue, push, push_known, push_unforced}
use ipfs_crawler.Queue.Sync.{IsSynced}

-- One, if the peer is in the queue.
abbrev pub queued : ToCrawlQueue → PeerId → ℕ
queued q k = elim (contains text_dec k q.queue) [ true ↦ 1 | false ↦ 0 ]

abbrev pub allowed : Option (List Multiaddr) → ℕ
allowed none = 0
allowed (some addrs) = suc (length addrs)

-- Once for the peer, and once for each address that is stored for it.
abbrev pub allowance : ToCrawlQueue → PeerId → ℕ
allowance q k = allowed (lookup text_dec k q.addr_info)

module _ (q : ToCrawlQueue) (p : AddrInfo) (k : PeerId) where
  -- The allowance grows by as much as the queue does.
  abbrev pub Paid : ToCrawlQueue → Type 0
  Paid q' = queued q' k + allowance q k ≤ queued q k + allowance q' k

  push_known-Paid :
      (old new : List Multiaddr)
      → IsSynced q
      → lookup text_dec p.id q.addr_info ≡ some old
      → Paid (push_known q p old new)
  unfolding push_known contains
  push_known-Paid old [] h e = omega arith
  push_known-Paid old (a ∷ as') h e = elim (Bool-cases (contains text_dec p.id q.in_queue)) [
    | inl there ↦ rw there (
        ground (
          arith,
          lookup-insert text_dec k p.id (old ++ a ∷ as') q.addr_info,
          length-append old (a ∷ as'),
        ))
    | inr gone ↦ rw gone (
        ground (
          arith,
          lookup-insert text_dec k p.id (old ++ a ∷ as') q.addr_info,
          length-append old (a ∷ as'),
          contains-append text_dec k q.queue (p.id ∷ []),
          h.same p.id,
        ))
  ]

  push_unforced-Paid :
      (manet : Manet) (old : Option (List Multiaddr))
      → IsSynced q
      → lookup text_dec p.id q.addr_info ≡ old
      → Paid (push_unforced manet q p old)
  unfolding push_unforced contains
  push_unforced-Paid manet none h e = ground (
    arith,
    lookup-insert text_dec k p.id p.addrs q.addr_info,
    contains-append text_dec k q.queue (p.id ∷ []),
  )
  push_unforced-Paid manet (some old) h e = push_known-Paid old _ h e

  -- On a queue that is in step, a push without `force` pays for what it queues: the allowance of
  -- every peer (one contact, and one for each stored address) grows by at least as much as the
  -- peer's number of places in the queue.
  pub push-Paid : (manet : Manet) → IsSynced q → Paid (push manet q p false)
  unfolding push
  push-Paid manet h = push_unforced-Paid manet (lookup text_dec p.id q.addr_info) h refl
