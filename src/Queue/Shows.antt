-- ===== src/Queue/Shows.antt =====
-- `push` of crawling/crawlmanager.go against the waiting line.

use ipfs_crawler.Prelude.{
  ◌≡◌, refl, sym, ◌∙◌, subst, true, false, List, [], ◌∷◌, ◌++◌, Option, none, some, text_dec, arith,
  inl, inr, Bool-cases,
}
use ipfs_crawler.Types.{PeerId, Multiaddr, AddrInfo}
use ipfs_crawler.GoMap.{contains, add, lookup, insert}
use ipfs_crawler.GoMap.Laws.{lookup-insert}
use ipfs_crawler.AddrTools.{Manet, filter_out_old_addresses, strip_local_addrs}
use ipfs_crawler.Queue.{ToCrawlQueue, push, push_known, push_unforced}
use ipfs_crawler.Queue.Sync.{IsSynced}
use ipfs_crawler.Queue.Line.{Line, write, join, arrive, known, put_line}

-- The line holds the entries of the slice, and the book the addresses.
abbrev pub Shows : ToCrawlQueue → Line → Type 0
Shows q l = (q.queue ≡ l.waiting) × ((k : PeerId) → lookup text_dec k q.addr_info ≡ l.book k)

module _ (manet : Manet) (q : ToCrawlQueue) (h : IsSynced q) where
  -- A peer joins the line and the book.
  enqueued-Shows :
      (l : Line) (id : PeerId) (addrs : List Multiaddr)
      → Shows q l
      → contains text_dec id q.queue ≡ false
      → Shows
          (record {
            queue = q.queue ++ id ∷ [];
            in_queue = add text_dec id q.in_queue;
            addr_info = insert text_dec id addrs q.addr_info;
          })
          (record { waiting = join id l.waiting; book = write id addrs l.book })
  unfolding join write
  enqueued-Shows l id addrs s absent = (
    ground (arith, s.0),
    λ k. ground (arith, lookup-insert text_dec k id addrs q.addr_info, s.1 k),
  )

  -- A peer in the line gets addresses in the book.
  updated-Shows :
      (l : Line) (id : PeerId) (addrs : List Multiaddr)
      → Shows q l
      → contains text_dec id q.queue ≡ true
      → Shows
          (record q { addr_info = insert text_dec id addrs q.addr_info })
          (record { waiting = join id l.waiting; book = write id addrs l.book })
  unfolding join write
  updated-Shows l id addrs s present = (
    ground (arith, s.0),
    λ k. ground (arith, lookup-insert text_dec k id addrs q.addr_info, s.1 k),
  )

  push_known-Shows :
      (l : Line) (p : AddrInfo) (old new : List Multiaddr)
      → Shows q l
      → Shows (push_known q p old new) (arrive l p (some old) new)
  unfolding push_known arrive
  push_known-Shows l p old [] s = s
  push_known-Shows l p old (a ∷ new) s = elim (Bool-cases (contains text_dec p.id q.in_queue)) [
    | inl e ↦
        rw (push_known, arrive, e) (updated-Shows l p.id (old ++ a ∷ new) s (sym (h.same p.id) ∙ e))
    | inr e ↦
        rw (push_known, arrive, e)
          (enqueued-Shows l p.id (old ++ a ∷ new) s (sym (h.same p.id) ∙ e))
  ]

  push_unforced-Shows :
      (l : Line) (p : AddrInfo) (old : Option (List Multiaddr))
      → lookup text_dec p.id q.addr_info ≡ old
      → Shows q l
      → Shows
          (push_unforced manet q p old)
          (arrive l p old (filter_out_old_addresses (known old) (strip_local_addrs manet p.addrs)))
  unfolding push_unforced arrive known
  push_unforced-Shows l p none e s = enqueued-Shows l p.id p.addrs s (ground (arith, h.known p.id))
  push_unforced-Shows l p (some old) e s = push_known-Shows l p old _ s

  pub push-Shows :
      (l : Line) (p : AddrInfo) → Shows q l → Shows (push manet q p false) (put_line manet l p)
  unfolding push put_line
  push-Shows l p s =
      subst
        (λ o.
          Shows (push_unforced manet q p (lookup text_dec p.id q.addr_info))
            (arrive l p o (filter_out_old_addresses (known o) (strip_local_addrs manet p.addrs))))
        (s.1 p.id) (push_unforced-Shows l p _ refl s)
