-- ===== src/Queue.antt =====
-- `toCrawlQueue` of crawling/crawlmanager.go.
pub mod Sync
pub mod Budget
pub mod Line
pub mod Shows
pub mod Refine
use ipfs_crawler.Prelude.{
  ℕ, Bool, true, false, List, [], ◌∷◌, ◌++◌, Option, none, some, if◌then◌else◌, length, text_dec,
  ◌==◌,
}
use ipfs_crawler.Panic.{Exec, ok, fault, empty_queue, out_of_range}
use ipfs_crawler.Types.{PeerId, Multiaddr, AddrInfo}
use ipfs_crawler.GoMap.{contains, add, remove, lookup, insert}
use ipfs_crawler.AddrTools.{Manet, filter_out_old_addresses, strip_local_addrs}

pub record ToCrawlQueue : Type 0 where
  pub queue : List PeerId
  pub in_queue : List PeerId
  pub addr_info : List (PeerId × List Multiaddr)

abbrev pub empty : ToCrawlQueue
empty = record { queue = []; in_queue = []; addr_info = [] }

unfoldable pub num_peers : ToCrawlQueue → ℕ
num_peers q = length q.addr_info

unfoldable pub len : ToCrawlQueue → ℕ
len q = length q.in_queue

-- A slice that may be missing from its map: `nil` has no entries.
unfoldable pub or_nil : Option (List Multiaddr) → List Multiaddr
or_nil none = []
or_nil (some addrs) = addrs

-- `q.addrInfo[id]`
unfoldable pub addrs_of : ToCrawlQueue → PeerId → List Multiaddr
unfolding or_nil
addrs_of q id = or_nil (lookup text_dec id q.addr_info)

-- `pop` behind its check: the first entry leaves the slice and the set.
unfoldable pub pop_front : ToCrawlQueue → List PeerId → Exec (AddrInfo × ToCrawlQueue)
unfolding addrs_of
pop_front q [] = fault out_of_range
pop_front q (id ∷ rest) = ok (
  record { id = id; addrs = addrs_of q id },
  record q { queue = rest; in_queue = remove text_dec id q.in_queue },
)

unfoldable pub pop : ToCrawlQueue → Exec (AddrInfo × ToCrawlQueue)
unfolding pop_front len
pop q = if len q == 0 then fault empty_queue else pop_front q q.queue

-- the rest of `push`, for a peer that is known with the addresses `old`
unfoldable pub push_known : ToCrawlQueue → AddrInfo → List Multiaddr → List Multiaddr → ToCrawlQueue
push_known q p old [] = q
push_known q p old (a ∷ as') =
    let addr_info' = insert text_dec p.id (old ++ a ∷ as') q.addr_info in
    if contains text_dec p.id q.in_queue then record q { addr_info = addr_info' } else record {
      queue = q.queue ++ p.id ∷ [];
      in_queue = add text_dec p.id q.in_queue;
      addr_info = addr_info';
    }

module _ (manet : Manet) where
  -- the first branch of `push`
  unfoldable pub push_forced : ToCrawlQueue → AddrInfo → ToCrawlQueue
  unfolding addrs_of
  push_forced q p =
      let old = addrs_of q p.id in
      let new_addrs = filter_out_old_addresses old (strip_local_addrs manet p.addrs) in
      record {
        queue = q.queue ++ p.id ∷ [];
        in_queue = add text_dec p.id q.in_queue;
        addr_info = insert text_dec p.id (old ++ new_addrs) q.addr_info;
      }

  unfoldable pub push_unforced : ToCrawlQueue → AddrInfo → Option (List Multiaddr) → ToCrawlQueue
  unfolding push_known
  push_unforced q p none = record {
    queue = q.queue ++ p.id ∷ [];
    in_queue = add text_dec p.id q.in_queue;
    addr_info = insert text_dec p.id p.addrs q.addr_info;
  }
  push_unforced q p (some old) =
      push_known q p old (filter_out_old_addresses old (strip_local_addrs manet p.addrs))

  unfoldable pub push : ToCrawlQueue → AddrInfo → Bool → ToCrawlQueue
  unfolding push_forced push_unforced
  push q p force =
      if force then push_forced q p else push_unforced q p (lookup text_dec p.id q.addr_info)
