-- ===== src/Queue/Sync.antt =====
-- `toCrawlQueue` of crawling/crawlmanager.go: its slice beside its set.
use ipfs_crawler.Prelude.{
  ◌≡◌, refl, Bool, true, false, List, [], ◌∷◌, ◌++◌, arith, text_dec, is_some, Option, none, some,
  length, inl, inr, ◌≢◌, ite, Bool-cases, ap,
}
use ipfs_crawler.Panic.{ok}
use ipfs_crawler.Types.{PeerId, Multiaddr, AddrInfo}
use ipfs_crawler.GoMap.{contains, add, remove, lookup, insert}
use ipfs_crawler.GoMap.Laws.{
  Distinct, contains-add, contains-remove, contains-append, Distinct-concat, lookup-insert,
}
use ipfs_crawler.AddrTools.{Manet}
use ipfs_crawler.Queue.{
  ToCrawlQueue, len, addrs_of, pop, pop_front, push, push_forced, push_known, push_unforced,
}

-- The slice has no duplicates, the set is its members, and every member has an address entry.
pub record IsSynced (q : ToCrawlQueue) : Type 0 where
  pub distinct : Distinct text_dec q.queue
  pub same : (k : PeerId) → contains text_dec k q.in_queue ≡ contains text_dec k q.queue
  pub known :
      (k : PeerId)
      → contains text_dec k q.queue ≡ true
      → is_some (lookup text_dec k q.addr_info) ≡ true

module _ (q : ToCrawlQueue) (id : PeerId) (addrs : List Multiaddr) where
  abbrev enqueued : ToCrawlQueue
  enqueued = record {
    queue = q.queue ++ id ∷ [];
    in_queue = add text_dec id q.in_queue;
    addr_info = insert text_dec id addrs q.addr_info;
  }

  abbrev updated : ToCrawlQueue
  updated = record q { addr_info = insert text_dec id addrs q.addr_info }

  enqueued-IsSynced : contains text_dec id q.in_queue ≡ false → IsSynced q → IsSynced enqueued
  unfolding contains
  enqueued-IsSynced e h = record {
    distinct = ground (arith, Distinct-concat text_dec id q.queue, h.same id);
    same = λ k. ground (
      arith,
      contains-add text_dec k id q.in_queue,
      contains-append text_dec k q.queue (id ∷ []),
      h.same k,
    );
    known = λ k m. ground (
      arith,
      contains-append text_dec k q.queue (id ∷ []),
      lookup-insert text_dec k id addrs q.addr_info,
      h.known k,
    );
  }

  updated-IsSynced : IsSynced q → IsSynced updated
  updated-IsSynced h = record {
    distinct = h.distinct;
    same = h.same;
    known = λ k m. ground (arith, lookup-insert text_dec k id addrs q.addr_info, h.known k);
  }

push_known-IsSynced :
    (q : ToCrawlQueue) (p : AddrInfo) (old new : List Multiaddr)
    → IsSynced q
    → IsSynced (push_known q p old new)
unfolding push_known
push_known-IsSynced q p old [] h = h
push_known-IsSynced q p old (a ∷ as') h = elim (Bool-cases (contains text_dec p.id q.in_queue)) [
  | inl old_one ↦ rw old_one (updated-IsSynced q p.id _ h)
  | inr new_one ↦ rw new_one (enqueued-IsSynced q p.id _ new_one h)
]

-- An unknown peer is not in the queue.
unknown_absent :
    (q : ToCrawlQueue) (k : PeerId)
    → IsSynced q
    → lookup text_dec k q.addr_info ≡ none
    → contains text_dec k q.in_queue ≡ false
unknown_absent q k h e = ground (arith, h.same k, h.known k)

push_unforced-IsSynced :
    (manet : Manet) (q : ToCrawlQueue) (p : AddrInfo) (old : Option (List Multiaddr))
    → lookup text_dec p.id q.addr_info ≡ old
    → IsSynced q
    → IsSynced (push_unforced manet q p old)
unfolding push_unforced
push_unforced-IsSynced manet q p none e h = enqueued-IsSynced q p.id _ (unknown_absent q p.id h e) h
push_unforced-IsSynced manet q p (some old) e h = push_known-IsSynced q p old _ h

-- `push` keeps the slice and the set in step and gives every queued peer an address list, if a
-- forced push is made of a peer that is not in the queue.
pub push-IsSynced :
    (manet : Manet) (q : ToCrawlQueue) (p : AddrInfo) (force : Bool)
    → (force ≡ true → contains text_dec p.id q.in_queue ≡ false)
    → IsSynced q
    → IsSynced (push manet q p force)
unfolding push push_forced
push-IsSynced manet q p true absent h = enqueued-IsSynced q p.id _ (absent refl) h
push-IsSynced manet q p false absent h = push_unforced-IsSynced manet q p _ refl h

-- Where the set has a member, the slice has an entry: `q.queue[0]` is in range.
queue_front :
    (q : ToCrawlQueue) (xs ys : List PeerId)
    → q.in_queue ≡ xs
    → q.queue ≡ ys
    → len q ≢ 0
    → IsSynced q
    → (id : PeerId) × (rest : List PeerId) × (q.queue ≡ id ∷ rest)
unfolding len contains
queue_front q [] ys e f n h = absurd (n (rw e))
queue_front q (x ∷ xs) [] e f n h =
    let same : contains text_dec x (x ∷ xs) ≡ false = rw (e, f) at (h.same x) in ground arith
queue_front q (x ∷ xs) (y ∷ ys) e f n h = (y, ys, f)

empty_front :
    (q : ToCrawlQueue) (xs ys : List PeerId)
    → q.in_queue ≡ xs
    → q.queue ≡ ys
    → len q ≡ 0
    → IsSynced q
    → ys ≡ []
unfolding len contains
empty_front q xs [] e f n h = refl
empty_front q [] (y ∷ ys) e f n h =
    let same : contains text_dec y [] ≡ contains text_dec y (y ∷ ys) = rw (e, f) at (h.same y) in
    ground arith
empty_front q (x ∷ xs) (y ∷ ys) e f n h = absurd (omega (arith, ap length e))

-- Where the set is empty, so is the slice.
pub queue_empty : (q : ToCrawlQueue) → len q ≡ 0 → IsSynced q → q.queue ≡ []
queue_empty q n h = empty_front q q.in_queue q.queue refl refl n h

-- The queue without its first entry.
abbrev pub popped : ToCrawlQueue → PeerId → List PeerId → ToCrawlQueue
popped q id rest = record q { queue = rest; in_queue = remove text_dec id q.in_queue }

pub popped-IsSynced :
    (q : ToCrawlQueue) (id : PeerId) (rest : List PeerId)
    → q.queue ≡ id ∷ rest
    → IsSynced q
    → IsSynced (popped q id rest) × (contains text_dec id rest ≡ false)
unfolding contains
popped-IsSynced q id rest e h =
    let split : Distinct text_dec (id ∷ rest) = rw e at h.distinct in
    let member = λ (k : PeerId).
      let m : contains text_dec k q.in_queue ≡ contains text_dec k (id ∷ rest) =
        rw e at (h.same k) in
      m in
    (
      record {
        distinct = split.1;
        same = λ k. ground (arith, contains-remove text_dec k id q.in_queue, member k, split.0);
        known = λ k m. h.known k (ground (arith, ap (contains text_dec k) e, m));
      },
      split.0,
    )

-- `pop` of a queue that is in step and not empty does not panic: it returns the first entry
-- with its stored addresses, and takes this entry
-- off the slice and the set, which stay in step, and the peer is then in neither.
pub pop-popped :
    (q : ToCrawlQueue)
    → len q ≢ 0
    → IsSynced q
    → (id : PeerId) × (rest : List PeerId) × (q.queue ≡ id ∷ rest)
      × (pop q ≡ ok (record { id = id; addrs = addrs_of q id }, popped q id rest))
      × IsSynced (popped q id rest)
      × (contains text_dec id rest ≡ false)
unfolding pop pop_front
pop-popped q n h =
    let (id, rest, e) = queue_front q q.in_queue q.queue refl refl n h in
    let (synced, gone) = popped-IsSynced q id rest e h in
    (id, rest, e, ground (arith, e), synced, gone)

-- What a push without `force` does to the members of the queue and to the known peers.
pub record Pushed (q q' : ToCrawlQueue) (p : AddrInfo) : Type 0 where
  pub keeps :
      (k : PeerId) → contains text_dec k q.queue ≡ true → contains text_dec k q'.queue ≡ true
  pub learns :
      (k : PeerId)
      → is_some (lookup text_dec k q'.addr_info)
        ≡ ite (text_dec p.id k) true (is_some (lookup text_dec k q.addr_info))
  pub fresh : lookup text_dec p.id q.addr_info ≡ none → contains text_dec p.id q'.queue ≡ true

push_known-Pushed :
    (q : ToCrawlQueue) (p : AddrInfo) (old new : List Multiaddr)
    → lookup text_dec p.id q.addr_info ≡ some old
    → Pushed q (push_known q p old new) p
unfolding push_known
push_known-Pushed q p old [] e = record {
  keeps = λ k m. m;
  learns = λ k. ground arith;
  fresh = λ n. ground arith;
}
push_known-Pushed q p old (a ∷ as') e = record {
  keeps = λ k m. ground (arith, contains-append text_dec k q.queue (p.id ∷ []));
  learns = λ k. ground (arith, lookup-insert text_dec k p.id (old ++ a ∷ as') q.addr_info);
  fresh = λ n. ground arith;
}

push_unforced-Pushed :
    (manet : Manet) (q : ToCrawlQueue) (p : AddrInfo) (old : Option (List Multiaddr))
    → lookup text_dec p.id q.addr_info ≡ old
    → Pushed q (push_unforced manet q p old) p
unfolding push_unforced contains
push_unforced-Pushed manet q p none e = record {
  keeps = λ k m. ground (arith, contains-append text_dec k q.queue (p.id ∷ []));
  learns = λ k. ground (arith, lookup-insert text_dec k p.id p.addrs q.addr_info);
  fresh = λ n. ground (arith, contains-append text_dec p.id q.queue (p.id ∷ []));
}
push_unforced-Pushed manet q p (some old) e = push_known-Pushed q p old _ e

-- A push without `force` keeps every queued peer in the queue, makes the pushed peer and no
-- other known, and queues it if it was unknown.
pub push-Pushed :
    (manet : Manet) (q : ToCrawlQueue) (p : AddrInfo) → Pushed q (push manet q p false) p
unfolding push
push-Pushed manet q p = push_unforced-Pushed manet q p _ refl
