-- ===== src/Queue/Refine.antt =====
-- `toCrawlQueue` of crawling/crawlmanager.go against the waiting line that it stands for.
use mathlib.Core.List.{append-nil}
use ipfs_crawler.Prelude.{
  ◌≡◌, is_some, ℕ_discrete, if_pos, refl, sym, ◌∙◌, true, false, List, [], ◌∷◌, ◌++◌, Option,
  text_dec, ℕ_discrete, arith, ◌==◌,
}
use ipfs_crawler.Panic.{Exec, ok, fault, empty_queue, ◌>>=◌}
use ipfs_crawler.Types.{PeerId, Multiaddr}
use ipfs_crawler.GoMap.{contains, lookup}
use ipfs_crawler.GoMap.Laws.{lookup-insert}
use ipfs_crawler.AddrTools.{Manet}
use ipfs_crawler.AddrTools.Laws.{filter_out-strip_self}
use ipfs_crawler.Queue.{ToCrawlQueue, or_nil, pop_front, len, addrs_of, pop, push, push_forced}
use ipfs_crawler.Queue.Sync.{
  IsSynced, push-IsSynced, pop-popped, popped-IsSynced, popped, queue_empty,
}
use ipfs_crawler.Queue.Shows.{Shows, push-Shows}
use ipfs_crawler.Queue.Line.{
  Line, Op, put, take, defer, idle, Out, node, is_idle, known, put_line, run_line,
}

module _ (manet : Manet) where
  -- The operations on the queue of the code.
  unfoldable pub run_queue : List Op → ToCrawlQueue → Exec (List Out)
  unfolding push pop len
  run_queue [] q = ok []
  run_queue (put p ∷ ops) q = run_queue ops (push manet q p false)
  run_queue (take ∷ ops) q =
      pop q >>= λ popped. run_queue ops popped.1 >>= λ outs. ok (node popped.0 ∷ outs)
  run_queue (defer ∷ ops) q = pop q >>= λ popped. run_queue ops (push manet popped.1 popped.0 true)
  run_queue (idle ∷ ops) q = run_queue ops q >>= λ outs. ok (is_idle (len q == 0) ∷ outs)

-- The line that a queue stands for.
abbrev pub line : ToCrawlQueue → Line
line q = record { waiting = q.queue; book = λ k. lookup text_dec k q.addr_info }

-- `pop` by the entries of the slice.
PopsLine : ToCrawlQueue → List PeerId → Type 0
PopsLine q [] = (pop q ≡ fault empty_queue) × ((len q == 0) ≡ true)
PopsLine q (id ∷ rest) =
    (pop q ≡ ok (record { id = id; addrs = addrs_of q id }, popped q id rest))
    × ((len q == 0) ≡ false)
    × IsSynced (popped q id rest)
    × (contains text_dec id rest ≡ false)

pop-PopsLine :
    (q : ToCrawlQueue) (waiting : List PeerId) → q.queue ≡ waiting → IsSynced q → PopsLine q waiting
unfolding PopsLine pop pop_front
pop-PopsLine q [] e h = elim (ℕ_discrete (len q) 0) [
  | yes n ↦ ground (arith, n)
  | no n ↦
      absurd
        (let (id, rest, f, _, _, _) = pop-popped q n h in let g : [] ≡ id ∷ rest = sym e ∙ f in cc)
]
pop-PopsLine q (id ∷ rest) e h = elim (ℕ_discrete (len q) 0) [
  | yes n ↦ absurd (let g : id ∷ rest ≡ [] = sym e ∙ queue_empty q n h in cc)
  | no n ↦
      let (synced, absent) = popped-IsSynced q id rest e h in
      (ground (arith, e, n), ground (arith, n), synced, absent)
]

known-addrs_of :
    (q : ToCrawlQueue) (id : PeerId) → addrs_of q id ≡ known (lookup text_dec id q.addr_info)
unfolding addrs_of or_nil known
known-addrs_of q id = ground arith

front :
    (q : ToCrawlQueue) (id : PeerId) (rest : List PeerId)
    → q.queue ≡ id ∷ rest
    → contains text_dec id q.queue ≡ true
unfolding contains
front q id rest e = rw e (if_pos (text_dec id id) refl _ _)

-- A peer that is put back goes to the end of the line, and the book stays.
put_back-Shows :
    (manet : Manet) (q : ToCrawlQueue) (id : PeerId) (rest : List PeerId)
    → is_some (lookup text_dec id q.addr_info) ≡ true
    → Shows
        (push manet (popped q id rest) (record { id = id; addrs = addrs_of q id }) true)
        (record { waiting = rest ++ id ∷ []; book = λ k. lookup text_dec k q.addr_info })
unfolding push push_forced addrs_of or_nil
put_back-Shows manet q id rest known = (
  refl,
  λ k. ground (
    arith,
    known,
    filter_out-strip_self manet (or_nil (lookup text_dec id q.addr_info)),
    append-nil (or_nil (lookup text_dec id q.addr_info)),
    lookup-insert text_dec k id (or_nil (lookup text_dec id q.addr_info)) q.addr_info,
  ),
)

module _ (manet : Manet) where
  refines :
      (ops : List Op) (q : ToCrawlQueue) (waiting : List PeerId)
      (book : PeerId → Option (List Multiaddr))
      → q.queue ≡ waiting
      → ((k : PeerId) → lookup text_dec k q.addr_info ≡ book k)
      → IsSynced q
      → run_queue manet ops q ≡ run_line manet waiting book ops
  unfolding run_queue run_line PopsLine
  refines [] q waiting book e b h = refl
  refines (put p ∷ ops) q waiting book e b h =
      let l : Line = record { waiting = waiting; book = book } in
      let s = push-Shows manet q h l p (e, b) in
      refines ops (push manet q p false) (put_line manet l p).waiting (put_line manet l p).book s.0
        s.1 (push-IsSynced manet q p false (λ f. cc) h)
  refines (take ∷ ops) q [] book e b h = rw ((pop-PopsLine q [] e h).0) refl
  refines (take ∷ ops) q (id ∷ rest) book e b h =
      let (popped_eq, _, synced, _) = pop-PopsLine q (id ∷ rest) e h in
      rw
        (
          popped_eq,
          refines ops (popped q id rest) rest book refl b synced,
          known-addrs_of q id,
          b id,
        )
        refl
  refines (defer ∷ ops) q [] book e b h = rw ((pop-PopsLine q [] e h).0) refl
  refines (defer ∷ ops) q (id ∷ rest) book e b h =
      let (popped_eq, _, synced, absent) = pop-PopsLine q (id ∷ rest) e h in
      let s = put_back-Shows manet q id rest (h.known id (front q id rest e)) in
      rw popped_eq (
        refines ops _ (rest ++ id ∷ []) book s.0 (λ k. s.1 k ∙ b k)
          (push-IsSynced manet (popped q id rest) _ true (λ f. synced.same id ∙ absent) synced))
  refines (idle ∷ ops) q [] book e b h =
      rw ((pop-PopsLine q [] e h).1, refines ops q [] book e b h) refl
  refines (idle ∷ ops) q (id ∷ rest) book e b h =
      rw ((pop-PopsLine q (id ∷ rest) e h).1, refines ops q (id ∷ rest) book e b h) refl

  -- On a queue that is in step, no sequence of what the loop does with its queue, pushing a peer,
  -- taking the next one, taking it and putting it back, and asking whether there is one, tells the
  -- queue from the waiting line of its slice with the address book of its map: the answers are the
  -- same, and both panic at the same operation, on an empty queue. In the line every peer waits at
  -- most once, an unknown peer joins at the end, a known one joins if it brings new addresses, and
  -- putting back moves the first peer to the end.
  pub run_queue-run_line :
      (ops : List Op) (q : ToCrawlQueue)
      → IsSynced q
      → run_queue manet ops q ≡ run_line manet q.queue (λ k. lookup text_dec k q.addr_info) ops
  run_queue-run_line ops q h = refines ops q q.queue _ refl (λ k. refl) h
