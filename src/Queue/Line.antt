-- ===== src/Queue/Line.antt =====
-- What `toCrawlQueue` of crawling/crawlmanager.go promises: a waiting line of peers, each at most once,
-- beside an address book.
use ipfs_crawler.Prelude.{
  Bool, true, false, List, [], ◌∷◌, ◌++◌, Option, none, some, text_dec, ite, if◌then◌else◌,
}
use ipfs_crawler.Panic.{Exec, ok, fault, empty_queue, ◌>>=◌}
use ipfs_crawler.Types.{PeerId, Multiaddr, AddrInfo}
use ipfs_crawler.GoMap.{contains}
use ipfs_crawler.AddrTools.{Manet, filter_out_old_addresses, strip_local_addrs}

pub record Line : Type 0 where
  pub waiting : List PeerId
  pub book : PeerId → Option (List Multiaddr)

-- What the loop does with its queue: it pushes a peer, takes the next one, takes it and puts it back,
-- and asks whether there is one.
pub data Op : Type 0 where
  put : AddrInfo → Op
  take defer idle : Op

-- What it learns from that.
pub data Out : Type 0 where
  node : AddrInfo → Out
  is_idle : Bool → Out

unfoldable pub write :
    PeerId → List Multiaddr → (PeerId → Option (List Multiaddr)) → PeerId → Option (List Multiaddr)
write id addrs book k = ite (text_dec id k) (some addrs) (book k)

unfoldable pub join : PeerId → List PeerId → List PeerId
join id waiting = if contains text_dec id waiting then waiting else waiting ++ id ∷ []

-- A peer that is not in the book joins the line with its addresses; one that is joins if it has new
-- addresses, which are added.
unfoldable pub arrive : Line → AddrInfo → Option (List Multiaddr) → List Multiaddr → Line
unfolding write join
arrive l p none new = record { waiting = join p.id l.waiting; book = write p.id p.addrs l.book }
arrive l p (some old) [] = l
arrive l p (some old) (a ∷ new) = record {
  waiting = join p.id l.waiting;
  book = write p.id (old ++ a ∷ new) l.book;
}

abbrev pub is_empty : List PeerId → Bool
is_empty [] = true
is_empty (x ∷ xs) = false

unfoldable pub known : Option (List Multiaddr) → List Multiaddr
known none = []
known (some addrs) = addrs

module _ (manet : Manet) where
  unfoldable pub put_line : Line → AddrInfo → Line
  unfolding arrive known
  put_line l p =
      arrive l p (l.book p.id)
        (filter_out_old_addresses (known (l.book p.id)) (strip_local_addrs manet p.addrs))

  -- The line answers the operations in turn.
  unfoldable pub run_line :
      List PeerId → (PeerId → Option (List Multiaddr)) → List Op → Exec (List Out)
  unfolding put_line
  run_line waiting book [] = ok []
  run_line waiting book (put p ∷ ops) =
      let l = put_line (record { waiting = waiting; book = book }) p in
      run_line l.waiting l.book ops
  run_line [] book (take ∷ ops) = fault empty_queue
  run_line (id ∷ rest) book (take ∷ ops) = run_line rest book ops >>= λ outs.
      ok (node (record { id = id; addrs = known (book id) }) ∷ outs)
  run_line [] book (defer ∷ ops) = fault empty_queue
  run_line (id ∷ rest) book (defer ∷ ops) = run_line (rest ++ id ∷ []) book ops
  run_line waiting book (idle ∷ ops) =
      run_line waiting book ops >>= λ outs. ok (is_idle (is_empty waiting) ∷ outs)
