-- ===== src/System/Fliers.antt =====
-- The peers of a list of the goroutines that `dispatch` runs in, and what is left when one ends.
use ipfs_crawler.Prelude.{
  ℕ, zero, suc, ◌≡◌, true, false, List, [], ◌∷◌, map, some, ite, text_dec, arith, get_elem?,
  erase_idx,
}
use ipfs_crawler.Types.{PeerId}
use ipfs_crawler.GoMap.{contains}
use ipfs_crawler.GoMap.Laws.{Distinct}
use ipfs_crawler.Manager.{Dispatch}

abbrev pub fliers : List Dispatch → List PeerId
fliers = map (λ d. d.node.id)

pub contains-fliers :
    (ds : List Dispatch) (i : ℕ) (d : Dispatch)
    → get_elem? ds i ≡ some d
    → contains text_dec d.node.id (fliers ds) ≡ true
unfolding contains
contains-fliers [] i d e = ground arith
contains-fliers (x ∷ ds) zero d e = ground arith
contains-fliers (x ∷ ds) (suc i) d e = ground (arith, contains-fliers ds i d)

erase-absent :
    (ds : List Dispatch) (i : ℕ) (k : PeerId)
    → contains text_dec k (fliers ds) ≡ false
    → contains text_dec k (fliers (erase_idx ds i)) ≡ false
unfolding contains
erase-absent [] i k e = e
erase-absent (x ∷ ds) zero k e = ground arith
erase-absent (x ∷ ds) (suc i) k e = ground (arith, erase-absent ds i k)

pub contains-erase :
    (ds : List Dispatch) (i : ℕ) (d : Dispatch) (k : PeerId)
    → get_elem? ds i ≡ some d
    → Distinct text_dec (fliers ds)
    → contains text_dec k (fliers (erase_idx ds i))
      ≡ ite (text_dec d.node.id k) false (contains text_dec k (fliers ds))
unfolding contains
contains-erase [] i d k e h = ground arith
contains-erase (x ∷ ds) zero d k e h = ground arith
contains-erase (x ∷ ds) (suc i) d k e h =
    ground (arith, contains-erase ds i d k, contains-fliers ds i d)

pub Distinct-erase :
    (ds : List Dispatch) (i : ℕ)
    → Distinct text_dec (fliers ds)
    → Distinct text_dec (fliers (erase_idx ds i))
Distinct-erase [] i h = h
Distinct-erase (x ∷ ds) zero h = h.1
Distinct-erase (x ∷ ds) (suc i) h = (erase-absent ds i x.node.id h.0, Distinct-erase ds i h.1)
