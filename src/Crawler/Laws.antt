-- ===== src/Crawler/Laws.antt =====
-- The parts of `fullNeighborCrawl` of crawling/crawler.go: the preimage, the attempts, and the peers
-- of an answer.

use ipfs_crawler.Prelude.{
  ℕ, ◌/◌, ◌%◌, ◌^◌, ◌<◌, ◌≡◌, refl, ap, ◌||◌, List, [], ◌∷◌, ◌++◌, map, arith, text_dec, inl, inr,
  Bool-cases, Bool, true, false, not, sym, ◌∙◌, if_pos, if_neg,
}
use ipfs_crawler.Panic.{ok}
use ipfs_crawler.Types.{PeerId, AddrInfo}
use ipfs_crawler.GoMap.{contains, add}
use ipfs_crawler.GoMap.Laws.{Distinct, Distinct-concat, contains-add, contains-append}
use ipfs_crawler.Preimage.{PreimageHandler, BinId, target_index, find_pre_image_for_cpl}
use ipfs_crawler.Crawler.{Progress, note_peer, absorb}

index_small : (x : ℕ) → x % 2 ^ 32 / 2 ^ 8 < 2 ^ 24
index_small x = omega arith

target_index-small : (id : BinId) (cpl : ℕ) → target_index id cpl < 2 ^ 24
unfolding target_index
target_index-small id cpl = index_small _

-- Below 24 bits the lookup of a preimage does not panic and does not leave the table.
pub find_pre_image_for_cpl-target :
    (ph : PreimageHandler) (id : BinId) (cpl : ℕ)
    → cpl < 24
    → find_pre_image_for_cpl ph id cpl ≡ ok (ph.preimages (target_index id cpl))
unfolding find_pre_image_for_cpl
find_pre_image_for_cpl-target ph id cpl small = ground (arith, target_index-small id cpl)

abbrev pub ids : List AddrInfo → List PeerId
ids ps = map (λ p. p.id) ps

-- Each peer stands once in the list of neighbors, and the set holds the peers of the list.
pub record IsTidy (st : Progress) : Type 0 where
  pub distinct : Distinct text_dec (ids st.neighbors)
  pub same : (k : PeerId) → contains text_dec k st.seen_ids ≡ contains text_dec k (ids st.neighbors)

ids-append : (ps : List AddrInfo) (p : AddrInfo) → ids (ps ++ p ∷ []) ≡ ids ps ++ p.id ∷ []
ids-append [] p = refl
ids-append (q ∷ ps) p = ap (λ xs. q.id ∷ xs) (ids-append ps p)

note_peer-IsTidy : (st : Progress) (p : AddrInfo) → IsTidy st → IsTidy (note_peer st p)
unfolding note_peer contains
note_peer-IsTidy st p h = elim (Bool-cases (contains text_dec p.id st.seen_ids)) [
  | inl seen ↦ rw seen h
  | inr new ↦ rw new (record {
    distinct =
        rw (ids-append st.neighbors p) (
          Distinct-concat text_dec p.id (ids st.neighbors) (ground (arith, h.same p.id))
            h.distinct);
    same = λ k. rw (ids-append st.neighbors p) (
        ground (
          arith,
          h.same k,
          contains-add text_dec k p.id st.seen_ids,
          contains-append text_dec k (ids st.neighbors) (p.id ∷ []),
        ));
  })
]

pub absorb-IsTidy : (st : Progress) (ps : List AddrInfo) → IsTidy st → IsTidy (absorb st ps)
unfolding absorb
absorb-IsTidy st [] h = h
absorb-IsTidy st (p ∷ ps) h = absorb-IsTidy (note_peer st p) ps (note_peer-IsTidy st p h)

note_peer-seen :
    (st : Progress) (p : AddrInfo) (k : PeerId)
    → contains text_dec k (note_peer st p).seen_ids
      ≡ (contains text_dec k st.seen_ids || contains text_dec k (p.id ∷ []))
unfolding note_peer contains
note_peer-seen st p k = ground (arith, contains-add text_dec k p.id st.seen_ids)

-- The set grows by the peers of the answer.
pub absorb-seen :
    (st : Progress) (ps : List AddrInfo) (k : PeerId)
    → contains text_dec k (absorb st ps).seen_ids
      ≡ (contains text_dec k st.seen_ids || contains text_dec k (ids ps))
unfolding absorb contains
absorb-seen st [] k = ground arith
absorb-seen st (p ∷ ps) k = ground (arith, absorb-seen (note_peer st p) ps k, note_peer-seen st p k)

-- Whether the answer has a peer that was not seen before.
abbrev pub any_new : List PeerId → List AddrInfo → Bool
any_new seen [] = false
any_new seen (p ∷ ps) = not (contains text_dec p.id seen) || any_new seen ps

absorb-keeps :
    (st : Progress) (ps : List AddrInfo)
    → st.any_new_peers ≡ true
    → (absorb st ps).any_new_peers ≡ true
unfolding absorb note_peer
absorb-keeps st [] h = h
absorb-keeps st (p ∷ ps) h = absorb-keeps (note_peer st p) ps (ground (arith, h))

-- The variable says whether the answer has such a peer.
pub absorb-any_new :
    (st : Progress) (ps : List AddrInfo)
    → st.any_new_peers ≡ false
    → (absorb st ps).any_new_peers ≡ any_new st.seen_ids ps
unfolding absorb note_peer
absorb-any_new st [] h = h
absorb-any_new st (p ∷ ps) h = elim (Bool-cases (contains text_dec p.id st.seen_ids)) [
  | inl seen ↦ rw (absorb, note_peer, seen) (absorb-any_new st ps h)
  | inr new ↦
      rw (absorb, note_peer, new)
        (absorb-keeps
          (record st {
            neighbors = st.neighbors ++ p ∷ [];
            seen_ids = add text_dec p.id st.seen_ids;
            any_new_peers = true;
          })
          ps refl)
]

pub any_new-found :
    (seen : List PeerId) (ps : List AddrInfo)
    → any_new seen ps ≡ true
    → (k : PeerId) × (contains text_dec k (ids ps) ≡ true) × (contains text_dec k seen ≡ false)
unfolding contains
any_new-found seen [] h = absurd (let e : false ≡ true = h in cc)
any_new-found seen (p ∷ ps) h = elim (Bool-cases (contains text_dec p.id seen)) [
  | inr new ↦ (p.id, if_pos (text_dec p.id p.id) refl _ _, new)
  | inl old ↦
      let rest : any_new seen ps ≡ true = rw old at h in
      let (k, there, new) = any_new-found seen ps rest in (k, ground (arith, there), new)
]

pub any_new-none :
    (seen : List PeerId) (ps : List AddrInfo) (k : PeerId)
    → any_new seen ps ≡ false
    → contains text_dec k (ids ps) ≡ true
    → contains text_dec k seen ≡ true
unfolding contains
any_new-none seen [] k h there = absurd (let e : false ≡ true = there in cc)
any_new-none seen (p ∷ ps) k h there = elim (text_dec p.id k) [
  | yes e ↦ ap (λ j. contains text_dec j seen) (sym e) ∙ ground (arith, h)
  | no n ↦ any_new-none seen ps k (ground (arith, h)) (sym (if_neg (text_dec p.id k) n _ _) ∙ there)
]

note_peer-err : (st : Progress) (p : AddrInfo) → (note_peer st p).err ≡ st.err
unfolding note_peer
note_peer-err st p = ground arith

pub absorb-err : (st : Progress) (ps : List AddrInfo) → (absorb st ps).err ≡ st.err
unfolding absorb
absorb-err st [] = refl
absorb-err st (p ∷ ps) = ground (arith, absorb-err (note_peer st p) ps, note_peer-err st p)
