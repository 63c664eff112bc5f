-- ===== src/Bitswap/Collected.antt =====
-- `collectResponses` of plugins/bsprobe/plugin.go: the result against the messages.
use ipfs_crawler.Prelude.{
  on_if, ◌==◌, ◌≡◌, Bool, not, ◌&&◌, ◌||◌, List, [], ◌∷◌, text_dec, arith, length,
}
use ipfs_crawler.GoMap.{contains, add, remove}
use ipfs_crawler.GoMap.Laws.{Distinct, Distinct-add, contains-add, contains-remove}
use ipfs_crawler.Bitswap.{
  Cid, Message, Answers, all_cids, no_answers, hear_blocks, hear_haves, hear_dont_haves, hear,
  Arrival, closed, failed, got, collect,
}

-- The CID was answered in one of the ways.
abbrev pub answered : Answers → Cid → Bool
answered st k =
    contains text_dec k st.blocks
    || contains text_dec k st.haves
    || contains text_dec k st.dont_haves

-- A configured CID is outstanding exactly if it was not answered, and no CID stands twice in a set.
pub record IsSplit (cids : List Cid) (st : Answers) : Type 0 where
  pub split :
      (k : Cid)
      → contains text_dec k st.outstanding ≡ (contains text_dec k cids && not (answered st k))
  pub once :
      Distinct text_dec st.blocks
      × Distinct text_dec st.haves
      × Distinct text_dec st.dont_haves
      × Distinct text_dec st.outstanding

Distinct-remove :
    (k : Cid) (s : List Cid) → Distinct text_dec s → Distinct text_dec (remove text_dec k s)
unfolding remove
Distinct-remove k [] h = tt
Distinct-remove k (x ∷ s) h = ground (arith, Distinct-remove k s, contains-remove text_dec x k s)

contains-all_cids :
    (k : Cid) (set cs : List Cid)
    → contains text_dec k (all_cids set cs) ≡ (contains text_dec k set || contains text_dec k cs)
unfolding all_cids contains
contains-all_cids k set [] = ground arith
contains-all_cids k set (c ∷ cs) =
    ground (arith, contains-all_cids k (add text_dec c set) cs, contains-add text_dec k c set)

Distinct-all_cids :
    (set cs : List Cid) → Distinct text_dec set → Distinct text_dec (all_cids set cs)
unfolding all_cids
Distinct-all_cids set [] h = h
Distinct-all_cids set (c ∷ cs) h =
    Distinct-all_cids (add text_dec c set) cs (Distinct-add text_dec c set h)

pub no_answers-IsSplit : (cids : List Cid) → IsSplit cids (no_answers cids)
unfolding no_answers contains
no_answers-IsSplit cids = record {
  split = λ k. ground (arith, contains-all_cids k [] cids);
  once = (tt, tt, tt, Distinct-all_cids [] cids tt);
}

module _ (cids : List Cid) where
  hear_blocks-IsSplit :
      (cs : List Cid) (st : Answers) → IsSplit cids st → IsSplit cids (hear_blocks st cs)
  unfolding hear_blocks
  hear_blocks-IsSplit [] st h = h
  hear_blocks-IsSplit (c ∷ cs) st h = hear_blocks-IsSplit cs _ (record {
    split = λ k. ground (
      arith,
      h.split k,
      contains-add text_dec k c st.blocks,
      contains-remove text_dec k c st.outstanding,
    );
    once = (
      Distinct-add text_dec c st.blocks h.once.0,
      h.once.1,
      h.once.2,
      Distinct-remove c st.outstanding h.once.3,
    );
  })

  hear_haves-IsSplit :
      (cs : List Cid) (st : Answers) → IsSplit cids st → IsSplit cids (hear_haves st cs)
  unfolding hear_haves
  hear_haves-IsSplit [] st h = h
  hear_haves-IsSplit (c ∷ cs) st h = hear_haves-IsSplit cs _ (record {
    split = λ k. ground (
      arith,
      h.split k,
      contains-add text_dec k c st.haves,
      contains-remove text_dec k c st.outstanding,
    );
    once = (
      h.once.0,
      Distinct-add text_dec c st.haves h.once.1,
      h.once.2,
      Distinct-remove c st.outstanding h.once.3,
    );
  })

  hear_dont_haves-IsSplit :
      (cs : List Cid) (st : Answers) → IsSplit cids st → IsSplit cids (hear_dont_haves st cs)
  unfolding hear_dont_haves
  hear_dont_haves-IsSplit [] st h = h
  hear_dont_haves-IsSplit (c ∷ cs) st h = hear_dont_haves-IsSplit cs _ (record {
    split = λ k. ground (
      arith,
      h.split k,
      contains-add text_dec k c st.dont_haves,
      contains-remove text_dec k c st.outstanding,
    );
    once = (
      h.once.0,
      h.once.1,
      Distinct-add text_dec c st.dont_haves h.once.2,
      Distinct-remove c st.outstanding h.once.3,
    );
  })

  pub hear-IsSplit : (st : Answers) (m : Message) → IsSplit cids st → IsSplit cids (hear st m)
  unfolding hear
  hear-IsSplit st m h =
      hear_dont_haves-IsSplit m.dont_haves _
        (hear_haves-IsSplit m.haves _ (hear_blocks-IsSplit m.blocks st h))

  pub collect-IsSplit :
      (arrivals : List Arrival) (st : Answers)
      → IsSplit cids st
      → IsSplit cids (collect st arrivals)
  unfolding collect
  collect-IsSplit [] st h = h
  collect-IsSplit (closed ∷ rest) st h = h
  collect-IsSplit (failed e ∷ rest) st h = record { split = h.split; once = h.once }
  collect-IsSplit (got m ∷ rest) st h =
      on_if (IsSplit cids) (length (hear st m).outstanding == 0) (hear-IsSplit st m h)
        (collect-IsSplit rest (hear st m) (hear-IsSplit st m h))
