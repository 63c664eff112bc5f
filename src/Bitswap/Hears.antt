-- ===== src/Bitswap/Hears.antt =====
-- The loops of `collectResponses` of plugins/bsprobe/plugin.go over the CIDs of a message.
use ipfs_crawler.Prelude.{◌≡◌, refl, ap, ◌∙◌, ◌||◌, List, [], ◌∷◌, text_dec, arith}
use ipfs_crawler.GoMap.{contains}
use ipfs_crawler.GoMap.Laws.{contains-add}
use ipfs_crawler.Bitswap.{Cid, Message, Answers, hear_blocks, hear_haves, hear_dont_haves, hear}

contains-hear_blocks :
    (k : Cid) (cs : List Cid) (st : Answers)
    → (contains text_dec k (hear_blocks st cs).blocks
        ≡ (contains text_dec k st.blocks || contains text_dec k cs))
      × ((hear_blocks st cs).haves ≡ st.haves)
      × ((hear_blocks st cs).dont_haves ≡ st.dont_haves)
      × ((hear_blocks st cs).err ≡ st.err)
unfolding hear_blocks contains
contains-hear_blocks k [] st = (ground arith, refl, refl, refl)
contains-hear_blocks k (c ∷ cs) st =
    let ih = contains-hear_blocks k cs _ in
    (ground (arith, ih.0, contains-add text_dec k c st.blocks), ih.1, ih.2, ih.3)

contains-hear_haves :
    (k : Cid) (cs : List Cid) (st : Answers)
    → (contains text_dec k (hear_haves st cs).haves
        ≡ (contains text_dec k st.haves || contains text_dec k cs))
      × ((hear_haves st cs).blocks ≡ st.blocks)
      × ((hear_haves st cs).dont_haves ≡ st.dont_haves)
      × ((hear_haves st cs).err ≡ st.err)
unfolding hear_haves contains
contains-hear_haves k [] st = (ground arith, refl, refl, refl)
contains-hear_haves k (c ∷ cs) st =
    let ih = contains-hear_haves k cs _ in
    (ground (arith, ih.0, contains-add text_dec k c st.haves), ih.1, ih.2, ih.3)

contains-hear_dont_haves :
    (k : Cid) (cs : List Cid) (st : Answers)
    → (contains text_dec k (hear_dont_haves st cs).dont_haves
        ≡ (contains text_dec k st.dont_haves || contains text_dec k cs))
      × ((hear_dont_haves st cs).blocks ≡ st.blocks)
      × ((hear_dont_haves st cs).haves ≡ st.haves)
      × ((hear_dont_haves st cs).err ≡ st.err)
unfolding hear_dont_haves contains
contains-hear_dont_haves k [] st = (ground arith, refl, refl, refl)
contains-hear_dont_haves k (c ∷ cs) st =
    let ih = contains-hear_dont_haves k cs _ in
    (ground (arith, ih.0, contains-add text_dec k c st.dont_haves), ih.1, ih.2, ih.3)

-- Each set gets what the message says of its kind, and the error stays.
pub contains-hear :
    (k : Cid) (st : Answers) (m : Message)
    → (contains text_dec k (hear st m).blocks
        ≡ (contains text_dec k st.blocks || contains text_dec k m.blocks))
      × (contains text_dec k (hear st m).haves
          ≡ (contains text_dec k st.haves || contains text_dec k m.haves))
      × (contains text_dec k (hear st m).dont_haves
          ≡ (contains text_dec k st.dont_haves || contains text_dec k m.dont_haves))
      × ((hear st m).err ≡ st.err)
unfolding hear
contains-hear k st m =
    let b = contains-hear_blocks k m.blocks st in
    let h = contains-hear_haves k m.haves (hear_blocks st m.blocks) in
    let d =
      contains-hear_dont_haves k m.dont_haves (hear_haves (hear_blocks st m.blocks) m.haves) in
    (
      ap (contains text_dec k) (d.1 ∙ h.1) ∙ b.0,
      ap (contains text_dec k) d.2
          ∙ h.0
          ∙ ap (λ s. contains text_dec k s || contains text_dec k m.haves) b.1,
      d.0 ∙ ap (λ s. contains text_dec k s || contains text_dec k m.dont_haves) (h.2 ∙ b.2),
      d.3 ∙ h.3 ∙ b.3,
    )
