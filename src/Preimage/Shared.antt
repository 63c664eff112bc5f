-- ===== src/Preimage/Shared.antt =====
-- From the search of cmd/hash-precomputation/main.go to `findPreImageForCPL` of crawling/preimage.go.
use ipfs_crawler.Prelude.{
  on_if, ℕ, zero, suc, ◌<◌, ◌≡◌, refl, sym, ap, ◌∙◌, subst, Bool, true, false, List, [], ◌∷◌, ◌++◌,
  some, is_some, length, ltb, map, if_pos, if_neg, inl, inr, ◌⊎◌, arith, ℕ_discrete,
}
use ipfs_crawler.Panic.{ok}
use ipfs_crawler.Result.{value}
use ipfs_crawler.GoMap.{contains, lookup}
use ipfs_crawler.GoMap.Laws.{lookup-insert, contains-append}
use ipfs_crawler.Crawler.Laws.{find_pre_image_for_cpl-target}
use ipfs_crawler.Preimage.{PreimageHandler, BinId, target_index, find_pre_image_for_cpl}
use ipfs_crawler.Preimage.Target.{IsBinId, prefix, SharesPrefix, target_index-SharesPrefix}
use ipfs_crawler.Preimage.Text.{Bytes, hex_encode, little_endian, big_endian, uint64}
use ipfs_crawler.Preimage.Codes.{big_endian-little_endian}
use ipfs_crawler.Preimage.Load.{store, load_line, load_lines, load_preimages}
use ipfs_crawler.Preimage.Precompute.{
  bytes_dec, encoded_hash, Preimages, record_prefix, round, precompute, no_preimages, or_blank,
  to_line, file_lines,
}
use ipfs_crawler.Preimage.Found.{load_line-store, encoded_hash_lem}

module _ (sum256 : Bytes → BinId) (bytes : (p : Bytes) → IsBinId (sum256 p)) where
  -- The first 24 bits of the hash of the number `n`.
  abbrev pub hashed : ℕ → ℕ
  hashed n = prefix (sum256 (little_endian n))

  abbrev pub key : ℕ → Bytes
  key n = encoded_hash (sum256 (little_endian n))

  -- The key is the text of a prefix that the number in its entry has.
  abbrev Entry : List (Bytes × Bytes) → Bytes → Type 0
  Entry m k = (n : ℕ) × (k ≡ key n) × (lookup bytes_dec k m ≡ some (hex_encode (little_endian n)))

  abbrev AreEntries : List (Bytes × Bytes) → List Bytes → Type 0
  AreEntries m ks = (k : Bytes) → contains bytes_dec k ks ≡ true → Entry m k

  -- An entry stays, and the new key has one.
  record_prefix-AreEntries :
      (st : Preimages) (n : ℕ) (seen : Bool)
      → is_some (lookup bytes_dec (key n) st.preimages) ≡ seen
      → AreEntries st.preimages st.keys
      → AreEntries
          (record_prefix sum256 st (key n) (little_endian n) seen).preimages
          (record_prefix sum256 st (key n) (little_endian n) seen).keys
  unfolding record_prefix contains
  record_prefix-AreEntries st n true e h k m = h k m
  record_prefix-AreEntries st n false e h k m = elim (bytes_dec (key n) k) [
    | yes same ↦ (
      n,
      sym same,
      lookup-insert bytes_dec k (key n) _ st.preimages
          ∙ if_pos (bytes_dec (key n) k) same _ (lookup bytes_dec k st.preimages),
    )
    | no apart ↦
        let old : contains bytes_dec k st.keys ≡ true =
          ground (arith, contains-append bytes_dec k st.keys (key n ∷ []), m, apart) in
        let (j, q, found) = h k old in
        (
          j,
          q,
          lookup-insert bytes_dec k (key n) _ st.preimages
              ∙ if_neg (bytes_dec (key n) k) apart (some (hex_encode (little_endian n))) _
              ∙ found,
        )
  ]

  precompute-AreEntries :
      (rounds combinations : ℕ) (st : Preimages)
      → AreEntries st.preimages st.keys
      → AreEntries
          (precompute sum256 rounds combinations st).preimages
          (precompute sum256 rounds combinations st).keys
  unfolding precompute round
  precompute-AreEntries zero combinations st h = h
  precompute-AreEntries (suc rounds) combinations st h =
      on_if (λ (s : Preimages). AreEntries s.preimages s.keys)
        (ltb (length st.preimages) combinations)
        (precompute-AreEntries rounds combinations (round sum256 st)
          (record_prefix-AreEntries st st.i _ refl h))
        h

  -- The preimage of the target has a hash that starts with it.
  abbrev IsGood : PreimageHandler → ℕ → Type 0
  IsGood ph t = prefix (sum256 (big_endian (ph.preimages t))) ≡ t

  store-IsGood :
      (ph : PreimageHandler) (n t : ℕ)
      → (IsGood ph t) ⊎ (hashed n ≡ t)
      → IsGood (store ph (hashed n) (uint64 (little_endian n))) t
  unfolding store
  store-IsGood ph n t h = elim (ℕ_discrete (hashed n) t) [
    | yes e ↦
        subst (λ x. prefix (sum256 (big_endian x)) ≡ t)
          (sym (if_pos (ℕ_discrete (hashed n) t) e (uint64 (little_endian n)) (ph.preimages t)))
          (ap (λ p. prefix (sum256 p)) (big_endian-little_endian n) ∙ e)
    | no d ↦
        subst (λ x. prefix (sum256 (big_endian x)) ≡ t)
          (sym (if_neg (ℕ_discrete (hashed n) t) d (uint64 (little_endian n)) (ph.preimages t)))
          (elim h [ inl good ↦ good | inr e ↦ absurd (d e) ])
  ]

  -- A number whose key is among the keys has these bits.
  abbrev Covers : List Bytes → ℕ → Type 0
  Covers ks t = (n : ℕ) × (contains bytes_dec (key n) ks ≡ true) × (hashed n ≡ t)

  uncons-Covers : (n t : ℕ) (ks : List Bytes) → Covers (key n ∷ ks) t → (hashed n ≡ t) ⊎ Covers ks t
  unfolding contains
  uncons-Covers n t ks (j, m, e) = elim (bytes_dec (key n) (key j)) [
    | yes same ↦
        inl (encoded_hash_lem _ _ (bytes (little_endian n)) (bytes (little_endian j)) same ∙ e)
    | no apart ↦ inr (j, ground (arith, m, apart), e)
  ]

  -- What reading the lines of some keys comes to.
  abbrev Loads : List (Bytes × Bytes) → List Bytes → PreimageHandler → Type 0
  Loads m ks ph =
      (ph' : PreimageHandler) × (load_lines (map (to_line m) ks) ph ≡ ok (value ph'))
      × ((t : ℕ) → (IsGood ph t) ⊎ (Covers ks t) → IsGood ph' t)

  load_lines-Loads :
      (m : List (Bytes × Bytes)) (ks : List Bytes) (ph : PreimageHandler)
      → AreEntries m ks
      → Loads m ks ph
  unfolding load_lines contains to_line or_blank
  load_lines-Loads m [] ph h = (
    ph,
    refl,
    λ t g. elim g [ inl good ↦ good | inr (n, f, e) ↦ absurd (let x : false ≡ true = f in cc) ],
  )
  load_lines-Loads m (k ∷ ks) ph h =
      let (n, q, found) = h k (if_pos (bytes_dec k k) refl _ _) in
      let line : to_line m k ≡ key n ++ 59 ∷ hex_encode (little_endian n) =
        ap (λ j. j ++ 59 ∷ or_blank (lookup bytes_dec k m)) q
        ∙ ap (λ o. key n ++ 59 ∷ or_blank o) found in
      let loaded =
        ap (load_line ph) line
        ∙ load_line-store ph (sum256 (little_endian n)) n (bytes (little_endian n)) in
      let (ph', run, good) =
        load_lines-Loads m ks (store ph (hashed n) (uint64 (little_endian n)))
          (λ j f. h j (ground (arith, f))) in
      (
        ph',
        rw loaded run,
        λ t g. good t (elim g [
          | inl old ↦ inl (store-IsGood ph n t (inl old))
          | inr c ↦ elim (uncons-Covers n t ks (subst (λ j. Covers (j ∷ ks) t) q c)) [
            | inl e ↦ inl (store-IsGood ph n t (inr e))
            | inr later ↦ inr later
          ]
        ]),
      )

module _ (sum256 : Bytes → BinId) (bytes : (p : Bytes) → IsBinId (sum256 p)) where
  -- The program of hash-precomputation, with any hash function and any sort that keeps the members of a
  -- list, and after any number of rounds, writes a file that `LoadPreimages` loads without an error. If
  -- the search has found a preimage whose hash starts with the target of a peer and a length of a common
  -- prefix below 24, then `findPreImageForCPL` with this table returns, for this peer and length, eight
  -- bytes whose hash has a common prefix of exactly this length with the peer's.
  pub find_pre_image-SharesPrefix :
      (sort_strings : List Bytes → List Bytes)
      → ((ks : List Bytes) (k : Bytes)
          → contains bytes_dec k (sort_strings ks) ≡ contains bytes_dec k ks)
      → (rounds combinations : ℕ) (id : BinId) (cpl n : ℕ) → IsBinId id
      → cpl < 24
      → contains bytes_dec
          (key sum256 bytes n)
          (precompute sum256 rounds combinations no_preimages).keys
        ≡ true
      → hashed sum256 bytes n ≡ target_index id cpl
      → (ph : PreimageHandler) × (x : ℕ) × (load_preimages
            (value (file_lines sort_strings (precompute sum256 rounds combinations no_preimages)))
          ≡ ok (value ph))
        × (find_pre_image_for_cpl ph id cpl ≡ ok x)
        × SharesPrefix cpl (prefix (sum256 (big_endian x))) (prefix id)
  unfolding load_preimages file_lines contains
  find_pre_image-SharesPrefix sort_strings same rounds combinations id cpl n h small found target =
      let st = precompute sum256 rounds combinations no_preimages in
      let entries =
        precompute-AreEntries sum256 bytes rounds combinations no_preimages
          (λ k m. absurd (let x : false ≡ true = m in cc)) in
      let (ph, loaded, good) =
        load_lines-Loads sum256 bytes st.preimages (sort_strings st.keys)
          (record { preimages = λ k. 0 }) (λ k m. entries k (sym (same st.keys k) ∙ m)) in
      let right =
        good (target_index id cpl) (inr (n, same st.keys (key sum256 bytes n) ∙ found, target)) in
      (
        ph,
        ph.preimages (target_index id cpl),
        loaded,
        find_pre_image_for_cpl-target ph id cpl small,
        subst (λ a. SharesPrefix cpl a (prefix id)) (sym right)
            (target_index-SharesPrefix id cpl h small),
      )
