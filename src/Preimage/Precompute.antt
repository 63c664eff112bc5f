-- ===== src/Preimage/Precompute.antt =====
-- cmd/hash-precomputation/main.go. The hash function is sha256-simd's, of which the first three bytes
-- are used; `sort.Strings` is a parameter.
use ipfs_crawler.Prelude.{
  ℕ, zero, suc, ◌+◌, ◌^◌, ◌%◌, refl, Bool, true, false, List, [], ◌∷◌, ◌++◌, Option, none, some,
  is_some, if◌then◌else◌, length, ltb, map, ℕ_discrete,
}
use ipfs_crawler.GoMap.{lookup, insert}
use ipfs_crawler.Preimage.{BinId}
use ipfs_crawler.Preimage.Text.{Bytes, binary, hex_encode, little_endian}

unfoldable pub bytes_dec : Discrete Bytes
bytes_dec [] [] = yes refl
bytes_dec [] (y ∷ ys) = no (λ e. cc)
bytes_dec (x ∷ xs) [] = no (λ e. cc)
bytes_dec (x ∷ xs) (y ∷ ys) =
    let tails = bytes_dec xs ys in
    elim (ℕ_discrete x y) [
      | yes p ↦ elim tails [ yes q ↦ yes (λ i. p i ∷ q i) | no n ↦ no (λ e. n cc) ]
      | no n ↦ no (λ e. n cc)
    ]

-- The loop over the first bytes of the hash.
unfoldable pub encoded_hash : BinId → Bytes
encoded_hash id = binary id.byte0 ++ (binary id.byte1 ++ (binary id.byte2 ++ []))

-- The variables of `main`: `i`, the map of the preimages, and its keys.
pub record Preimages : Type 0 where
  pub i : ℕ
  pub preimages : List (Bytes × Bytes)
  pub keys : List Bytes

module _ (sum256 : Bytes → BinId) where
  -- One round of the loop, which has a new prefix or not.
  unfoldable pub record_prefix : Preimages → Bytes → Bytes → Bool → Preimages
  unfolding hex_encode
  record_prefix st encoded preimage true = record st { i = (st.i + 1) % 2 ^ 64 }
  record_prefix st encoded preimage false = record {
    i = (st.i + 1) % 2 ^ 64;
    preimages = insert bytes_dec encoded (hex_encode preimage) st.preimages;
    keys = st.keys ++ encoded ∷ [];
  }

  unfoldable pub round : Preimages → Preimages
  unfolding record_prefix encoded_hash
  round st =
      let preimage = little_endian st.i in
      let encoded = encoded_hash (sum256 preimage) in
      record_prefix st encoded preimage (is_some (lookup bytes_dec encoded st.preimages))

  -- The loop, for so many rounds at most. `combinations` is `2 ^ 24` in the program.
  unfoldable pub precompute : ℕ → ℕ → Preimages → Preimages
  unfolding round
  precompute zero combinations st = st
  precompute (suc rounds) combinations st =
      let more = precompute rounds combinations (round st) in
      if ltb (length st.preimages) combinations then more else st

abbrev pub no_preimages : Preimages
no_preimages = record { i = 0; preimages = []; keys = [] }

-- `preimages[k]`
unfoldable pub or_blank : Option Bytes → Bytes
or_blank none = []
or_blank (some text) = text

unfoldable pub to_line : List (Bytes × Bytes) → Bytes → Bytes
unfolding or_blank
to_line preimages k = k ++ 59 ∷ or_blank (lookup bytes_dec k preimages)

-- `hash;preimage`
abbrev pub header : Bytes
header = 104 ∷ 97 ∷ 115 ∷ 104 ∷ 59 ∷ 112 ∷ 114 ∷ 101 ∷ 105 ∷ 109 ∷ 97 ∷ 103 ∷ 101 ∷ []

-- The lines of the file, if no call on it fails.
unfoldable pub file_lines : (List Bytes → List Bytes) → Preimages → List Bytes
unfolding to_line
file_lines sort_strings st = header ∷ map (to_line st.preimages) (sort_strings st.keys)
