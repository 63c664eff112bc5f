-- ===== src/Preimage/Target.antt =====
-- The target of `findPreImageForCPL` of crawling/preimage.go shares a prefix of the wanted length with the
-- peer's hash.
use Prim.Native.Nat.{bit_xor, bit_or}
use ipfs_crawler.Prelude.{ℕ, suc, ◌+◌, ◌-◌, ◌*◌, ◌/◌, ◌%◌, ◌^◌, ◌<◌, ◌≡◌, ◌≢◌, sym, ap, ◌∙◌, arith}
use ipfs_crawler.Preimage.{BinId, target_index}
use ipfs_crawler.Preimage.Bits.{shr, shr-div, shr-shr, shr-power, bit_or_apart, bit_xor_flips}

-- The first three bytes of a hash are bytes.
pub record IsBinId (id : BinId) : Type 0 where
  pub byte0 : id.byte0 < 256
  pub byte1 : id.byte1 < 256
  pub byte2 : id.byte2 < 256

-- The first 24 bits of a hash.
abbrev pub prefix : BinId → ℕ
prefix id = id.byte0 * 65536 + id.byte1 * 256 + id.byte2

-- Of 24 bits, the first `cpl` are the same, and the next one is not.
abbrev pub SharesPrefix : ℕ → ℕ → ℕ → Type 0
SharesPrefix cpl a b =
    (a / 2 ^ (24 - cpl) ≡ b / 2 ^ (24 - cpl)) × (a / 2 ^ (23 - cpl) % 2 ≢ b / 2 ^ (23 - cpl) % 2)

word : BinId → ℕ
word id =
    bit_or (bit_or (id.byte0 * 2 ^ 24 % 2 ^ 32) (id.byte1 * 2 ^ 16 % 2 ^ 32))
      (id.byte2 * 2 ^ 8 % 2 ^ 32)

-- The `uint32` made of the three bytes.
word-prefix : (id : BinId) → IsBinId id → word id ≡ prefix id * 256
unfolding word
word-prefix id h =
    let m0 : id.byte0 * 2 ^ 24 % 2 ^ 32 ≡ id.byte0 * 2 ^ 24 = omega (arith, h.byte0) in
    let m1 : id.byte1 * 2 ^ 16 % 2 ^ 32 ≡ id.byte1 * 2 ^ 16 = omega (arith, h.byte1) in
    let m2 : id.byte2 * 2 ^ 8 % 2 ^ 32 ≡ id.byte2 * 2 ^ 8 = omega (arith, h.byte2) in
    let upper = bit_or_apart 24 id.byte0 (id.byte1 * 2 ^ 16) (omega (arith, h.byte1)) in
    let join : id.byte0 * 2 ^ 24 + id.byte1 * 2 ^ 16 ≡ (id.byte0 * 256 + id.byte1) * 2 ^ 16 =
      omega arith in
    let all =
      bit_or_apart 16 (id.byte0 * 256 + id.byte1) (id.byte2 * 2 ^ 8) (omega (arith, h.byte2)) in
    ap (λ a. bit_or (bit_or a (id.byte1 * 2 ^ 16 % 2 ^ 32)) (id.byte2 * 2 ^ 8 % 2 ^ 32)) m0
    ∙ ap (λ b. bit_or (bit_or (id.byte0 * 2 ^ 24) b) (id.byte2 * 2 ^ 8 % 2 ^ 32)) m1
    ∙ ap (λ c. bit_or (bit_or (id.byte0 * 2 ^ 24) (id.byte1 * 2 ^ 16)) c) m2
    ∙ ap (λ a. bit_or a (id.byte2 * 2 ^ 8)) (upper ∙ join)
    ∙ all
    ∙ total
  where
    total : (id.byte0 * 256 + id.byte1) * 2 ^ 16 + id.byte2 * 2 ^ 8 ≡ prefix id * 256
    total = omega arith

-- `0x80000000 >> cpl` is one bit.
shifted_bit : (cpl : ℕ) → cpl < 24 → 2 ^ 31 / 2 ^ cpl ≡ 2 ^ (31 - cpl)
shifted_bit cpl small =
    let e : 31 ≡ cpl + (31 - cpl) = omega (arith, small) in
    ap (λ n. 2 ^ n / 2 ^ cpl) e
    ∙ sym (shr-div cpl (2 ^ (cpl + (31 - cpl))))
    ∙ shr-power cpl (31 - cpl)

-- Bits above the lowest byte.
above_byte : (j m x : ℕ) → 8 + j ≡ m → shr 8 x / 2 ^ j ≡ shr m x
above_byte j m x e = sym (shr-div j (shr 8 x)) ∙ shr-shr j 8 x ∙ ap (λ n. shr n x) e

-- Where the bits above agree, both numbers fit a word.
fits_word :
    (cpl x y : ℕ)
    → cpl < 24
    → shr (suc (31 - cpl)) y ≡ shr (suc (31 - cpl)) x
    → x < 2 ^ 32
    → y < 2 ^ 32
fits_word cpl x y small same bound =
    let e : suc (31 - cpl) + cpl ≡ 32 = omega (arith, small) in
    let whole = λ (n : ℕ). shr-shr cpl (suc (31 - cpl)) n ∙ ap (λ m. shr m n) e ∙ shr-div 32 n in
    let q : y / 2 ^ 32 ≡ x / 2 ^ 32 = sym (whole y) ∙ ap (shr cpl) same ∙ whole x in
    omega (arith, q, bound)

-- The flipped word, moved down by one byte.
target_index-shr :
    (id : BinId) (cpl : ℕ)
    → IsBinId id
    → cpl < 24
    → target_index id cpl ≡ shr 8 (bit_xor (prefix id * 256) (2 ^ (31 - cpl)))
unfolding target_index word
target_index-shr id cpl h small =
    let x = prefix id * 256 in
    let y = bit_xor x (2 ^ (31 - cpl)) in
    let bound =
      fits_word cpl x y small (bit_xor_flips (31 - cpl) x).0
        (omega (arith, h.byte0, h.byte1, h.byte2)) in
    let cut : y % 2 ^ 32 / 2 ^ 8 ≡ shr 8 y = omega (arith, bound) in
    ap (λ w. bit_xor w (2 ^ 31 / 2 ^ cpl) % 2 ^ 32 / 2 ^ 8) (word-prefix id h)
    ∙ ap (λ b. bit_xor x b % 2 ^ 32 / 2 ^ 8) (shifted_bit cpl small)
    ∙ cut

pub target_index-SharesPrefix :
    (id : BinId) (cpl : ℕ)
    → IsBinId id
    → cpl < 24
    → SharesPrefix cpl (target_index id cpl) (prefix id)
target_index-SharesPrefix id cpl h small =
    let x = prefix id * 256 in
    let y = bit_xor x (2 ^ (31 - cpl)) in
    let (same, bit) = bit_xor_flips (31 - cpl) x in
    let t = target_index-shr id cpl h small in
    let back : shr 8 x ≡ prefix id = omega arith in
    let e : 8 + (24 - cpl) ≡ suc (31 - cpl) = omega (arith, small) in
    let f : 8 + (23 - cpl) ≡ 31 - cpl = omega (arith, small) in
    (
      ap (λ a. a / 2 ^ (24 - cpl)) t
          ∙ above_byte (24 - cpl) (suc (31 - cpl)) y e
          ∙ same
          ∙ sym (above_byte (24 - cpl) (suc (31 - cpl)) x e)
          ∙ ap (λ a. a / 2 ^ (24 - cpl)) back,
      λ equal. bit (
          ap (λ a. a % 2)
            (sym (above_byte (23 - cpl) (31 - cpl) y f) ∙ sym (ap (λ a. a / 2 ^ (23 - cpl)) t))
          ∙ equal
          ∙ ap (λ a. a % 2)
              (sym (ap (λ a. a / 2 ^ (23 - cpl)) back) ∙ above_byte (23 - cpl) (31 - cpl) x f)),
    )
