-- ===== src/Preimage/Found.antt =====
-- The preimages that cmd/hash-precomputation/main.go finds, that `LoadPreimages` reads and
-- `findPreImageForCPL` returns, both of crawling/preimage.go.
use mathlib.Core.Option.{some-injective}
use Prim.Native.Nat.{bit_or}
use ipfs_crawler.Prelude.{
  ℕ, suc, ◌+◌, ◌*◌, ◌^◌, ◌%◌, ◌≡◌, refl, sym, ap, ◌∙◌, true, List, [], ◌∷◌, ◌++◌, some, ltb, lt→ltb,
  ◌≢◌, arith, All-append,
}
use ipfs_crawler.Panic.{ok}
use ipfs_crawler.Result.{value}
use ipfs_crawler.Preimage.{PreimageHandler, BinId}
use ipfs_crawler.Preimage.Bits.{bit_or_apart}
use ipfs_crawler.Preimage.Target.{IsBinId, prefix}
use ipfs_crawler.Preimage.Text.{Bytes, binary, hex_encode, scan_binary, little_endian, uint64}
use ipfs_crawler.Preimage.Codes.{
  split_two, binary-IsPart, hex_encode-IsPart, IsPart, scan_binary-binary, hex_decode-hex_encode,
  little_endian-IsByte,
}
use ipfs_crawler.Preimage.Load.{
  scan_bytes, prepend, to_target, store, with_preimage, with_target, load_line,
}
use ipfs_crawler.Preimage.Precompute.{encoded_hash}

abbrev three : BinId → List ℕ
three id = id.byte0 ∷ id.byte1 ∷ id.byte2 ∷ []

scan_next :
    (n b : ℕ) (cs rest : Bytes)
    → scan_binary cs ≡ some (b, rest)
    → scan_bytes (suc n) cs ≡ prepend b (scan_bytes n rest)
unfolding scan_bytes
scan_next n b cs rest e = rw (scan_bytes, e) refl

scan_bytes-encoded_hash :
    (id : BinId) → IsBinId id → scan_bytes 3 (encoded_hash id) ≡ some (three id)
unfolding encoded_hash prepend scan_bytes
scan_bytes-encoded_hash id h =
    let third =
      scan_next 0 id.byte2 (binary id.byte2 ++ []) [] (scan_binary-binary id.byte2 [] h.byte2) in
    let second =
      scan_next 1 id.byte1 (binary id.byte1 ++ (binary id.byte2 ++ [])) _
        (scan_binary-binary id.byte1 _ h.byte1) in
    scan_next 2 id.byte0 (binary id.byte0 ++ (binary id.byte1 ++ (binary id.byte2 ++ []))) _
      (scan_binary-binary id.byte0 _ h.byte0)
    ∙ ap (prepend id.byte0) (second ∙ ap (prepend id.byte1) third)

pub to_target-prefix : (id : BinId) → IsBinId id → to_target (three id) ≡ prefix id
unfolding to_target
to_target-prefix id h =
    let m0 : id.byte0 * 2 ^ 16 % 2 ^ 32 ≡ id.byte0 * 2 ^ 16 = omega (arith, h.byte0) in
    let m1 : id.byte1 * 2 ^ 8 % 2 ^ 32 ≡ id.byte1 * 2 ^ 8 = omega (arith, h.byte1) in
    let upper = bit_or_apart 16 id.byte0 (id.byte1 * 2 ^ 8) (omega (arith, h.byte1)) in
    let join : id.byte0 * 2 ^ 16 + id.byte1 * 2 ^ 8 ≡ (id.byte0 * 256 + id.byte1) * 2 ^ 8 =
      omega arith in
    let all = bit_or_apart 8 (id.byte0 * 256 + id.byte1) id.byte2 (omega (arith, h.byte2)) in
    ap (λ a. bit_or (bit_or a (id.byte1 * 2 ^ 8 % 2 ^ 32)) id.byte2) m0
    ∙ ap (λ b. bit_or (bit_or (id.byte0 * 2 ^ 16) b) id.byte2) m1
    ∙ ap (λ a. bit_or a id.byte2) (upper ∙ join)
    ∙ all
    ∙ total
  where
    total : (id.byte0 * 256 + id.byte1) * 2 ^ 8 + id.byte2 ≡ prefix id
    total = omega arith

-- The text of a prefix determines it.
pub encoded_hash_lem :
    (a b : BinId) → IsBinId a → IsBinId b → encoded_hash a ≡ encoded_hash b → prefix a ≡ prefix b
encoded_hash_lem a b ha hb e =
    let s : some (three a) ≡ some (three b) =
      sym (scan_bytes-encoded_hash a ha) ∙ ap (scan_bytes 3) e ∙ scan_bytes-encoded_hash b hb in
    sym (to_target-prefix a ha) ∙ ap to_target (some-injective _ _ s) ∙ to_target-prefix b hb

encoded_hash-IsPart : (id : BinId) → IsPart (encoded_hash id)
unfolding encoded_hash
encoded_hash-IsPart id =
    All-append (λ c. c ≢ 59) (binary id.byte0) (binary id.byte1 ++ (binary id.byte2 ++ []))
      (binary-IsPart id.byte0)
      (All-append (λ c. c ≢ 59) (binary id.byte1) (binary id.byte2 ++ []) (binary-IsPart id.byte1)
        (All-append (λ c. c ≢ 59) (binary id.byte2) [] (binary-IsPart id.byte2) tt))

with_target-store :
    (ph : PreimageHandler) (id : BinId) (n : ℕ)
    → IsBinId id
    → with_target ph (hex_encode (little_endian n) ∷ []) (some (three id))
      ≡ ok (value (store ph (prefix id) (uint64 (little_endian n))))
unfolding with_target with_preimage little_endian
with_target-store ph id n h =
    let small : ltb (prefix id) (2 ^ 24) ≡ true =
      lt→ltb (prefix id) (2 ^ 24) (omega (arith, h.byte0, h.byte1, h.byte2)) in
    rw
      (
        with_target,
        to_target-prefix id h,
        small,
        hex_decode-hex_encode (little_endian n) (little_endian-IsByte n),
      )
      refl

-- A line that the program writes is stored under its prefix.
pub load_line-store :
    (ph : PreimageHandler) (id : BinId) (n : ℕ)
    → IsBinId id
    → load_line ph (encoded_hash id ++ 59 ∷ hex_encode (little_endian n))
      ≡ ok (value (store ph (prefix id) (uint64 (little_endian n))))
unfolding load_line
load_line-store ph id n h =
    let hex = hex_encode (little_endian n) in
    ap (λ parts. with_target ph parts.1 (scan_bytes 3 parts.0))
      (split_two (encoded_hash id) hex (encoded_hash-IsPart id)
        (hex_encode-IsPart (little_endian n)))
    ∙ ap (with_target ph (hex ∷ [])) (scan_bytes-encoded_hash id h)
    ∙ with_target-store ph id n h
