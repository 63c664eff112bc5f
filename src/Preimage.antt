-- ===== src/Preimage.antt =====
-- `findPreImageForCPL` of crawling/preimage.go.
pub mod Bits
pub mod Target
pub mod Text
pub mod Load
pub mod Precompute
pub mod Codes
pub mod Found
pub mod Shared
pub mod Safe
use Prim.Native.Nat.{bit_xor, bit_or}
use ipfs_crawler.Prelude.{ℕ, ◌*◌, ◌/◌, ◌%◌, ◌^◌, if◌then◌else◌, ltb}
use ipfs_crawler.Panic.{Exec, ok, fault, bad_cpl, out_of_range}

-- The table, and the first three bytes of `kb.ConvertPeerID`, the hash of a peer's ID.
pub record PreimageHandler : Type 0 where
  pub preimages : ℕ → ℕ

pub record BinId : Type 0 where
  pub byte0 : ℕ
  pub byte1 : ℕ
  pub byte2 : ℕ

-- The index: the prefix of the hash as the upper bytes of a `uint32`, with the bit after the common
-- prefix flipped, then moved down by one byte.
unfoldable pub target_index : BinId → ℕ → ℕ
target_index id cpl =
    let prefix =
      bit_or (bit_or (id.byte0 * 2 ^ 24 % 2 ^ 32) (id.byte1 * 2 ^ 16 % 2 ^ 32))
        (id.byte2 * 2 ^ 8 % 2 ^ 32) in
    bit_xor prefix (2 ^ 31 / 2 ^ cpl) % 2 ^ 32 / 2 ^ 8

-- The preimage as the `uint64` whose big-endian bytes are returned.
unfoldable pub find_pre_image_for_cpl : PreimageHandler → BinId → ℕ → Exec ℕ
unfolding target_index
find_pre_image_for_cpl ph id cpl =
    let target = target_index id cpl in
    if ltb 23 cpl
    then fault bad_cpl
    else (if ltb target (2 ^ 24) then ok (ph.preimages target) else fault out_of_range)
