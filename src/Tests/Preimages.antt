-- ===== src/Tests/Preimages.antt =====
-- The theorem on the preimages, for a hash that is the first three bytes.
use ipfs_crawler.Prelude.{ℕ, ℕ_discrete, ◌%◌, ◌≡◌, refl, [], ◌∷◌, arith}
use ipfs_crawler.Panic.{ok}
use ipfs_crawler.Result.{value}
use ipfs_crawler.GoMap.{contains, lookup, insert}
use ipfs_crawler.Preimage.{PreimageHandler, BinId, target_index, find_pre_image_for_cpl}
use ipfs_crawler.Preimage.Target.{IsBinId, prefix, SharesPrefix}
use ipfs_crawler.Preimage.Text.{Bytes, binary, little_endian, big_endian}
use ipfs_crawler.Preimage.Load.{load_preimages}
use ipfs_crawler.Preimage.Precompute.{bytes_dec, precompute, no_preimages, file_lines}
use ipfs_crawler.Preimage.Shared.{find_pre_image-SharesPrefix}

abbrev sum256 : Bytes → BinId
sum256 (a ∷ b ∷ c ∷ rest) = record { byte0 = a % 256; byte1 = b % 256; byte2 = c % 256 }
sum256 rest = record { byte0 = 0; byte1 = 0; byte2 = 0 }

sum256-IsBinId : (p : Bytes) → IsBinId (sum256 p)
sum256-IsBinId [] = record { byte0 = omega arith; byte1 = omega arith; byte2 = omega arith }
sum256-IsBinId (a ∷ []) = record { byte0 = omega arith; byte1 = omega arith; byte2 = omega arith }
sum256-IsBinId (a ∷ b ∷ []) = record {
  byte0 = omega arith;
  byte1 = omega arith;
  byte2 = omega arith;
}
sum256-IsBinId (a ∷ b ∷ c ∷ rest) = record {
  byte0 = omega arith;
  byte1 = omega arith;
  byte2 = omega arith;
}

abbrev peer : BinId
peer = record { byte0 = 0; byte1 = 0; byte2 = 0 }

find_pre_image-SharesPrefix_example :
    (ph : PreimageHandler) × (x : ℕ) × (load_preimages
        (value (file_lines (λ ks. ks) (precompute sum256 2 4 no_preimages)))
      ≡ ok (value ph))
    × (find_pre_image_for_cpl ph peer 7 ≡ ok x)
    × SharesPrefix 7 (prefix (sum256 (big_endian x))) (prefix peer)
unfolding precompute contains lookup insert bytes_dec binary little_endian target_index ℕ_discrete
find_pre_image-SharesPrefix_example =
    find_pre_image-SharesPrefix sum256 sum256-IsBinId (λ ks. ks) (λ ks k. refl) 2 4 peer 7 1
      (record { byte0 = omega arith; byte1 = omega arith; byte2 = omega arith }) (omega arith) refl
      refl
