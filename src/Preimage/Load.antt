-- ===== src/Preimage/Load.antt =====
-- `LoadPreimages` of crawling/preimage.go, from the lines that the scanner gives.

use Prim.Native.Nat.{bit_or}
use ipfs_crawler.Prelude.{
  ℕ, zero, suc, ◌*◌, ◌^◌, ◌%◌, ◌==◌, List, [], ◌∷◌, Option, none, some, if◌then◌else◌, length, ltb,
  ite, ℕ_discrete,
}
use ipfs_crawler.Panic.{Exec, ok, fault, out_of_range, ◌>>=◌}
use ipfs_crawler.Result.{Result, value, error}
use ipfs_crawler.Preimage.{PreimageHandler}
use ipfs_crawler.Preimage.Text.{Bytes, hex_decode, split, scan_binary, uint64}

-- `Sscanf` with that many verbs.
unfoldable pub prepend : ℕ → Option (List ℕ) → Option (List ℕ)
prepend b none = none
prepend b (some bs) = some (b ∷ bs)

unfoldable pub scan_bytes : ℕ → Bytes → Option (List ℕ)
unfolding prepend
scan_bytes zero cs = some []
scan_bytes (suc n) cs = elim (scan_binary cs) [
  | none ↦ none
  | some (b, rest) ↦ prepend b (scan_bytes n rest)
]

-- The target: the three bytes in the lower 24 bits.
unfoldable pub to_target : List ℕ → ℕ
to_target (b₁ ∷ b₂ ∷ b₃ ∷ []) = bit_or (bit_or (b₁ * 2 ^ 16 % 2 ^ 32) (b₂ * 2 ^ 8 % 2 ^ 32)) b₃
to_target bs = 0

-- `preimages[target] = x`
unfoldable pub store : PreimageHandler → ℕ → ℕ → PreimageHandler
store ph target x = record { preimages = λ k. ite (ℕ_discrete target k) x (ph.preimages k) }

-- The preimage of a line, of which the target was read.
unfoldable pub with_preimage : PreimageHandler → ℕ → Option Bytes → Result PreimageHandler
unfolding store
with_preimage ph target none = error "unable to decode preimage"
with_preimage ph target (some bs) =
    if length bs == 8 then value (store ph target (uint64 bs)) else error "expected 8-byte preimage"

unfoldable pub with_target :
    PreimageHandler → List Bytes → Option (List ℕ) → Exec (Result PreimageHandler)
unfolding with_preimage to_target
with_target ph parts none = ok (error "unable to decode target")
with_target ph [] (some bs) = fault out_of_range
with_target ph (p ∷ parts) (some bs) =
    if ltb (to_target bs) (2 ^ 24)
    then ok (with_preimage ph (to_target bs) (hex_decode p))
    else fault out_of_range

unfoldable pub load_line : PreimageHandler → Bytes → Exec (Result PreimageHandler)
unfolding with_target scan_bytes
load_line ph line = let (first, parts) = split line in with_target ph parts (scan_bytes 3 first)

-- The lines after the header.
unfoldable pub load_lines : List Bytes → PreimageHandler → Exec (Result PreimageHandler)
unfolding load_line
load_lines [] ph = ok (value ph)
load_lines (line ∷ lines) ph = load_line ph line >>= λ loaded. elim loaded [
  | error e ↦ ok (error e)
  | value ph' ↦ load_lines lines ph'
]

-- `opened` is the error of `os.Open`, or the lines of the file, of which the first is thrown away. An
-- error of the scanner ends the lines and is not looked at.
unfoldable pub load_preimages : Result (List Bytes) → Exec (Result PreimageHandler)
unfolding load_lines
load_preimages (error e) = ok (error e)
load_preimages (value []) = ok (value (record { preimages = λ k. 0 }))
load_preimages (value (header ∷ lines)) = load_lines lines (record { preimages = λ k. 0 })
