-- ===== src/Preimage/Text.antt =====
-- The functions of Go's library that write and read the file of preimages, on texts as lists of bytes:
-- `%08b` of `fmt`, the hexadecimal encoding, `strings.Split`, and the byte orders.
use ipfs_crawler.Prelude.{
  ℕ, zero, suc, ◌+◌, ◌-◌, ◌*◌, ◌/◌, ◌%◌, ◌^◌, ◌==◌, ◌||◌, ◌&&◌, List, [], ◌∷◌, Option, none, some,
  if◌then◌else◌, ltb, leb, length,
}

abbrev pub Bytes : Type 0
Bytes = List ℕ

-- The digit 0 or 1 at the place `k`.
unfoldable pub bit_char : ℕ → ℕ → ℕ
bit_char b k = 48 + b / 2 ^ k % 2

-- `%08b` of a byte
unfoldable pub binary : ℕ → Bytes
unfolding bit_char
binary b =
    bit_char b 7
    ∷ bit_char b 6
    ∷ bit_char b 5
    ∷ bit_char b 4
    ∷ bit_char b 3
    ∷ bit_char b 2
    ∷ bit_char b 1
    ∷ bit_char b 0
    ∷ []

-- A digit in base 16
unfoldable pub hex_char : ℕ → ℕ
hex_char d = if ltb d 10 then 48 + d else 87 + d

-- `hex.EncodeToString`
unfoldable pub hex_encode : Bytes → Bytes
unfolding hex_char
hex_encode [] = []
hex_encode (b ∷ bs) = hex_char (b / 16 % 16) ∷ hex_char (b % 16) ∷ hex_encode bs

unfoldable pub hex_digit : ℕ → Option ℕ
hex_digit c =
    if leb 48 c && leb c 57
    then some (c - 48)
    else (if leb 97 c && leb c 102
        then some (c - 87)
        else (if leb 65 c && leb c 70 then some (c - 55) else none))

unfoldable pub hex_pair : Option ℕ → Option ℕ → Option Bytes → Option Bytes
hex_pair (some h) (some l) (some bs) = some ((h * 16 + l) ∷ bs)
hex_pair none l bs = none
hex_pair (some h) none bs = none
hex_pair (some h) (some l) none = none

-- `hex.DecodeString`, where an error is `none`
unfoldable pub hex_decode : Bytes → Option Bytes
unfolding hex_digit hex_pair
hex_decode [] = some []
hex_decode (c ∷ []) = none
hex_decode (c ∷ d ∷ cs) = hex_pair (hex_digit c) (hex_digit d) (hex_decode cs)

-- `strings.Split(line, ";")`: the first part, and the others.
unfoldable pub split : Bytes → Bytes × List Bytes
split [] = ([], [])
split (c ∷ cs) =
    let rest = split cs in if c == 59 then ([], rest.0 ∷ rest.1) else (c ∷ rest.0, rest.1)

-- A verb `%08b` of `Sscanf` reads at most eight digits, and at least one. The value and what is left.
unfoldable pub scan_digits : ℕ → ℕ → Bytes → ℕ × Bytes
scan_digits zero acc cs = (acc, cs)
scan_digits (suc n) acc [] = (acc, [])
scan_digits (suc n) acc (c ∷ cs) =
    let more = scan_digits n (acc * 2 + (c - 48)) cs in
    if (c == 48) || (c == 49) then more else (acc, c ∷ cs)

-- Spaces before it are skipped.
unfoldable pub skip_spaces : Bytes → Bytes
skip_spaces [] = []
skip_spaces (c ∷ cs) =
    let rest = skip_spaces cs in if (c == 32) || (leb 9 c && leb c 13) then rest else c ∷ cs

unfoldable pub scan_nonempty : Bytes → Option (ℕ × Bytes)
unfolding scan_digits
scan_nonempty [] = none
scan_nonempty (c ∷ cs) = if (c == 48) || (c == 49) then some (scan_digits 8 0 (c ∷ cs)) else none

unfoldable pub scan_binary : Bytes → Option (ℕ × Bytes)
unfolding scan_nonempty skip_spaces
scan_binary cs = scan_nonempty (skip_spaces cs)

-- `binary.LittleEndian.PutUint64` and `binary.BigEndian.PutUint64`
unfoldable pub little_endian : ℕ → Bytes
little_endian x =
    x % 256
    ∷ x / 2 ^ 8 % 256
    ∷ x / 2 ^ 16 % 256
    ∷ x / 2 ^ 24 % 256
    ∷ x / 2 ^ 32 % 256
    ∷ x / 2 ^ 40 % 256
    ∷ x / 2 ^ 48 % 256
    ∷ x / 2 ^ 56 % 256
    ∷ []

unfoldable pub big_endian : ℕ → Bytes
big_endian x =
    x / 2 ^ 56 % 256
    ∷ x / 2 ^ 48 % 256
    ∷ x / 2 ^ 40 % 256
    ∷ x / 2 ^ 32 % 256
    ∷ x / 2 ^ 24 % 256
    ∷ x / 2 ^ 16 % 256
    ∷ x / 2 ^ 8 % 256
    ∷ x % 256
    ∷ []

-- `binary.BigEndian.Uint64`, of eight bytes
unfoldable pub uint64 : Bytes → ℕ
uint64 [] = 0
uint64 (b ∷ bs) = b * 256 ^ length bs + uint64 bs
