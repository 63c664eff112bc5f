-- ===== src/Preimage/Codes.antt =====
-- The texts of the file of preimages, read back.
use ipfs_crawler.Prelude.{
  ℕ, zero, suc, ◌+◌, ◌*◌, ◌/◌, ◌%◌, ◌^◌, ◌<◌, ◌≡◌, ◌≢◌, refl, ap, ◌∙◌, [], ◌∷◌, ◌++◌, some, arith,
  All,
}
use ipfs_crawler.Preimage.Text.{
  Bytes, bit_char, binary, hex_char, hex_encode, hex_digit, hex_pair, hex_decode, split,
  scan_digits, skip_spaces, scan_nonempty, scan_binary, little_endian, big_endian, uint64,
}

abbrev pub IsByte : ℕ → Type 0
IsByte b = b < 256

-- No separator
abbrev pub IsPart : Bytes → Type 0
IsPart = All (λ c. c ≢ 59)

split_part : (cs ds : Bytes) → IsPart cs → split (cs ++ 59 ∷ ds) ≡ (cs, (split ds).0 ∷ (split ds).1)
unfolding split
split_part [] ds h = refl
split_part (c ∷ cs) ds h = ground (arith, split_part cs ds h.1, h.0)

split_last : (ds : Bytes) → IsPart ds → split ds ≡ (ds, [])
unfolding split
split_last [] h = refl
split_last (d ∷ ds) h = ground (arith, split_last ds h.1, h.0)

pub split_two : (cs ds : Bytes) → IsPart cs → IsPart ds → split (cs ++ 59 ∷ ds) ≡ (cs, ds ∷ [])
split_two cs ds h k = split_part cs ds h ∙ ap (λ p. (cs, p.0 ∷ p.1)) (split_last ds k)

scan_digit :
    (n acc d : ℕ) (cs : Bytes)
    → d < 2
    → scan_digits (suc n) acc ((48 + d) ∷ cs) ≡ scan_digits n (acc * 2 + d) cs
unfolding scan_digits
scan_digit n acc zero cs h = refl
scan_digit n acc (suc zero) cs h = refl
scan_digit n acc (suc (suc d)) cs h = absurd (omega arith)

scan_none : (acc : ℕ) (cs : Bytes) → scan_digits 0 acc cs ≡ (acc, cs)
unfolding scan_digits
scan_none acc cs = refl

scan_start :
    (d : ℕ) (cs : Bytes)
    → d < 2
    → scan_binary ((48 + d) ∷ cs) ≡ some (scan_digits 8 0 ((48 + d) ∷ cs))
unfolding scan_binary skip_spaces scan_nonempty
scan_start zero cs h = refl
scan_start (suc zero) cs h = refl
scan_start (suc (suc d)) cs h = absurd (omega arith)

digits_value :
    (b : ℕ)
    → IsByte b
    → (((((((0 * 2 + b / 2 ^ 7 % 2) * 2 + b / 2 ^ 6 % 2) * 2 + b / 2 ^ 5 % 2) * 2 + b / 2 ^ 4 % 2)
                      * 2
                    + b / 2 ^ 3 % 2)
                  * 2
                + b / 2 ^ 2 % 2)
              * 2
            + b / 2 ^ 1 % 2)
          * 2
        + b / 2 ^ 0 % 2
      ≡ b
digits_value b h = omega arith

-- The eight digits of a byte are read back, and what follows is left.
pub scan_binary-binary :
    (b : ℕ) (cs : Bytes) → IsByte b → scan_binary (binary b ++ cs) ≡ some (b, cs)
unfolding binary bit_char
scan_binary-binary b cs h =
    scan_start (b / 2 ^ 7 % 2) _ (omega arith)
    ∙ ap some (
        scan_digit 7 0 (b / 2 ^ 7 % 2) _ (omega arith)
        ∙ scan_digit 6 _ (b / 2 ^ 6 % 2) _ (omega arith)
        ∙ scan_digit 5 _ (b / 2 ^ 5 % 2) _ (omega arith)
        ∙ scan_digit 4 _ (b / 2 ^ 4 % 2) _ (omega arith)
        ∙ scan_digit 3 _ (b / 2 ^ 3 % 2) _ (omega arith)
        ∙ scan_digit 2 _ (b / 2 ^ 2 % 2) _ (omega arith)
        ∙ scan_digit 1 _ (b / 2 ^ 1 % 2) _ (omega arith)
        ∙ scan_digit 0 _ (b / 2 ^ 0 % 2) cs (omega arith)
        ∙ scan_none _ cs
        ∙ ap (λ x. (x, cs)) (digits_value b h))

pub binary-IsPart : (b : ℕ) → IsPart (binary b)
unfolding binary bit_char
binary-IsPart b =
    (digit 7, (digit 6, (digit 5, (digit 4, (digit 3, (digit 2, (digit 1, (digit 0, tt))))))))
  where
    digit : (k : ℕ) → bit_char b k ≢ 59
    digit k e = omega (arith, e)

hex_char-IsPart : (d : ℕ) → hex_char d ≢ 59
unfolding hex_char
hex_char-IsPart d e = ground arith

pub hex_encode-IsPart : (bs : Bytes) → IsPart (hex_encode bs)
unfolding hex_encode
hex_encode-IsPart [] = tt
hex_encode-IsPart (b ∷ bs) =
    (hex_char-IsPart (b / 16 % 16), (hex_char-IsPart (b % 16), hex_encode-IsPart bs))

hex_digit-hex_char : (d : ℕ) → d < 16 → hex_digit (hex_char d) ≡ some d
unfolding hex_digit hex_char
hex_digit-hex_char d h = ground arith

pub hex_decode-hex_encode : (bs : Bytes) → All IsByte bs → hex_decode (hex_encode bs) ≡ some bs
unfolding hex_decode hex_encode hex_pair
hex_decode-hex_encode [] h = refl
hex_decode-hex_encode (b ∷ bs) h =
    let e : b / 16 % 16 * 16 + b % 16 ≡ b = omega (arith, h.0) in
    rw
      (
        hex_digit-hex_char (b / 16 % 16) (omega arith),
        hex_digit-hex_char (b % 16) (omega arith),
        hex_decode-hex_encode bs h.1,
      )
      (ap (λ x. some (x ∷ bs)) e)

-- Eight bytes are read as a number that has these bytes.
eight_bytes :
    (a b c d e f g h : ℕ)
    → IsByte a
    → IsByte b
    → IsByte c
    → IsByte d
    → IsByte e
    → IsByte f
    → IsByte g
    → IsByte h
    → let bs : Bytes = a ∷ b ∷ c ∷ d ∷ e ∷ f ∷ g ∷ h ∷ [] in big_endian (uint64 bs) ≡ bs
unfolding big_endian uint64
eight_bytes a b c d e f g h ha hb hc hd he hf hg hh =
    let x =
      a * 256 ^ 7
      + (b * 256 ^ 6
          + (c * 256 ^ 5
              + (d * 256 ^ 4
                  + (e * 256 ^ 3 + (f * 256 ^ 2 + (g * 256 ^ 1 + (h * 256 ^ 0 + 0))))))) in
    let pa : x / 2 ^ 56 % 256 ≡ a = omega (arith, ha, hb, hc, hd, he, hf, hg, hh) in
    let pb : x / 2 ^ 48 % 256 ≡ b = omega (arith, ha, hb, hc, hd, he, hf, hg, hh) in
    let pc : x / 2 ^ 40 % 256 ≡ c = omega (arith, ha, hb, hc, hd, he, hf, hg, hh) in
    let pd : x / 2 ^ 32 % 256 ≡ d = omega (arith, ha, hb, hc, hd, he, hf, hg, hh) in
    let pe : x / 2 ^ 24 % 256 ≡ e = omega (arith, ha, hb, hc, hd, he, hf, hg, hh) in
    let pf : x / 2 ^ 16 % 256 ≡ f = omega (arith, ha, hb, hc, hd, he, hf, hg, hh) in
    let pg : x / 2 ^ 8 % 256 ≡ g = omega (arith, ha, hb, hc, hd, he, hf, hg, hh) in
    let ph : x % 256 ≡ h = omega (arith, ha, hb, hc, hd, he, hf, hg, hh) in
    λ i. pa i ∷ pb i ∷ pc i ∷ pd i ∷ pe i ∷ pf i ∷ pg i ∷ ph i ∷ []

pub little_endian-IsByte : (x : ℕ) → All IsByte (little_endian x)
unfolding little_endian
little_endian-IsByte x = (
  omega arith,
  (
    omega arith,
    (omega arith, (omega arith, (omega arith, (omega arith, (omega arith, (omega arith, tt)))))),
  ),
)

pub big_endian-little_endian : (x : ℕ) → big_endian (uint64 (little_endian x)) ≡ little_endian x
unfolding little_endian
big_endian-little_endian x =
    eight_bytes _ _ _ _ _ _ _ _ (omega arith) (omega arith) (omega arith) (omega arith)
      (omega arith) (omega arith) (omega arith) (omega arith)
