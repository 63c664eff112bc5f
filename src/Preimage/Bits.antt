-- ===== src/Preimage/Bits.antt =====
-- The bit operations of crawling/preimage.go, as arithmetic.
use Prim.Native.Nat.{max, digits, bitwise, differ, bit_xor, bit_or, bit_xor-bitwise, bit_or-bitwise}
use ipfs_crawler.Prelude.{
  ℕ, zero, suc, ◌+◌, ◌-◌, ◌*◌, ◌/◌, ◌%◌, ◌^◌, ◌≤◌, ◌<◌, ◌≡◌, ◌≢◌, refl, sym, ap, ◌∙◌, arith,
}
use native.Mathlib.Nat.{pow-suc, div-div-eq-div-mul}

module _ (rest : ℕ → ℕ) (op : ℕ → ℕ → ℕ) where
  -- Fuel beyond the first number changes nothing.
  digits_enough : (n m a b : ℕ) → a ≤ n → a ≤ m → digits rest op n a b ≡ digits rest op m a b
  digits_enough zero zero a b p q = refl
  digits_enough zero (suc m) zero b p q = refl
  digits_enough zero (suc m) (suc a) b p q = absurd (omega arith)
  digits_enough (suc n) zero zero b p q = refl
  digits_enough (suc n) zero (suc a) b p q = absurd (omega arith)
  digits_enough (suc n) (suc m) zero b p q = refl
  digits_enough (suc n) (suc m) (suc a) b p q =
      rw (digits_enough n m (suc a / 2) (b / 2) (omega arith) (omega arith))

  lowest_digit :
      (a b : ℕ)
      → bitwise rest op (suc a) b ≡ bitwise rest op (suc a / 2) (b / 2) * 2 + op (suc a % 2) (b % 2)
  lowest_digit a b =
      omega (arith, digits_enough a (suc a / 2) (suc a / 2) (b / 2) (omega arith) (omega arith))

bit_or_halves : (a b : ℕ) → bit_or a b ≡ bit_or (a / 2) (b / 2) * 2 + max (a % 2) (b % 2)
bit_or_halves zero b = simp bit_or-bitwise (omega arith)
bit_or_halves (suc a) b = simp bit_or-bitwise (lowest_digit (λ y. y) max a b)

bit_xor_halves : (a b : ℕ) → bit_xor a b ≡ bit_xor (a / 2) (b / 2) * 2 + differ (a % 2) (b % 2)
bit_xor_halves zero b = simp bit_xor-bitwise (omega arith)
bit_xor_halves (suc a) b = simp bit_xor-bitwise (lowest_digit (λ y. y) differ a b)

-- `x >> k`
abbrev pub shr : ℕ → ℕ → ℕ
shr zero x = x
shr (suc k) x = shr k (x / 2)

pub shr-div : (k x : ℕ) → shr k x ≡ x / 2 ^ k
shr-div zero x = omega arith
shr-div (suc k) x =
    shr-div k (x / 2)
    ∙ div-div-eq-div-mul x 2 (2 ^ k)
    ∙ ap (λ m. x / m) (omega (arith, pow-suc 2 k))

pub shr-shr : (j k x : ℕ) → shr j (shr k x) ≡ shr (k + j) x
shr-shr j zero x = let e : j ≡ 0 + j = omega arith in ap (λ n. shr n x) e
shr-shr j (suc k) x =
    let e : suc (k + j) ≡ suc k + j = omega arith in shr-shr j k (x / 2) ∙ ap (λ n. shr n x) e

double : (q k : ℕ) → q * 2 ^ suc k ≡ q * 2 ^ k * 2
double q k = omega (arith, ap (λ m. q * m) (pow-suc 2 k))

bit_or-zero : (n a : ℕ) → a ≤ n → bit_or a 0 ≡ a
bit_or-zero n zero h = refl
bit_or-zero zero (suc a) h = absurd (omega arith)
bit_or-zero (suc n) (suc a) h =
    omega (arith, bit_or_halves (suc a) 0, bit_or-zero n (suc a / 2) (omega arith))

differ-zero : (b : ℕ) → differ b 0 ≡ b
differ-zero zero = refl
differ-zero (suc b) = refl

differ-one : (b : ℕ) → b < 2 → differ b 1 ≡ 1 - b
differ-one zero h = refl
differ-one (suc zero) h = refl
differ-one (suc (suc b)) h = absurd (omega arith)

bit_xor-zero : (n a : ℕ) → a ≤ n → bit_xor a 0 ≡ a
bit_xor-zero n zero h = refl
bit_xor-zero zero (suc a) h = absurd (omega arith)
bit_xor-zero (suc n) (suc a) h = omega (
  arith,
  bit_xor_halves (suc a) 0,
  differ-zero (suc a % 2),
  bit_xor-zero n (suc a / 2) (omega arith),
)

-- `|` of numbers that share no bit is their sum.
pub bit_or_apart : (k q r : ℕ) → r < 2 ^ k → bit_or (q * 2 ^ k) r ≡ q * 2 ^ k + r
bit_or_apart zero q r small = ground (arith, bit_or-zero q q (omega arith))
bit_or_apart (suc k) q r small = ground (
  arith,
  bit_or_halves (q * 2 ^ suc k) r,
  double q k,
  bit_or_apart k q (r / 2) (omega (arith, pow-suc 2 k)),
)

even : (k : ℕ) → 2 ^ suc k % 2 ≡ 0
even k = omega (arith, pow-suc 2 k)

half_power : (k : ℕ) → 2 ^ suc k / 2 ≡ 2 ^ k
half_power k = omega (arith, pow-suc 2 k)

pub shr-power : (k j : ℕ) → shr k (2 ^ (k + j)) ≡ 2 ^ j
shr-power zero j = let e : 0 + j ≡ j = omega arith in ap (λ n. 2 ^ n) e
shr-power (suc k) j =
    let e : suc k + j ≡ suc (k + j) = omega arith in
    ap (λ n. shr k (2 ^ n / 2)) e ∙ ap (shr k) (half_power (k + j)) ∙ shr-power k j

-- `^` with one bit flips this bit and leaves those above.
pub bit_xor_flips :
    (k x : ℕ)
    → (shr (suc k) (bit_xor x (2 ^ k)) ≡ shr (suc k) x)
      × (shr k (bit_xor x (2 ^ k)) % 2 ≢ shr k x % 2)
bit_xor_flips zero x =
    let flipped : bit_xor x 1 ≡ x / 2 * 2 + (1 - x % 2) = omega (
      arith,
      bit_xor_halves x 1,
      bit_xor-zero (x / 2) (x / 2) (omega arith),
      differ-one (x % 2) (omega arith),
    ) in
    (omega (arith, flipped), λ e. omega (arith, flipped, e))
bit_xor_flips (suc k) x =
    let half : bit_xor x (2 ^ suc k) / 2 ≡ bit_xor (x / 2) (2 ^ k) = omega (
      arith,
      bit_xor_halves x (2 ^ suc k),
      differ-zero (x % 2),
      ap (λ m. differ (x % 2) m) (even k),
      ap (bit_xor (x / 2)) (half_power k),
    ) in
    let (above, bit) = bit_xor_flips k (x / 2) in
    (ap (λ m. shr (suc k) m) half ∙ above, λ e. bit (sym (ap (λ m. shr k m % 2) half) ∙ e))
