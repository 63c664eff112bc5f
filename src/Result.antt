-- ===== src/Result.antt =====
-- Go's `(value, error)` results, where the value is used only if the error is `nil`.
use ipfs_crawler.Prelude.{Bool, true, false, ◌≡◌, refl, ◌⊎◌, inl, inr}
use ipfs_crawler.Types.{Error}

pub data Result (A : Type 0) : Type 0 where
  value : A → Result A
  error : Error → Result A

infixl 5 ◌>>=◌
abbrev pub ◌>>=◌ : {A B : Type 0} → Result A → (A → Result B) → Result B
value a >>= f = f a
error e >>= f = error e

abbrev pub is_value : {A : Type 0} → Result A → Bool
is_value (value a) = true
is_value (error e) = false

pub Result-cases :
    {A : Type 0} (r : Result A) → ((a : A) × (r ≡ value a)) ⊎ ((e : Error) × (r ≡ error e))
Result-cases (value a) = inl (a, refl)
Result-cases (error e) = inr (e, refl)

-- A chain that succeeds has succeeded at its first step.
pub >>=-eq-value :
    {A B : Type 0} (m : Result A) (f : A → Result B) {b : B}
    → (m >>= f) ≡ value b
    → (a : A) × (m ≡ value a) × (f a ≡ value b)
>>=-eq-value (value a) f h = (a, refl, h)
>>=-eq-value (error e) f h = cc

pub value-injective : {A : Type 0} {a b : A} → value a ≡ value b → a ≡ b
value-injective e = cc
