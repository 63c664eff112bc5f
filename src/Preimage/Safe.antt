-- ===== src/Preimage/Safe.antt =====
-- `LoadPreimages` of crawling/preimage.go does not panic on lines that have a semicolon.

use ipfs_crawler.Prelude.{
  ℕ, zero, suc, ◌+◌, ◌-◌, ◌*◌, ◌^◌, ◌≤◌, ◌<◌, ◌≡◌, refl, sym, ap, ◌∙◌, subst, true, false, ◌||◌,
  List, [], ◌∷◌, Option, none, some, arith, All, lt→ltb, ◌==◌, inl, inr, Bool-cases, Option-cases,
  Bool, if◌then◌else◌, on_if, ◌≢◌,
}
use ipfs_crawler.Panic.{Exec, ok, ◌>>=◌}
use ipfs_crawler.Result.{Result, value, error}
use ipfs_crawler.Preimage.{PreimageHandler, BinId}
use ipfs_crawler.Preimage.Text.{Bytes, split, scan_digits, skip_spaces, scan_nonempty, scan_binary}
use ipfs_crawler.Preimage.Load.{
  prepend, scan_bytes, to_target, with_target, load_line, load_lines, load_preimages,
}
use ipfs_crawler.Preimage.Found.{to_target-prefix}

-- One more than the most that n more digits make of `acc`.
abbrev top : ℕ → ℕ → ℕ
top zero acc = suc acc
top (suc n) acc = top n (acc * 2 + 1)

top_mono : (n a b : ℕ) → a ≤ b → top n a ≤ top n b
top_mono zero a b h = omega arith
top_mono (suc n) a b h = top_mono n (a * 2 + 1) (b * 2 + 1) (omega arith)

top_above : (n a : ℕ) → a < top n a
top_above zero a = omega arith
top_above (suc n) a = omega (arith, top_above n (a * 2 + 1))

digit_small : (c : ℕ) → ((c == 48) || (c == 49)) ≡ true → c - 48 ≤ 1
digit_small c h = ground arith

scan_digits-lt-top : (n acc : ℕ) (cs : Bytes) → (scan_digits n acc cs).0 < top n acc
unfolding scan_digits
scan_digits-lt-top zero acc cs = omega arith
scan_digits-lt-top (suc n) acc [] = top_above (suc n) acc
scan_digits-lt-top (suc n) acc (c ∷ cs) = elim (Bool-cases ((c == 48) || (c == 49))) [
  | inr other ↦ rw (scan_digits, other) (top_above (suc n) acc)
  | inl digit ↦
      let ih = scan_digits-lt-top n (acc * 2 + (c - 48)) cs in
      let up = top_mono n (acc * 2 + (c - 48)) (acc * 2 + 1) (omega (arith, digit_small c digit)) in
      rw (scan_digits, digit) (omega (arith, ih, up))
]

-- What `%08b` reads fits a byte.
abbrev IsByteIf : Option (ℕ × Bytes) → Type 0
IsByteIf none = Unit
IsByteIf (some (b, rest)) = b < 256

scan_nonempty-IsByteIf : (cs : Bytes) → IsByteIf (scan_nonempty cs)
unfolding scan_nonempty
scan_nonempty-IsByteIf [] = tt
scan_nonempty-IsByteIf (c ∷ cs) =
    on_if IsByteIf ((c == 48) || (c == 49)) (scan_digits-lt-top 8 0 (c ∷ cs)) tt

abbrev AreBytesIf : Option (List ℕ) → Type 0
AreBytesIf none = Unit
AreBytesIf (some bs) = All (λ b. b < 256) bs

prepend-AreBytesIf :
    (b : ℕ) (o : Option (List ℕ)) → b < 256 → AreBytesIf o → AreBytesIf (prepend b o)
unfolding prepend
prepend-AreBytesIf b none small h = tt
prepend-AreBytesIf b (some bs) small h = (small, h)

scan_bytes-AreBytesIf : (n : ℕ) (cs : Bytes) → AreBytesIf (scan_bytes n cs)
unfolding scan_bytes scan_binary
scan_bytes-AreBytesIf zero cs = tt
scan_bytes-AreBytesIf (suc n) cs = elim (Option-cases (scan_nonempty (skip_spaces cs))) [
  | inl failed ↦ rw (scan_bytes, scan_binary, failed) tt
  | inr ((b, rest), read) ↦
      rw (scan_bytes, scan_binary, read)
        (prepend-AreBytesIf b (scan_bytes n rest)
          (subst IsByteIf read (scan_nonempty-IsByteIf (skip_spaces cs)))
          (scan_bytes-AreBytesIf n rest))
]

to_target-small : (bs : List ℕ) → All (λ b. b < 256) bs → to_target bs < 2 ^ 24
unfolding to_target
to_target-small [] h = omega arith
to_target-small (a ∷ []) h = omega arith
to_target-small (a ∷ b ∷ []) h = omega arith
to_target-small (a ∷ b ∷ c ∷ d ∷ rest) h = omega arith
to_target-small (a ∷ b ∷ c ∷ []) (ha, (hb, (hc, _))) =
    let id : BinId = record { byte0 = a; byte1 = b; byte2 = c } in
    let e = to_target-prefix id (record { byte0 = ha; byte1 = hb; byte2 = hc }) in
    subst (λ t. t < 2 ^ 24) (sym e) (omega (arith, ha, hb, hc))

-- The line has a semicolon.
abbrev pub HasPreimage : Bytes → Type 0
HasPreimage line = (split line).1 ≢ []

with_target-ok :
    (ph : PreimageHandler) (parts : List Bytes) (target : Option (List ℕ))
    → parts ≢ []
    → AreBytesIf target
    → (r : Result PreimageHandler) × (with_target ph parts target ≡ ok r)
unfolding with_target
with_target-ok ph parts none full h = (_, refl)
with_target-ok ph [] (some bs) full h = absurd (full refl)
with_target-ok ph (p ∷ parts) (some bs) full h =
    (_, if_true _ (lt→ltb _ _ (to_target-small bs h)) _ _)
  where
    if_true : (b : Bool) → b ≡ true → {A : Type 0} → (x y : A) → (if b then x else y) ≡ x
    if_true true e x y = refl
    if_true false e x y = cc

-- The lines after one that was loaded.
abbrev next : List Bytes → Result PreimageHandler → Exec (Result PreimageHandler)
next lines (error e) = ok (error e)
next lines (value ph) = load_lines lines ph

go_on :
    (lines : List Bytes)
    → ((ph : PreimageHandler) → (r : Result PreimageHandler) × (load_lines lines ph ≡ ok r))
    → (loaded : Result PreimageHandler) → (r : Result PreimageHandler) × (next lines loaded ≡ ok r)
go_on lines rest (error e) = (error e, refl)
go_on lines rest (value ph) = rest ph

load_lines-ok :
    (lines : List Bytes) (ph : PreimageHandler)
    → All HasPreimage lines
    → (r : Result PreimageHandler) × (load_lines lines ph ≡ ok r)
unfolding load_lines load_line
load_lines-ok [] ph h = (value ph, refl)
load_lines-ok (line ∷ lines) ph (here, rest) =
    let (r, e) =
      with_target-ok ph (split line).1 (scan_bytes 3 (split line).0) here
        (scan_bytes-AreBytesIf 3 (split line).0) in
    let (r', e') = go_on lines (λ ph'. load_lines-ok lines ph' rest) r in
    (r', ap (λ m. m >>= next lines) e ∙ e')

-- A file that was opened, in which each line after the header has a semicolon.
abbrev pub IsTable : Result (List Bytes) → Type 0
IsTable (error e) = Unit {0}
IsTable (value []) = Unit {0}
IsTable (value (header ∷ lines)) = All HasPreimage lines

pub load_preimages-ok :
    (opened : Result (List Bytes))
    → IsTable opened
    → (r : Result PreimageHandler) × (load_preimages opened ≡ ok r)
unfolding load_preimages
load_preimages-ok (error e) h = (_, refl)
load_preimages-ok (value []) h = (_, refl)
load_preimages-ok (value (header ∷ lines)) h = load_lines-ok lines _ h
