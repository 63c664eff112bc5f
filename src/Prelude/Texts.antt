-- ===== src/Prelude/Texts.antt =====
-- The decision of equality on texts.
use Prim.Native.String.{String}
use mathlib.Core.Path.{◌≡◌, refl}
use mathlib.Core.Logic.{◌↔◌}
use mathlib.Core.Bool.{Bool, true, false}
use text.Mathlib.Text.{◌==◌}
use text.Mathlib.TextEquality.{eq_iff}

by_test {ℓ} : {P : Type ℓ} (b : Bool) → (b ≡ true) ↔ P → Dec P
by_test true h = yes (h.0 refl)
by_test false h = no (λ p. let e : false ≡ true = h.1 p in cc)

unfoldable pub text_dec : Discrete String
unfolding by_test
text_dec a b = by_test (a == b) (eq_iff a b)
