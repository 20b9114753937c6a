-- ===== src/Base/Digits.antt =====
-- Decimal text, as `strconv.Itoa` and `%d` print a number that is not negative.
use Prim.Native.Nat.{ℕ, zero, suc, ◌+◌, ◌-◌, ◌*◌, ◌/◌, ◌%◌, ◌<◌}
use mathlib.Core.Path.{◌≡◌, refl, sym, ap, ◌∙◌}
use mathlib.Core.Logic.{inl, inr}
use mathlib.Core.List.{[], ◌∷◌, ◌++◌}
use native.Mathlib.Omega.{arith}
use aetherium.Base.Tests.{ltb, if◌then◌else◌, Bool-cases}
use aetherium.Base.Texts.{Text}

digits : ℕ → ℕ → Text
digits zero n = []
digits (suc f) n =
    let rest = digits f (n / 10) in if ltb n 10 then (48 + n) ∷ [] else rest ++ (48 + n % 10) ∷ []

-- `n + 1` rounds are enough, since each divides by ten.
unfoldable pub itoa : ℕ → Text
unfolding digits
itoa n = digits (suc n) n

-- The number that decimal digits stand for.
value_from : ℕ → Text → ℕ
value_from acc [] = acc
value_from acc (c ∷ s) = value_from (acc * 10 + (c - 48)) s

value_from-append :
    (acc c : ℕ) (s : Text) → value_from acc (s ++ c ∷ []) ≡ value_from acc s * 10 + (c - 48)
unfolding value_from
value_from-append acc c [] = refl
value_from-append acc c (d ∷ s) = value_from-append (acc * 10 + (d - 48)) c s

value_from-digits : (f n : ℕ) → n < f → value_from 0 (digits f n) ≡ n
unfolding value_from digits
value_from-digits zero n h = elim h [ ]
value_from-digits (suc f) n h = elim (Bool-cases (ltb n 10)) [
  | inl small ↦ rw small (ground arith)
  | inr large ↦ rw large (
      value_from-append 0 (48 + n % 10) (digits f (n / 10))
      ∙ ground (arith, value_from-digits f (n / 10)))
]

-- Different numbers print differently.
pub itoa_injective : (m n : ℕ) → itoa m ≡ itoa n → m ≡ n
unfolding itoa
itoa_injective m n e =
    sym (value_from-digits (suc m) m (omega arith))
    ∙ ap (value_from 0) e
    ∙ value_from-digits (suc n) n (omega arith)
