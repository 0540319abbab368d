-- ===== src/Base/Decimal.antt =====
-- The verb `%d` of the package `fmt`, for a number that is not negative.
use Prim.Native.Nat.{ℕ, zero, suc, ◌+◌, ◌*◌, ◌/◌, ◌%◌, ◌-◌, ◌<◌}
use mathlib.Core.Path.{◌≡◌, refl, sym, ap, ◌∙◌}
use mathlib.Core.Logic.{inl, inr}
use mathlib.Core.List.{[], ◌∷◌, ◌++◌}
use native.Mathlib.Omega.{arith}
use codemesh.Base.Tests.{ltb, if◌then◌else◌, Bool-cases}
use codemesh.Base.Strings.{Text}

-- The digits, with as many rounds as are given; the first argument bounds them.
unfoldable pub decimal_within : ℕ → ℕ → Text
decimal_within zero n = []
decimal_within (suc rounds) n =
    let above = decimal_within rounds (n / 10) in
    (if ltb n 10 then [] else above) ++ (b'0' + n % 10) ∷ []

unfoldable pub decimal : ℕ → Text
unfolding decimal_within
decimal n = decimal_within (suc n) n

-- The number that digits stand for, from the left.
value_from : ℕ → Text → ℕ
value_from acc [] = acc
value_from acc (c ∷ s) = value_from (acc * 10 + (c - b'0')) s

value_from-append :
    (acc : ℕ) (s : Text) (c : ℕ) → value_from acc (s ++ c ∷ []) ≡ value_from acc s * 10 + (c - b'0')
unfolding value_from
value_from-append acc [] c = refl
value_from-append acc (d ∷ s) c = value_from-append (acc * 10 + (d - b'0')) s c

value-decimal_within : (rounds n : ℕ) → n < rounds → value_from 0 (decimal_within rounds n) ≡ n
unfolding decimal_within value_from
value-decimal_within zero n h = elim h [ ]
value-decimal_within (suc rounds) n h = elim (Bool-cases (ltb n 10)) [
  | inl small ↦ rw small (ground arith)
  | inr large ↦ rw large (
      value_from-append 0 (decimal_within rounds (n / 10)) (b'0' + n % 10)
      ∙ rw (value-decimal_within rounds (n / 10) (ground arith)) (omega arith))
]

-- Reading the digits of a number gives the number back, so two numbers differ in their digits.
pub decimal_injective : (m n : ℕ) → decimal m ≡ decimal n → m ≡ n
unfolding decimal
decimal_injective m n e =
    sym (value-decimal_within (suc m) m (omega arith))
    ∙ ap (value_from 0) e
    ∙ value-decimal_within (suc n) n (omega arith)
