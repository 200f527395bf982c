-- ===== src/Base/Ints.antt =====
-- Go's `int` as an integer, with the tests that the program makes, and strconv.Itoa.
use Prim.Native.Nat.{ℕ, zero, suc, ◌+◌, ◌*◌, ◌/◌, ◌%◌, ◌-◌, ◌<◌}
use mathlib.Core.Path.{◌≡◌, ap, ◌∙◌}
use mathlib.Core.Bool.{Bool, true, false}
use mathlib.Core.List.{[], ◌∷◌}
use mathlib.Core.Logic.{inl, inr}
use native.Mathlib.Omega.{arith}
use dicta.Base.Tests.{ltb, ◌==◌, if◌then◌else◌, Bool-cases}
use dicta.Base.Strings.{Text}

-- `negsuc n` is -(n + 1).
pub data ℤ : Type 0 where
  pos negsuc : ℕ → ℤ

abbrev pub is_zero : ℤ → Bool
is_zero (pos n) = n == 0
is_zero (negsuc n) = false

abbrev pub is_negative : ℤ → Bool
is_negative (pos n) = false
is_negative (negsuc n) = true

abbrev pub int_eq : ℤ → ℤ → Bool
int_eq (pos m) (pos n) = m == n
int_eq (negsuc m) (negsuc n) = m == n
int_eq _ _ = false

-- The value 0 stands for a default.
abbrev pub or_default : ℕ → ℤ → ℤ
or_default n i = if is_zero i then pos n else i

-- The digits of `n` in front of `s`; `n + 1` rounds are enough.
unfoldable pub decimal : ℕ → ℕ → Text → Text
decimal zero n s = s
decimal (suc fuel) n s =
    let rest = decimal fuel (n / 10) ((48 + n % 10) ∷ s) in if ltb n 10 then (48 + n) ∷ s else rest

unfoldable pub itoa : ℕ → Text
unfolding decimal
itoa n = decimal (suc n) n []

-- What the digits say.
abbrev pub value : ℕ → Text → ℕ
value n [] = n
value n (c ∷ s) = value (10 * n + (c - 48)) s

decimal-value : (fuel n : ℕ) (s : Text) → n < fuel → value 0 (decimal fuel n s) ≡ value n s
unfolding decimal
decimal-value zero n s h = absurd (omega arith)
decimal-value (suc fuel) n s h = elim (Bool-cases (ltb n 10)) [
  | inl small ↦ rw small (ap (λ k. value k s) (omega arith))
  | inr large ↦ rw large (
      decimal-value fuel (n / 10) ((48 + n % 10) ∷ s) (ground arith)
      ∙ ap (λ k. value k s) (omega arith))
]

-- The fuel is enough: the digits are those of the number.
pub itoa-value : (n : ℕ) → value 0 (itoa n) ≡ n
unfolding itoa
itoa-value n = decimal-value (suc n) n [] (omega arith)
