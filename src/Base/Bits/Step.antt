-- ===== src/Base/Bits/Step.antt =====
-- `bit_and` and `bit_or` by the lowest digit. The native operations are given by x recursion on
-- binary digits with fuel, which is dropped here.
use Prim.Native.Nat.{
  ℕ, zero, suc, ◌+◌, ◌*◌, ◌/◌, ◌%◌, ◌≤◌, min, max, bit_and, bit_or, digits, bitwise,
  bit_and-bitwise, bit_or-bitwise,
}
use mathlib.Core.Path.{◌≡◌, refl}
use native.Mathlib.Omega.{arith}

module _ (base : ℕ → ℕ) (join : ℕ → ℕ → ℕ) where
  -- More fuel than the number changes nothing.
  digits_enough : (m n x y : ℕ) → x ≤ m → x ≤ n → digits base join m x y ≡ digits base join n x y
  digits_enough zero zero x y h k = refl
  digits_enough zero (suc n) zero y h k = refl
  digits_enough zero (suc n) (suc x) y h k = absurd (omega arith)
  digits_enough (suc m) zero zero y h k = refl
  digits_enough (suc m) zero (suc x) y h k = absurd (omega arith)
  digits_enough (suc m) (suc n) zero y h k = refl
  digits_enough (suc m) (suc n) (suc x) y h k =
      rw (digits_enough m n (suc x / 2) (y / 2) (omega arith) (omega arith))

  lowest_digit :
      (x y : ℕ)
      → bitwise base join (suc x) y
        ≡ bitwise base join (suc x / 2) (y / 2) * 2 + join (suc x % 2) (y % 2)
  lowest_digit x y =
      omega (arith, digits_enough x (suc x / 2) (suc x / 2) (y / 2) (omega arith) (omega arith))

pub bit_or_step : (x y : ℕ) → bit_or x y ≡ bit_or (x / 2) (y / 2) * 2 + max (x % 2) (y % 2)
bit_or_step zero y = simp bit_or-bitwise (omega arith)
bit_or_step (suc x) y = simp bit_or-bitwise (lowest_digit (λ d. d) max x y)

pub zero-bit_and : (y : ℕ) → bit_and 0 y ≡ 0
zero-bit_and y = bit_and-bitwise 0 y

pub bit_and_step : (x y : ℕ) → bit_and x y ≡ bit_and (x / 2) (y / 2) * 2 + min (x % 2) (y % 2)
bit_and_step zero y = simp bit_and-bitwise (omega arith)
bit_and_step (suc x) y = simp bit_and-bitwise (lowest_digit (λ d. 0) min x y)
