-- ===== src/Base/Bits.antt =====
-- The binary digits of a number, as the description of Rust's masks and shifts.
mod Step
use Step.{bit_or_step, bit_and_step, zero-bit_and}
use Prim.Native.Nat.{
  ℕ, zero, suc, ◌+◌, ◌-◌, ◌*◌, ◌/◌, ◌%◌, ◌^◌, ◌≤◌, ◌<◌, min, max, bit_and, bit_or,
}
use mathlib.Core.Path.{◌≡◌, refl, sym, ap, ◌∙◌}
use native.Mathlib.Nat.{pow-suc, one-le-pow, mul_comm, div-div-eq-div-mul}
use native.Mathlib.Omega.{arith}

-- Digit `i` of `n`, from the lowest.
abbrev pub test_bit : ℕ → ℕ → ℕ
test_bit n zero = n % 2
test_bit n (suc i) = test_bit (n / 2) i

pub test_bit-lt : (n i : ℕ) → test_bit n i < 2
test_bit-lt n zero = omega arith
test_bit-lt n (suc i) = test_bit-lt (n / 2) i

pub test_bit-zero : (i : ℕ) → test_bit 0 i ≡ 0
test_bit-zero zero = refl
test_bit-zero (suc i) = test_bit-zero i

pub test_bit-bit_and : (a b i : ℕ) → test_bit (bit_and a b) i ≡ min (test_bit a i) (test_bit b i)
test_bit-bit_and a b zero = omega (arith, bit_and_step a b)
test_bit-bit_and a b (suc i) =
    ap (λ (n : ℕ). test_bit n i) (omega (arith, bit_and_step a b))
    ∙ test_bit-bit_and (a / 2) (b / 2) i

pub test_bit-bit_or : (a b i : ℕ) → test_bit (bit_or a b) i ≡ max (test_bit a i) (test_bit b i)
test_bit-bit_or a b zero = omega (arith, bit_or_step a b)
test_bit-bit_or a b (suc i) =
    ap (λ (n : ℕ). test_bit n i) (omega (arith, bit_or_step a b))
    ∙ test_bit-bit_or (a / 2) (b / 2) i

pub same_bit : (a b i j : ℕ) → a ≡ b → i ≡ j → test_bit a i ≡ test_bit b j
same_bit a b i j p q = cc

mul-pow-suc : (q k : ℕ) → q * 2 ^ suc k ≡ 2 * (q * 2 ^ k)
mul-pow-suc q k = omega (arith, ap (λ (t : ℕ). q * t) (pow-suc 2 k))

-- A field above the lowest `k` digits does not show in these.
pub test_bit-low : (k q r i : ℕ) → i < k → test_bit (q * 2 ^ k + r) i ≡ test_bit r i
test_bit-low zero q r i h = absurd (omega arith)
test_bit-low (suc k) q r zero h = omega (arith, mul-pow-suc q k)
test_bit-low (suc k) q r (suc i) h =
    ap (λ (n : ℕ). test_bit n i) (omega (arith, mul-pow-suc q k))
    ∙ test_bit-low k q (r / 2) i (omega arith)

-- The digits of a shift to the left.
pub test_bit-shl_low : (k q i : ℕ) → i < k → test_bit (q * 2 ^ k) i ≡ 0
test_bit-shl_low k q i h =
    ap (λ (n : ℕ). test_bit n i) (omega arith) ∙ test_bit-low k q 0 i h ∙ test_bit-zero i

pub test_bit-shl : (k q i : ℕ) → test_bit (q * 2 ^ k) (k + i) ≡ test_bit q i
test_bit-shl zero q i = same_bit (q * 2 ^ 0) q (0 + i) i (omega arith) (omega arith)
test_bit-shl (suc k) q i =
    same_bit (q * 2 ^ suc k) (q * 2 ^ suc k) (suc k + i) (suc (k + i)) refl (omega arith)
    ∙ same_bit (q * 2 ^ suc k / 2) (q * 2 ^ k) (k + i) (k + i) (omega (arith, mul-pow-suc q k)) refl
    ∙ test_bit-shl k q i

pub test_bit-shl_high : (k q i : ℕ) → k ≤ i → test_bit (q * 2 ^ k) i ≡ test_bit q (i - k)
test_bit-shl_high k q i h =
    same_bit (q * 2 ^ k) (q * 2 ^ k) i (k + (i - k)) refl (omega arith) ∙ test_bit-shl k q (i - k)

-- The digits of a shift to the right.
pub test_bit-shr : (k n i : ℕ) → test_bit (n / 2 ^ k) i ≡ test_bit n (k + i)
test_bit-shr zero n i = same_bit (n / 2 ^ 0) n i (0 + i) (omega arith) (omega arith)
test_bit-shr (suc k) n i =
    same_bit (n / 2 ^ suc k) (n / 2 / 2 ^ k) i i
      (ap (λ (m : ℕ). n / m) (pow-suc 2 k ∙ mul_comm (2 ^ k) 2)
        ∙ sym (div-div-eq-div-mul n 2 (2 ^ k)))
      refl
    ∙ test_bit-shr k (n / 2) i
    ∙ same_bit n n (suc (k + i)) (suc k + i) refl (omega arith)

-- The digits of a truncation to `w` bits.
pub test_bit-mod : (w n i : ℕ) → i < w → test_bit (n % 2 ^ w) i ≡ test_bit n i
test_bit-mod w n i h =
    sym (test_bit-low w (n / 2 ^ w) (n % 2 ^ w) i h)
    ∙ same_bit (n / 2 ^ w * 2 ^ w + n % 2 ^ w) n i i (grind arith) refl

pub test_bit-beyond : (w n i : ℕ) → n < 2 ^ w → w ≤ i → test_bit n i ≡ 0
test_bit-beyond zero n i lt h = same_bit n 0 i i (omega arith) refl ∙ test_bit-zero i
test_bit-beyond (suc w) n zero lt h = absurd (omega arith)
test_bit-beyond (suc w) n (suc i) lt h =
    test_bit-beyond w (n / 2) i (omega (arith, pow-suc 2 w)) (omega arith)

-- The digits of a mask of `k` ones.
pub test_bit-mask : (k i : ℕ) → i < k → test_bit (2 ^ k - 1) i ≡ 1
test_bit-mask zero i h = absurd (omega arith)
test_bit-mask (suc k) zero h = omega (arith, pow-suc 2 k, one-le-pow k 2)
test_bit-mask (suc k) (suc i) h =
    same_bit ((2 ^ suc k - 1) / 2) (2 ^ k - 1) i i (omega (arith, pow-suc 2 k, one-le-pow k 2)) refl
    ∙ test_bit-mask k i (omega arith)

-- The digits of the complement within `k` digits, `!n` of Rust.
pub test_bit-not : (k n i : ℕ) → n < 2 ^ k → i < k → test_bit (2 ^ k - 1 - n) i ≡ 1 - test_bit n i
test_bit-not zero n i lt h = absurd (omega arith)
test_bit-not (suc k) n zero lt h = omega (arith, pow-suc 2 k)
test_bit-not (suc k) n (suc i) lt h =
    ap (λ (m : ℕ). test_bit m i) (omega (arith, pow-suc 2 k))
    ∙ test_bit-not k (n / 2) i (omega (arith, pow-suc 2 k)) (omega arith)

-- Two numbers of `w` bits with the same digits are equal.
pub eq_of_bits :
    (w a b : ℕ) → a < 2 ^ w → b < 2 ^ w → ((i : ℕ) → i < w → test_bit a i ≡ test_bit b i) → a ≡ b
eq_of_bits zero a b p q h = omega arith
eq_of_bits (suc w) a b p q h = omega (
  arith,
  pow-suc 2 w,
  h 0 (omega arith),
  eq_of_bits w (a / 2) (b / 2) (omega (arith, pow-suc 2 w)) (omega (arith, pow-suc 2 w))
      (λ i k. h (suc i) (omega arith)),
)

bit_and-le_fuel : (n a b : ℕ) → a ≤ n → (bit_and a b ≤ a) × (bit_and a b ≤ b)
bit_and-le_fuel n zero b h = omega (arith, zero-bit_and b)
bit_and-le_fuel zero (suc a) b h = absurd (omega arith)
bit_and-le_fuel (suc n) (suc a) b h =
    omega (arith, bit_and_step (suc a) b, bit_and-le_fuel n (suc a / 2) (b / 2) (omega arith))

pub bit_and-le : (a b : ℕ) → (bit_and a b ≤ a) × (bit_and a b ≤ b)
bit_and-le a b = bit_and-le_fuel a a b (omega arith)

pub bit_and-one : (a : ℕ) → bit_and a 1 ≡ a % 2
bit_and-one a = omega (arith, bit_and_step a 1, bit_and-le (a / 2) 0)

pub bit_or-lt : (w a b : ℕ) → a < 2 ^ w → b < 2 ^ w → bit_or a b < 2 ^ w
bit_or-lt zero zero zero p q = omega arith
bit_or-lt zero zero (suc b) p q = absurd (omega arith)
bit_or-lt zero (suc a) b p q = absurd (omega arith)
bit_or-lt (suc w) a b p q = omega (
  arith,
  pow-suc 2 w,
  bit_or_step a b,
  bit_or-lt w (a / 2) (b / 2) (omega (arith, pow-suc 2 w)) (omega (arith, pow-suc 2 w)),
)
