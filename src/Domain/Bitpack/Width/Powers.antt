-- ===== src/Domain/Bitpack/Width/Powers.antt =====
-- The width that `determine_bits` of src/domain/models/status_list.rs finds for a largest value.
use status_list_server.Base.{
  ℕ, zero, suc, ◌+◌, ◌*◌, ◌/◌, ◌%◌, ◌^◌, ◌<◌, ◌≤◌, leb, Bool-cases, ◌≡◌, refl, arith, ok, ◌⊎◌, inl,
  inr, leb→le, leb→lt, ==_of_pos,
}
use native.Mathlib.Decide.{dec_lt}
use native.Mathlib.Nat.{pow-suc, pow-le-pow_right}
use status_list_server.Domain.Bitpack.Width.{next_power_from, trailing_zeros_from, required_bits}

-- The trailing zeros of a power of two.
trailing_zeros_pow : (rounds k : ℕ) → k < rounds → trailing_zeros_from rounds (2 ^ k) ≡ k
unfolding trailing_zeros_from
trailing_zeros_pow zero k h = absurd (omega arith)
trailing_zeros_pow (suc rounds) zero h = refl
trailing_zeros_pow (suc rounds) (suc k) h =
    let halved : 2 ^ suc k / 2 ≡ 2 ^ k = omega (arith, pow-suc 2 k) in
    let even : 2 ^ suc k % 2 ≡ 0 = omega (arith, pow-suc 2 k) in
    rw (even, halved, trailing_zeros_pow rounds k (omega arith)) refl

-- The search ends at the least power of two that is not below `n`.
record IsNextPower (n j k : ℕ) : Type 0 where
  pub reached : n ≤ 2 ^ k
  pub least : (k ≡ j) ⊎ (2 ^ k < 2 * n)
  pub after : j ≤ k

least_further : (n j k : ℕ) → 2 ^ j < n → (k ≡ suc j) ⊎ (2 ^ k < 2 * n) → (k ≡ j) ⊎ (2 ^ k < 2 * n)
least_further n j k h (inl e) = inr (rw e (omega (arith, pow-suc 2 j)))
least_further n j k h (inr l) = inr l

next_power_from-IsNextPower :
    (rounds j n top : ℕ)
    → top ≡ j + rounds
    → n ≤ 2 ^ top
    → (k : ℕ) × (next_power_from rounds (2 ^ j) n ≡ 2 ^ k) × IsNextPower n j k × (k ≤ top)
unfolding next_power_from
next_power_from-IsNextPower zero j n top e h =
    let same : top ≡ j = omega arith in
    (j, refl, record { reached = rw same at h; least = inl refl; after = omega arith }, omega arith)
next_power_from-IsNextPower (suc rounds) j n top e h = elim (Bool-cases (leb n (2 ^ j))) [
  | inl here ↦ (
    j,
    rw here refl,
    record { reached = leb→le _ _ here; least = inl refl; after = omega arith },
    omega arith,
  )
  | inr further ↦
      let (k, found, next, bound) =
        next_power_from-IsNextPower rounds (suc j) n top (omega arith) h in
      let same : 2 * 2 ^ j ≡ 2 ^ suc j = omega (arith, pow-suc 2 j) in
      (
        k,
        rw (further, same) found,
        record {
          reached = next.reached;
          least = least_further n j k (leb→lt n (2 ^ j) further) next.least;
          after = omega (arith, next.after);
        },
        bound,
      )
]

-- The width for a largest value: it holds the value, and beyond 8 it is the least that does.
pub record IsWidth (m w : ℕ) : Type 0 where
  pub holds : m < 2 ^ w
  pub some_bits : 1 ≤ w
  pub word_bits : w ≤ 32
  pub least : 8 < w → 2 ^ w ≤ 2 * m

not_lt : (k l : ℕ) → ¬ (k < l) → l ≤ k
not_lt k l h = omega arith

pow_exponent-lt : (k l : ℕ) → 2 ^ k < 2 ^ l → k < l
pow_exponent-lt k l h = elim (dec_lt k l) [
  | yes p ↦ p
  | no p ↦ absurd (omega (arith, pow-le-pow_right {n = 2} (omega arith) (not_lt k l p)))
]

wide-IsWidth : (m k : ℕ) → 256 ≤ m → m < 2 ^ 32 → IsNextPower (m + 1) 0 k → IsWidth m k
wide-IsWidth m zero big h next = absurd (omega (arith, next.reached))
wide-IsWidth m (suc k) big h next =
    let double = pow-suc 2 k in
    let short : 2 ^ suc k < 2 * (m + 1) = ground (arith, next.least) in
    record {
      holds = omega (arith, next.reached);
      some_bits = omega arith;
      word_bits = omega (arith, pow_exponent-lt (suc k) 33 (omega arith));
      least = λ _. omega arith;
    }

wide_bits :
    (m : ℕ)
    → 256 ≤ m
    → m < 2 ^ 32
    → (w : ℕ) × (trailing_zeros_from 64 (next_power_from 63 1 (m + 1)) ≡ w) × IsWidth m w
wide_bits m big h =
    let (k, found, next, bound) = next_power_from-IsNextPower 63 0 (m + 1) 63 refl (omega arith) in
    (k, rw found (trailing_zeros_pow 64 k (omega arith)), wide-IsWidth m k big h next)

narrow-IsWidth : (m w : ℕ) → m < 2 ^ w → 1 ≤ w → w ≤ 8 → IsWidth m w
narrow-IsWidth m w h p q = record {
  holds = h;
  some_bits = p;
  word_bits = omega arith;
  least = λ l. absurd (omega arith);
}

-- For every value below 2^32 the width is found: it is from 1 to 32 bits, it holds the value, and
-- a width over 8 bits is the least that does.
pub required_bits-IsWidth : (m : ℕ) → m < 2 ^ 32 → (w : ℕ) × (required_bits m ≡ ok w) × IsWidth m w
unfolding required_bits
required_bits-IsWidth m h = elim (Bool-cases (leb m 1)) [
  | inl a ↦ (1, rw a refl, narrow-IsWidth m 1 (ground arith) (omega arith) (omega arith))
  | inr a ↦ elim (Bool-cases (leb m 3)) [
    | inl b ↦ (2, rw (a, b) refl, narrow-IsWidth m 2 (ground arith) (omega arith) (omega arith))
    | inr b ↦ elim (Bool-cases (leb m 15)) [
      | inl c ↦
          (4, rw (a, b, c) refl, narrow-IsWidth m 4 (ground arith) (omega arith) (omega arith))
      | inr c ↦ elim (Bool-cases (leb m 255)) [
        | inl d ↦
            (8, rw (a, b, c, d) refl, narrow-IsWidth m 8 (ground arith) (omega arith) (omega arith))
        | inr d ↦
            let (w, found, width) = wide_bits m (leb→lt m 255 d) h in
            (w, rw (a, b, c, d, found, ==_of_pos w width.some_bits) refl, width)
      ]
    ]
  ]
]
