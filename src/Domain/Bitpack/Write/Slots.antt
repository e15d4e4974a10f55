-- ===== src/Domain/Bitpack/Write/Slots.antt =====
-- The array as a row of numbers of `bits` bits, the abstract view of a status array.
use status_list_server.Base.{
  ℕ, zero, suc, ◌+◌, ◌-◌, ◌*◌, ◌/◌, ◌%◌, ◌^◌, ◌<◌, ◌≤◌, List, ◌≡◌, ◌≢◌, sym, ◌∙◌, refl, arith, ◌⊎◌,
  inl, inr, get_or,
}
use native.Mathlib.Nat.{pow-suc}
use native.Mathlib.Decide.{dec_lt}
use status_list_server.Base.Bits.{test_bit, test_bit-lt, same_bit, eq_of_bits}
use status_list_server.Domain.Bitpack.Write.Digits.{bit_at}
use status_list_server.Domain.Bitpack.Write.Written.{IsWritten}

-- The number whose digits are the `n` bits from bit `p` on.
unfoldable pub window : List ℕ → ℕ → ℕ → ℕ
window array p zero = 0
window array p (suc n) = bit_at array p + 2 * window array (suc p) n

-- Entry `i` at a width; 0 beyond the end.
unfoldable pub slot : List ℕ → ℕ → ℕ → ℕ
unfolding window
slot array bits i = window array (i * bits) bits

pub window-lt : (array : List ℕ) (p n : ℕ) → window array p n < 2 ^ n
unfolding window
window-lt array p zero = omega arith
window-lt array p (suc n) =
    omega
      (arith, pow-suc 2 n, window-lt array (suc p) n, test_bit-lt (get_or array (p / 8) 0) (p % 8))

pub test_bit-window :
    (array : List ℕ) (p n j : ℕ) → j < n → test_bit (window array p n) j ≡ bit_at array (p + j)
unfolding window
test_bit-window array p zero j h = absurd (omega arith)
test_bit-window array p (suc n) zero h = ground (
  arith,
  test_bit-lt (get_or array (p / 8) 0) (p % 8),
  same_bit (get_or array (p / 8) 0) (get_or array ((p + 0) / 8) 0) (p % 8) ((p + 0) % 8),
)
test_bit-window array p (suc n) (suc j) h = ground (
  arith,
  test_bit-lt (get_or array (p / 8) 0) (p % 8),
  same_bit (window array p (suc n) / 2) (window array (suc p) n) j j,
  test_bit-window array (suc p) n j,
)

-- A window is known by its digits.
pub window-eq :
    (array : List ℕ) (p n v : ℕ)
    → v < 2 ^ n
    → ((j : ℕ) → j < n → bit_at array (p + j) ≡ test_bit v j)
    → window array p n ≡ v
window-eq array p n v lt h =
    eq_of_bits n (window array p n) v (window-lt array p n) lt
      (λ j k. test_bit-window array p n j k ∙ h j k)

pub entries_apart : (i j bits : ℕ) → i < j → i * bits + bits ≤ j * bits
entries_apart i j bits h = grind arith

disjoint : (i j bits : ℕ) → i ≢ j → (i * bits + bits ≤ j * bits) ⊎ (j * bits + bits ≤ i * bits)
disjoint i j bits ne = elim (dec_lt i j) [
  | yes h ↦ inl (entries_apart i j bits h)
  | no h ↦ inr (entries_apart j i bits (omega arith))
]

-- A write to entry `i` is read back, and no other entry changes.
module _ (value bits i : ℕ) {before after : List ℕ}
    (w : IsWritten value (i * bits) 0 bits before after) where
  pub slot_written : value < 2 ^ bits → slot after bits i ≡ value
  unfolding slot
  slot_written lt = window-eq after (i * bits) bits value lt (λ j h.
      w.inside (i * bits + j) (omega arith) (omega arith)
      ∙ same_bit value value (i * bits + j - i * bits) j refl (omega arith))

  pub slot_kept : (j : ℕ) → i ≢ j → slot after bits j ≡ slot before bits j
  unfolding slot
  slot_kept j ne =
      window-eq after (j * bits) bits (window before (j * bits) bits)
        (window-lt before (j * bits) bits)
        (λ k h.
          w.outside (j * bits + k) (ground (arith, disjoint i j bits ne))
          ∙ sym (test_bit-window before (j * bits) bits k h))
