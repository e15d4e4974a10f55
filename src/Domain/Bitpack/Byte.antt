-- ===== src/Domain/Bitpack/Byte.antt =====
-- The arithmetic of Rust's fixed-width shifts and complements, and the digits of the bytes that
-- src/domain/models/status_list.rs masks.
use status_list_server.Base.{
  ℕ, zero, suc, ◌+◌, ◌-◌, ◌*◌, ◌/◌, ◌%◌, ◌^◌, ◌≤◌, ◌<◌, bit_and, bit_or, leb, ltb, ◌==◌, ◌&&◌,
  if◌then◌else◌, ◌≡◌, refl, ap, ◌∙◌, arith, Bool, not, ◌||◌, true, all_below, all_below_sound,
  eq_of_==, le→leb,
}
use native.Mathlib.Nat.{one-le-pow}
use status_list_server.Base.Bits.{
  test_bit, test_bit-lt, test_bit-bit_and, test_bit-bit_or, test_bit-shl_low, test_bit-mod,
  test_bit-mask, test_bit-shr, test_bit-zero, bit_or-lt, bit_and-le, bit_and-one, same_bit,
  test_bit-shl_high, test_bit-not, test_bit-beyond,
}

abbrev pub u8 : ℕ → ℕ
u8 n = n % 2 ^ 8

-- Shifts of a `w`-bit word, whose amount is taken modulo the width, as compiled for release.
abbrev pub shl : ℕ → ℕ → ℕ → ℕ
shl w x k = x * 2 ^ (k % w) % 2 ^ w

abbrev pub shr : ℕ → ℕ → ℕ → ℕ
shr w x k = x / 2 ^ (k % w)

-- `!n` of a byte.
abbrev pub not_u8 : ℕ → ℕ
not_u8 n = 2 ^ 8 - 1 - n

-- `(((1u32 << count) - 1) << offset) as u8`.
unfoldable pub field_mask : ℕ → ℕ → ℕ
field_mask count offset = u8 (shl 32 (shl 32 1 count - 1) offset)

-- A byte after `&= !mask` and `|= ((value as u8) << offset) & mask`.
unfoldable pub put_field : ℕ → ℕ → ℕ → ℕ → ℕ
put_field count offset value byte =
    let mask = field_mask count offset in
    bit_or (bit_and byte (not_u8 mask)) (bit_and (shl 8 (u8 value) offset) mask)

-- Where `i` lies in the field of `count` digits at `offset`.
abbrev pub in_field : ℕ → ℕ → ℕ → Bool
in_field count offset i = leb offset i && ltb i (offset + count)

field_mask_table :
    all_below 9
      (λ c. all_below 9 (λ o. not (leb (o + c) 8) || field_mask c o == (2 ^ c - 1) * 2 ^ o))
    ≡ true
unfolding all_below field_mask
field_mask_table = refl

field_mask-eq :
    (count offset : ℕ) → offset + count ≤ 8 → field_mask count offset ≡ (2 ^ count - 1) * 2 ^ offset
field_mask-eq count offset h =
    let row =
      all_below_sound 9
        (λ c. all_below 9 (λ o. not (leb (o + c) 8) || field_mask c o == (2 ^ c - 1) * 2 ^ o)) count
        field_mask_table (omega arith) in
    let cell =
      all_below_sound 9
        (λ o. not (leb (o + count) 8) || field_mask count o == (2 ^ count - 1) * 2 ^ o) offset row
        (omega arith) in
    eq_of_== _ _ (rw (le→leb (offset + count) 8 h) at cell)

pub field_mask-lt : (count offset : ℕ) → field_mask count offset < 2 ^ 8
unfolding field_mask
field_mask-lt count offset = omega arith

test_bit-field_mask :
    (count offset i : ℕ)
    → offset + count ≤ 8
    → test_bit (field_mask count offset) i ≡ (if in_field count offset i then 1 else 0)
test_bit-field_mask count offset i h = rw (field_mask-eq count offset h) (
    ground (
      arith,
      test_bit-shl_low offset (2 ^ count - 1) i,
      test_bit-shl_high offset (2 ^ count - 1) i,
      test_bit-mask count (i - offset),
      test_bit-beyond count (2 ^ count - 1) (i - offset),
      one-le-pow count 2,
    ))

-- The digits of the value, moved to the field.
test_bit-shl-u8 :
    (value offset i : ℕ)
    → offset < 8
    → i < 8
    → test_bit (shl 8 (u8 value) offset) i
      ≡ (if leb offset i then test_bit value (i - offset) else 0)
test_bit-shl-u8 value offset i ho hi = ground (
  arith,
  test_bit-mod 8 (u8 value * 2 ^ (offset % 8)) i,
  same_bit (u8 value * 2 ^ (offset % 8)) (u8 value * 2 ^ offset) i i,
  test_bit-shl_low offset (u8 value) i,
  test_bit-shl_high offset (u8 value) i,
  test_bit-mod 8 value (i - offset),
)

pub test_bit-put_field :
    (count offset value byte i : ℕ)
    → offset + count ≤ 8
    → offset < 8
    → i < 8
    → test_bit (put_field count offset value byte) i
      ≡ (if in_field count offset i then test_bit value (i - offset) else test_bit byte i)
unfolding put_field
test_bit-put_field count offset value byte i fits ho hi =
    let mask : ℕ = field_mask count offset in
    ground (
      arith,
      test_bit-bit_or (bit_and byte (not_u8 mask)) (bit_and (shl 8 (u8 value) offset) mask) i,
      test_bit-bit_and byte (not_u8 mask) i,
      test_bit-bit_and (shl 8 (u8 value) offset) mask i,
      test_bit-not 8 mask i (field_mask-lt count offset) hi,
      test_bit-field_mask count offset i fits,
      test_bit-shl-u8 value offset i ho hi,
      test_bit-lt value (i - offset),
      test_bit-lt byte i,
    )

-- A byte after `&= !(1u8 << offset)` and `|= (bit as u8) << offset`.
unfoldable pub put_bit : ℕ → ℕ → ℕ → ℕ
put_bit offset bit byte = bit_or (bit_and byte (not_u8 (shl 8 1 offset))) (shl 8 (u8 bit) offset)

one_bit : (i : ℕ) → test_bit 1 i ≡ (if i == 0 then 1 else 0)
one_bit zero = refl
one_bit (suc i) = ground (arith, test_bit-zero i)

small_bit : (bit i : ℕ) → bit < 2 → test_bit bit i ≡ (if i == 0 then bit else 0)
small_bit bit zero h = omega arith
small_bit bit (suc i) h = ground (arith, test_bit-beyond 1 bit (suc i) (omega arith) (omega arith))

shl_one-lt : (offset : ℕ) → shl 8 1 offset < 2 ^ 8
shl_one-lt offset = omega arith

pub test_bit-put_bit :
    (offset bit byte i : ℕ)
    → offset < 8
    → i < 8
    → bit < 2
    → test_bit (put_bit offset bit byte) i ≡ (if i == offset then bit else test_bit byte i)
unfolding put_bit
test_bit-put_bit offset bit byte i ho hi hb =
    let one_byte : u8 1 ≡ 1 = refl in
    ground (
      arith,
      test_bit-bit_or (bit_and byte (not_u8 (shl 8 1 offset))) (shl 8 (u8 bit) offset) i,
      test_bit-bit_and byte (not_u8 (shl 8 1 offset)) i,
      test_bit-not 8 (shl 8 1 offset) i (shl_one-lt offset) hi,
      test_bit-shl-u8 1 offset i ho hi,
      test_bit-shl-u8 bit offset i ho hi,
      one_bit (i - offset),
      small_bit bit (i - offset) hb,
      test_bit-lt byte i,
    )

-- The results are bytes.
pub put_field-lt :
    (count offset value byte : ℕ) → byte < 2 ^ 8 → put_field count offset value byte < 2 ^ 8
unfolding put_field
put_field-lt count offset value byte h =
    bit_or-lt 8 _ _ (omega (arith, bit_and-le byte (not_u8 (field_mask count offset))))
      (omega (arith, bit_and-le (shl 8 (u8 value) offset) (field_mask count offset)))

pub put_bit-lt : (offset bit byte : ℕ) → byte < 2 ^ 8 → put_bit offset bit byte < 2 ^ 8
unfolding put_bit
put_bit-lt offset bit byte h =
    bit_or-lt 8 _ _ (omega (arith, bit_and-le byte (not_u8 (shl 8 1 offset)))) (omega arith)

-- `(value >> digit) & 1` of a `u32`.
unfoldable pub value_bit : ℕ → ℕ → ℕ
value_bit value digit = bit_and (shr 32 value digit) 1

pub value_bit-eq : (value digit : ℕ) → digit < 32 → value_bit value digit ≡ test_bit value digit
unfolding value_bit
value_bit-eq value digit h =
    bit_and-one (shr 32 value digit)
    ∙ ap (λ (k : ℕ). value / 2 ^ k % 2) (omega arith)
    ∙ test_bit-shr digit value 0
    ∙ same_bit value value (digit + 0) digit refl (omega arith)
