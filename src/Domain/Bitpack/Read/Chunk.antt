-- ===== src/Domain/Bitpack/Read/Chunk.antt =====
-- What `read_value` of the packed array returns: the entry.
use status_list_server.Base.{
  ℕ, zero, suc, ◌+◌, ◌-◌, ◌*◌, ◌/◌, ◌%◌, ◌^◌, min, bit_or, ◌<◌, ◌≤◌, ltb, ◌==◌, true, List, length,
  get_or, ◌≡◌, ◌≢◌, sym, ap, ◌∙◌, refl, arith, Bool-cases, inl, inr, all_below, all_below_sound,
  eq_of_==, lt→leb, ltb→lt, ltb→le,
}
use native.Mathlib.Nat.{pow-suc, mod-eq_of_lt, mul_assoc, one-le-pow, pow-le-pow_right}
use status_list_server.Base.Bits.{
  test_bit, test_bit-lt, same_bit, test_bit-bit_and, test_bit-bit_or, test_bit-mask, test_bit-shr,
  test_bit-shl_low, test_bit-shl_high, test_bit-beyond, bit_or-lt, bit_and-le,
}
use status_list_server.Domain.Bitpack.Byte.{shl, shr}
use status_list_server.Domain.Bitpack.Read.{
  Reader, extract, read_chunk, read_loop, read_value, reader_at,
}
use status_list_server.Domain.Bitpack.Write.Digits.{bit_at}
use status_list_server.Domain.Bitpack.Write.Slots.{
  window, window-lt, test_bit-window, window-eq, slot,
}

pow-add : (a b : ℕ) → 2 ^ (a + b) ≡ 2 ^ a * 2 ^ b
pow-add a zero = ground arith
pow-add a (suc b) =
    let carry : a + suc b ≡ suc (a + b) = omega arith in
    rw (carry, pow-suc 2 (a + b), pow-suc 2 b, pow-add a b) (mul_assoc (2 ^ a) (2 ^ b) 2)

mask_table : all_below 9 (λ n. shl 16 1 n - 1 == 2 ^ n - 1) ≡ true
unfolding all_below
mask_table = refl

mask-eq : (n : ℕ) → n ≤ 8 → shl 16 1 n - 1 ≡ 2 ^ n - 1
mask-eq n h =
    eq_of_== _ _ (all_below_sound 9 (λ n. shl 16 1 n - 1 == 2 ^ n - 1) n mask_table (omega arith))

extract-lt : (byte offset n : ℕ) → n ≤ 8 → extract byte offset n < 2 ^ n
unfolding extract
extract-lt byte offset n h =
    omega (arith, bit_and-le (shr 16 byte offset) (shl 16 1 n - 1), mask-eq n h, one-le-pow n 2)

test_bit-extract :
    (byte offset n j : ℕ)
    → offset < 8
    → n ≤ 8
    → j < n
    → test_bit (extract byte offset n) j ≡ test_bit byte (offset + j)
unfolding extract
test_bit-extract byte offset n j ho hn h = ground (
  arith,
  test_bit-bit_and (shr 16 byte offset) (shl 16 1 n - 1) j,
  same_bit (shl 16 1 n - 1) (2 ^ n - 1) j j (mask-eq n hn) refl,
  test_bit-mask n j h,
  same_bit (shr 16 byte offset) (byte / 2 ^ offset) j j,
  test_bit-shr offset byte j,
  test_bit-lt byte (offset + j),
)

-- A shift to the left that stays within 32 bits.
shl-eq :
    (x read n : ℕ)
    → x < 2 ^ n
    → read + n ≤ 32
    → read < 32
    → (shl 32 x read ≡ x * 2 ^ read) × (x * 2 ^ read < 2 ^ (read + n))
shl-eq x read n lt h k =
    let small : x * 2 ^ read < 2 ^ (read + n) = rw pow-add (grind (arith, one-le-pow read 2)) in
    let fits : 2 ^ (read + n) ≤ 2 ^ 32 = pow-le-pow_right (omega arith) h in
    (ground (arith, ap (λ (m : ℕ). x * 2 ^ m) (mod-eq_of_lt k)), small)

-- `value |= extracted << read` appends the new digits.
append-window :
    (array : List ℕ) (p read n x : ℕ)
    → x < 2 ^ n
    → read + n ≤ 32
    → read < 32
    → ((j : ℕ) → j < n → test_bit x j ≡ bit_at array (p + read + j))
    → bit_or (window array p read) (shl 32 x read) ≡ window array p (read + n)
append-window array p read n x lt h k digits =
    let old : ℕ = window array p read in
    let (same, bound) = shl-eq x read n lt h k in
    let grows : 2 ^ read ≤ 2 ^ (read + n) = pow-le-pow_right (omega arith) (omega arith) in
    rw same (
      sym (
        window-eq array p (read + n) (bit_or old (x * 2 ^ read))
          (bit_or-lt (read + n) old (x * 2 ^ read) (omega (arith, window-lt array p read)) bound)
          λ j hj. ground (
            arith,
            test_bit-bit_or old (x * 2 ^ read) j,
            test_bit-window array p read j,
            test_bit-beyond read old j (window-lt array p read),
            test_bit-shl_low read x j,
            test_bit-shl_high read x j,
            digits (j - read),
            same_bit (get_or array ((p + j) / 8) 0) (get_or array ((p + read + (j - read)) / 8) 0)
                ((p + j) % 8) ((p + read + (j - read)) % 8),
            test_bit-lt (get_or array ((p + j) / 8) 0) ((p + j) % 8),
          )))

-- The reader has read the first digits of the entry at bit `p`; what it has left in the byte, it
-- reads next, unless the entry is complete.
record IsReading (array : List ℕ) (p bits : ℕ) (r : Reader) : Type 0 where
  bound : r.bits_read ≤ bits
  digits : r.value ≡ window array p r.bits_read
  room : r.bits_read < bits → r.bits_in_current_byte ≡ 8 - r.cur_offset
  small : r.cur_offset < 8
  place : r.bits_read < bits → r.cur_byte * 8 + r.cur_offset ≡ p + r.bits_read

read_chunk-IsReading :
    (array : List ℕ) (p bits : ℕ) (r : Reader)
    → bits ≤ 32
    → IsReading array p bits r
    → r.bits_read < bits
    → IsReading array p bits (read_chunk array bits r)
      × (r.bits_read < (read_chunk array bits r).bits_read)
unfolding read_chunk
read_chunk-IsReading array p bits r small inv more =
    let room = inv.room more in
    let place = inv.place more in
    let low = inv.small in
    let n : ℕ = min r.bits_in_current_byte (bits - r.bits_read) in
    let byte : ℕ = get_or array r.cur_byte 0 in
    let x : ℕ = extract byte r.cur_offset n in
    let appended : bit_or r.value (shl 32 x r.bits_read) ≡ window array p (r.bits_read + n) =
      rw inv.digits (
        append-window array p r.bits_read n x (extract-lt byte r.cur_offset n (omega arith))
          (omega arith) (omega arith)
          λ j h. ground (
            arith,
            test_bit-extract byte r.cur_offset n j low,
            same_bit byte (get_or array ((p + r.bits_read + j) / 8) 0) (r.cur_offset + j)
                ((p + r.bits_read + j) % 8),
          )) in
    elim (Bool-cases (r.bits_in_current_byte - n == 0)) [
      | inl whole ↦ rw whole (
        record {
          bound = omega arith;
          digits = appended;
          room = λ h. omega arith;
          small = omega arith;
          place = λ h. ground arith;
        },
        omega arith,
      )
      | inr part ↦
          let over : r.bits_in_current_byte - n ≢ 0 = ground arith in
          rw part (
            record {
              bound = omega arith;
              digits = appended;
              room = λ h. absurd (omega arith);
              small = low;
              place = λ h. absurd (omega arith);
            },
            omega arith,
          )
    ]

read_loop-eq :
    (rounds : ℕ) (array : List ℕ) (p bits : ℕ) (r : Reader)
    → bits ≤ 32
    → p + bits ≤ length array * 8
    → bits ≤ rounds + r.bits_read
    → IsReading array p bits r
    → (read_loop rounds array bits r).value ≡ window array p bits
unfolding read_loop
read_loop-eq zero array p bits r small fits fuel inv =
    inv.digits ∙ ap (window array p) (omega (arith, inv.bound))
read_loop-eq (suc rounds) array p bits r small fits fuel inv =
    elim (Bool-cases (ltb r.bits_read bits)) [
      | inl more ↦
          let lt = ltb→lt r.bits_read bits more in
          let (inv', grows) = read_chunk-IsReading array p bits r small inv lt in
          rw (more, lt→leb (length array) r.cur_byte (omega (arith, inv.place lt, inv.small)))
            (read_loop-eq rounds array p bits (read_chunk array bits r) small fits (omega arith)
              inv')
      | inr done ↦ rw done (
          inv.digits ∙ ap (window array p) (omega (arith, inv.bound, ltb→le r.bits_read bits done)))
    ]

-- At a width of up to 32 bits, the loop that reads an entry inside the array answers the number
-- whose digits stand at the entry's place.
pub read_value-eq-slot :
    (array : List ℕ) (bits i : ℕ)
    → bits ≤ 32
    → i * bits + bits ≤ length array * 8
    → read_value array bits i ≡ slot array bits i
unfolding read_value slot
read_value-eq-slot array bits i small fits =
    read_loop-eq bits array (i * bits) bits (reader_at (i * bits)) small fits (omega arith)
      (record {
        bound = omega arith;
        digits = unfold window in refl;
        room = λ h. refl;
        small = omega arith;
        place = λ h. omega arith;
      })
