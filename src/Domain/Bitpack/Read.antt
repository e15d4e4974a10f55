-- ===== src/Domain/Bitpack/Read.antt =====
-- `decode_status_array` of src/domain/models/status_list.rs.
pub mod Chunk
pub mod Decode
use Prim.Native.String as Str
use status_list_server.Base.{
  ℕ, zero, suc, ◌+◌, ◌-◌, ◌*◌, ◌/◌, ◌%◌, min, bit_and, bit_or, leb, ltb, ◌==◌, if◌then◌else◌, List,
  [], ◌∷◌, length, get_or, String, ok, err, panic, ◌>>=◌, show_ℕ,
}
use status_list_server.Domain.Model.{
  Status, valid, invalid, suspended, application_specific, Result, corrupt_stored_list,
}
use status_list_server.Domain.Bitpack.Byte.{shl, shr}

pub record Reader : Type 0 where
  pub cur_byte : ℕ
  pub cur_offset : ℕ
  pub bits_in_current_byte : ℕ
  pub value : ℕ
  pub bits_read : ℕ

-- `(array[cur_byte] as u16 >> cur_offset) & ((1u16 << count) - 1)`.
unfoldable pub extract : ℕ → ℕ → ℕ → ℕ
extract byte offset count = bit_and (shr 16 byte offset) (shl 16 1 count - 1)

-- One round of `while bits_read < bits`, past its test for the end of the array.
unfoldable pub read_chunk : List ℕ → ℕ → Reader → Reader
read_chunk array bits r =
    let bits_this_iter = min r.bits_in_current_byte (bits - r.bits_read) in
    let extracted = extract (get_or array r.cur_byte 0) r.cur_offset bits_this_iter in
    let value = bit_or r.value (shl 32 extracted r.bits_read) in
    let left = r.bits_in_current_byte - bits_this_iter in
    if left == 0
    then record {
      cur_byte = r.cur_byte + 1;
      cur_offset = 0;
      bits_in_current_byte = 8;
      value = value;
      bits_read = r.bits_read + bits_this_iter;
    }
    else record {
      cur_byte = r.cur_byte;
      cur_offset = r.cur_offset;
      bits_in_current_byte = left;
      value = value;
      bits_read = r.bits_read + bits_this_iter;
    }

-- The loop; each round reads a bit or more, so `bits` rounds are enough.
unfoldable pub read_loop : ℕ → List ℕ → ℕ → Reader → Reader
unfolding read_chunk
read_loop zero array bits r = r
read_loop (suc rounds) array bits r =
    let more = read_loop rounds array bits (read_chunk array bits r) in
    if ltb r.bits_read bits then (if leb (length array) r.cur_byte then r else more) else r

abbrev pub reader_at : ℕ → Reader
reader_at total_bit_pos = record {
  cur_byte = total_bit_pos / 8;
  cur_offset = total_bit_pos % 8;
  bits_in_current_byte = 8 - total_bit_pos % 8;
  value = 0;
  bits_read = 0;
}

unfoldable pub read_value : List ℕ → ℕ → ℕ → ℕ
unfolding read_loop
read_value array bits i = (read_loop bits array bits (reader_at (i * bits))).value

-- The closing `match value`.
unfoldable pub status_of : ℕ → Result Status
status_of value =
    if value == 0
    then ok valid
    else if value == 1
    then ok invalid
    else if value == 2
    then ok suspended
    else if leb 256 value
    then ok (application_specific value)
    else err (corrupt_stored_list "Invalid status value in existing list")

-- `for i in 0..(array.len() * 8 / bits)`, with `left` rounds left.
unfoldable pub decode_from : List ℕ → ℕ → ℕ → ℕ → Result (List Status)
unfolding read_value status_of
decode_from array bits i zero = ok []
decode_from array bits i (suc left) = do
  status ← status_of (read_value array bits i)
  statuses ← decode_from array bits (i + 1) left
  ok (status ∷ statuses)

abbrev trailing_byte_message : ℕ → ℕ → String
trailing_byte_message len bits = Str.◌++◌ "stored status array of " (
    Str.◌++◌ (show_ℕ len)
      (Str.◌++◌ " bytes leaves an unused trailing byte at " (Str.◌++◌ (show_ℕ bits) "-bit width")))

-- A width of 0 divides by zero.
unfoldable pub decode_status_array : List ℕ → ℕ → Result (List Status)
unfolding decode_from show_ℕ
decode_status_array array bits =
    if bits == 0
    then panic
    else if leb 8 (length array * 8 % bits)
    then err (corrupt_stored_list (trailing_byte_message (length array) bits))
    else decode_from array bits 0 (length array * 8 / bits)
