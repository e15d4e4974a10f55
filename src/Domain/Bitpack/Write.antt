-- ===== src/Domain/Bitpack/Write.antt =====
-- `apply_updates` of src/domain/models/status_list.rs.
pub mod Digits
pub mod Written
pub mod Window
pub mod Slots
pub mod Updates
use status_list_server.Base.{
  ℕ, zero, suc, ◌+◌, ◌-◌, ◌*◌, ◌/◌, ◌%◌, min, leb, ltb, if◌then◌else◌, List, [], ◌∷◌, length,
  get_or, set, pos_part, is_negative, ok, err, panic, ◌>>=◌,
}
use status_list_server.Domain.Model.{StatusEntry, Result, invalid_index, invalid_status_list}
use status_list_server.Domain.Bitpack.Byte.{
  u8, shl, not_u8, field_mask, value_bit, put_field, put_bit,
}
use status_list_server.Domain.Bitpack.Width.{status_value}

-- `array[i] = f(array[i])`; an index out of bounds panics.
unfoldable pub modify : List ℕ → ℕ → (ℕ → ℕ) → Result (List ℕ)
modify array i f = if ltb i (length array) then ok (set array i (f (get_or array i 0))) else panic

pub record Cursor : Type 0 where
  pub array : List ℕ
  pub cur_byte : ℕ
  pub cur_offset : ℕ

-- One round of the inner loop: one bit of the value.
unfoldable pub write_bit : ℕ → ℕ → Cursor → Result Cursor
unfolding modify put_bit
write_bit value global_bit s = do
  array ← modify s.array s.cur_byte (put_bit s.cur_offset (value_bit value global_bit))
  if leb 8 (s.cur_offset + 1)
      then ok (record { array = array; cur_byte = s.cur_byte + 1; cur_offset = 0 })
      else ok (record { array = array; cur_byte = s.cur_byte; cur_offset = s.cur_offset + 1 })

-- `for i in 0..bits_this_byte`, with `left` rounds left.
unfoldable pub write_run : ℕ → ℕ → ℕ → ℕ → Cursor → Result Cursor
unfolding write_bit
write_run value bits_written i zero s = ok s
write_run value bits_written i (suc left) s = do
  next ← write_bit value (bits_written + i) s
  write_run value bits_written (i + 1) left next

-- `while bits_written < bits`. Each round writes a bit or more, so `bits` rounds are enough.
unfoldable pub write_rest : ℕ → ℕ → ℕ → ℕ → Cursor → Result Cursor
unfolding write_run
write_rest zero value bits bits_written s = panic
write_rest (suc rounds) value bits bits_written s =
    if ltb bits_written bits
    then (let bits_this_byte = min (bits - bits_written) 8 in
        write_run value bits_written 0 bits_this_byte s >>= λ next.
        write_rest rounds value bits (bits_written + bits_this_byte) next)
    else ok s

-- The masks and shifts that store one value, whether it fits the byte or spans several.
unfoldable pub write_value : List ℕ → ℕ → ℕ → ℕ → Result (List ℕ)
unfolding modify put_field write_rest
write_value array bit_position bits value =
    let byte_index = bit_position / 8 in
    let bit_offset = bit_position % 8 in
    if leb (bit_offset + bits) 8
    then modify array byte_index (put_field bits bit_offset value)
    else (let first_byte_bits = 8 - bit_offset in
        modify array byte_index (put_field first_byte_bits bit_offset value) >>= λ first.
        write_rest (bits + 1) value bits first_byte_bits
          (record { array = first; cur_byte = byte_index + 1; cur_offset = 0 })
        >>= λ done. ok done.array)

-- One round of `for update in status_updates`.
unfoldable pub apply_update : List ℕ → StatusEntry → ℕ → Result (List ℕ)
unfolding write_value status_value
apply_update array update bits =
    if is_negative update.index
    then err invalid_index
    else (let bit_position = pos_part update.index * bits in
        if leb (length array) (bit_position / 8)
        then err (invalid_status_list "Index out of bounds")
        else (status_value update.status >>= write_value array bit_position bits))

unfoldable pub apply_updates : List ℕ → List StatusEntry → ℕ → Result (List ℕ)
unfolding apply_update
apply_updates array [] bits = ok array
apply_updates array (update ∷ updates) bits = do
  next ← apply_update array update bits
  apply_updates next updates bits
