-- ===== src/Domain/Bitpack/Width.antt =====
-- The width of a field and the length of the array, src/domain/models/status_list.rs.
pub mod Powers
pub mod Bounds
pub mod Length
use status_list_server.Base.{
  ℕ, ℤ, zero, suc, ◌+◌, ◌-◌, ◌*◌, ◌/◌, ◌%◌, ◌^◌, max, leb, ltb, ◌==◌, if◌then◌else◌, Option, none,
  some, List, [], ◌∷◌, map, is_empty, pos_part, is_negative, max_ℤ, ok, err, ok_or, ◌>>=◌,
}
use status_list_server.Domain.Model.{
  Status, valid, invalid, suspended, application_specific, StatusEntry, Result, invalid_index,
  invalid_status_list,
}

unfoldable pub status_value : Status → Result ℕ
status_value valid = ok 0
status_value invalid = ok 1
status_value suspended = ok 2
status_value (application_specific value) =
    if leb 256 value
    then ok value
    else err (invalid_status_list "ApplicationSpecific value must be >= 256")

-- `collect` into a `Result` stops at the first error.
unfoldable pub status_values : List StatusEntry → Result (List ℕ)
status_values [] = ok []
status_values (entry ∷ updates) = do
  value ← status_value entry.status
  values ← status_values updates
  ok (value ∷ values)

unfoldable pub max_from : ℕ → List ℕ → ℕ
max_from m [] = m
max_from m (x ∷ xs) = max_from (max m x) xs

-- `Iterator::max`.
unfoldable pub maximum : List ℕ → Option ℕ
unfolding max_from
maximum [] = none
maximum (x ∷ xs) = some (max_from x xs)

-- `usize::next_power_of_two`, from the power `p`, for numbers up to 2 ^ 63.
unfoldable pub next_power_from : ℕ → ℕ → ℕ → ℕ
next_power_from zero p n = p
next_power_from (suc rounds) p n =
    let doubled = next_power_from rounds (2 * p) n in if leb n p then p else doubled

abbrev pub next_power_of_two : ℕ → ℕ
unfolding next_power_from
next_power_of_two n = next_power_from 63 1 n

-- `usize::trailing_zeros`; 64 at zero.
unfoldable pub trailing_zeros_from : ℕ → ℕ → ℕ
trailing_zeros_from zero n = 0
trailing_zeros_from (suc rounds) n =
    let rest = suc (trailing_zeros_from rounds (n / 2)) in if n % 2 == 1 then 0 else rest

abbrev pub trailing_zeros : ℕ → ℕ
unfolding trailing_zeros_from
trailing_zeros n = trailing_zeros_from 64 n

unfoldable pub required_bits : ℕ → Result ℕ
required_bits m =
    if leb m 1
    then ok 1
    else if leb m 3
    then ok 2
    else if leb m 15
    then ok 4
    else if leb m 255
    then ok 8
    else (let bits_needed = trailing_zeros_from 64 (next_power_from 63 1 (m + 1)) in
        if bits_needed == 0
        then err (invalid_status_list "Status value too large")
        else ok bits_needed)

abbrev pub at_least : Option ℕ → ℕ → ℕ
at_least none required = max required required
at_least (some original) required = max original required

unfoldable pub determine_bits : List StatusEntry → Option ℕ → Result ℕ
determine_bits updates original_bits = do
  values ← status_values updates
  max_status_value ←
      ok_or (maximum values) (invalid_status_list "Failed to determine max status value")
  required ← required_bits max_status_value
  ok (at_least original_bits required)

unfoldable pub max_index_from : ℤ → List StatusEntry → ℤ
max_index_from m [] = m
max_index_from m (update ∷ updates) = max_index_from (max_ℤ m update.index) updates

-- `usize` subtraction of one, which wraps at zero.
abbrev pub pred_usize : ℕ → ℕ
pred_usize n = if n == 0 then 2 ^ 64 - 1 else n - 1

-- An `i32` index times a `u8` width stays far below 2 ^ 64, so the products do not wrap.
unfoldable pub calculate_array_size : List StatusEntry → ℕ → Result ℕ
unfolding max_index_from
calculate_array_size [] bits = ok 0
calculate_array_size (update ∷ updates) bits =
    let max_index = max_index_from update.index updates in
    if is_negative max_index
    then err invalid_index
    else (let end_bit = pred_usize (pos_part max_index * bits + bits) in ok (end_bit / 8 + 1))
