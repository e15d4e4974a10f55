-- ===== src/Domain/StatusList.antt =====
-- `StatusList` of src/domain/models/status_list.rs: `create`, `update`, and the compressed text
-- of an array. The zlib and base64url libraries are a parameter.
pub mod Packed
pub mod Enumerate
pub mod Encoded
pub mod Update
use Prim.Native.String as Str
use status_list_server.Base.{
  ℕ, suc, ◌+◌, ◌-◌, ltb, if◌then◌else◌, List, [], ◌∷◌, ◌++◌, length, replicate, String, Outcome, ok,
  map_err, ◌>>=◌, ◌>>◌, wrap_signed, Option, some, none, ◌≡◌,
}
use status_list_server.Domain.Model.{
  Status, StatusEntry, StatusList, Result, invalid_status_list, corrupt_stored_list,
}
use status_list_server.Domain.Bitpack.Byte.{u8}
use status_list_server.Domain.Bitpack.Width.{determine_bits, calculate_array_size}
use status_list_server.Domain.Bitpack.Write.{apply_updates}
use status_list_server.Domain.Bitpack.Write.Digits.{IsBytes}
use status_list_server.Domain.Bitpack.Read.{decode_status_array}

-- The calls of flate2 and base64url. An error is the text that it displays.
pub record Codec : Type 0 where
  -- `write_all` on a fresh encoder into a vector.
  pub write_all : List ℕ → Outcome String (Unit {0})
  -- `finish` of an encoder that has been given these bytes.
  pub finish : List ℕ → Outcome String (List ℕ)
  pub inflate : List ℕ → Outcome String (List ℕ)
  pub base64_encode : List ℕ → String
  pub base64_decode : String → Outcome String (List ℕ)

-- What the code relies on of the libraries: writing into memory succeeds, the codecs invert one
-- another on bytes, and no input is no output (the text of the list without entries).
pub record IsCodec (c : Codec) : Type 0 where
  pub writes : (bytes : List ℕ) → c.write_all bytes ≡ ok tt
  pub finishes : (bytes : List ℕ) → (z : List ℕ) × (c.finish bytes ≡ ok z)
  pub inflates : (bytes z : List ℕ) → IsBytes bytes → c.finish bytes ≡ ok z → c.inflate z ≡ ok bytes
  pub decodes :
      (bytes z : List ℕ)
      → IsBytes bytes
      → c.finish bytes ≡ ok z
      → c.base64_decode (c.base64_encode z) ≡ ok z
  pub decodes_empty : c.base64_decode "" ≡ ok []
  pub inflates_empty : c.inflate [] ≡ ok []

-- `Vec::resize` to a greater length, with zeros.
abbrev pub resize : List ℕ → ℕ → List ℕ
resize array len = array ++ replicate (len - length array) 0

-- `into_iter().enumerate()`, with the index as an `i32`, from index `i`.
unfoldable pub enumerate_from : ℕ → List Status → List StatusEntry
enumerate_from i [] = []
enumerate_from i (status ∷ statuses) =
    record { index = wrap_signed 32 i; status = status } ∷ enumerate_from (suc i) statuses

module _ (c : Codec) where
  unfoldable pub encode_compressed : List ℕ → Result String
  encode_compressed bytes =
      map_err (λ e. invalid_status_list (Str.◌++◌ "Failed to compress status list: " e))
        (c.write_all bytes)
      >> map_err
          (λ e. invalid_status_list (Str.◌++◌ "Failed to finish status list compression: " e))
          (c.finish bytes)
      >>= λ z. ok (c.base64_encode z)

  unfoldable pub decode_compressed : String → Result (List ℕ)
  decode_compressed encoded = do
    bytes ←
        map_err (λ e. corrupt_stored_list (Str.◌++◌ "Invalid lst encoding: " e))
          (c.base64_decode encoded)
    map_err (λ e. corrupt_stored_list (Str.◌++◌ "Failed to decompress status list: " e))
        (c.inflate bytes)

  unfoldable pub create_with_bits : List StatusEntry → ℕ → Result StatusList
  create_with_bits updates bits = do
    len ← calculate_array_size updates bits
    array ← apply_updates (replicate len 0) updates bits
    lst ← encode_compressed array
    ok (record { bits = u8 bits; lst = lst })

  unfoldable pub create : List StatusEntry → Result StatusList
  create [] = ok (record { bits = 1; lst = "" })
  create (update ∷ updates) = do
    bits ← determine_bits (update ∷ updates) none
    len ← calculate_array_size (update ∷ updates) bits
    array ← apply_updates (replicate len 0) (update ∷ updates) bits
    lst ← encode_compressed array
    ok (record { bits = u8 bits; lst = lst })

  -- The array of the list, grown to the length that the updates need.
  unfoldable pub update_in_place : StatusList → List StatusEntry → List ℕ → Result StatusList
  update_in_place list updates array = do
    required_len ← calculate_array_size updates list.bits
    let status_array = if ltb (length array) required_len then resize array required_len else array
    after ← apply_updates status_array updates list.bits
    lst ← encode_compressed after
    ok (record { bits = list.bits; lst = lst })

  -- The old statuses and the updates, at a greater width.
  unfoldable pub update_widened : StatusList → List StatusEntry → List ℕ → ℕ → Result StatusList
  update_widened list updates array new_bits = do
    statuses ← decode_status_array array list.bits
    create_with_bits (enumerate_from 0 statuses ++ updates) new_bits

  unfoldable pub update : StatusList → List StatusEntry → Result StatusList
  update list [] = ok list
  update list (entry ∷ updates) = do
    new_bits ← determine_bits (entry ∷ updates) (some list.bits)
    array ← decode_compressed list.lst
    if ltb list.bits new_bits
        then update_widened list (entry ∷ updates) array new_bits
        else update_in_place list (entry ∷ updates) array
