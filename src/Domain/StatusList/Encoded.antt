-- ===== src/Domain/StatusList/Encoded.antt =====
-- The abstract view of the lists of src/domain/models/status_list.rs: the function from an index
-- to the number of its status, and the text of an array that a batch was applied to.
use status_list_server.Base.{ℕ, ◌^◌, ◌<◌, ◌≤◌, List, length, ◌≡◌, refl, ok, String}
use status_list_server.Domain.Model.{StatusEntry, StatusList}
use status_list_server.Domain.StatusList.{Codec, IsCodec, encode_compressed, decode_compressed}
use status_list_server.Domain.StatusList.Packed.{apply_updates-IsPacked, place}
use status_list_server.Domain.Bitpack.Width.Bounds.{IsRequest}
use status_list_server.Domain.Bitpack.Width.Length.{IsLength}
use status_list_server.Domain.Bitpack.Write.Digits.{IsBytes}
use status_list_server.Domain.Bitpack.Write.{apply_updates}
use status_list_server.Domain.Bitpack.Write.Slots.{slot}
use status_list_server.Domain.Bitpack.Write.Updates.{code, All, last_value}
use status_list_server.Domain.Bitpack.Read.Decode.{IsPacked}

-- The list is the text of a well-formed array whose entries are the given numbers.
pub record Denotes (c : Codec) (list : StatusList) (entries : ℕ → ℕ) : Type 0 where
  pub array : List ℕ
  pub decoded : decode_compressed c list.lst ≡ ok array
  pub packed : IsPacked list.bits array
  pub values : (i : ℕ) → slot array list.bits i ≡ entries i

module _ (c : Codec) (laws : IsCodec c) where
  -- For a codec that keeps its laws, the compressed text of an array of bytes is made, and is
  -- read back to the array.
  encode-decode :
      (array : List ℕ)
      → IsBytes array
      → (lst : String) × (encode_compressed c array ≡ ok lst) × (decode_compressed c lst ≡ ok array)
  unfolding encode_compressed decode_compressed
  encode-decode array bytes =
      let (z, finished) = laws.finishes array in
      (
        c.base64_encode z,
        rw (laws.writes array, finished) refl,
        rw (laws.decodes array z bytes finished, laws.inflates array z bytes finished) refl,
      )

  -- A batch applied to a well-formed array, and its text.
  pub record Stored (bits : ℕ) (updates : List StatusEntry) (array : List ℕ) : Type 0 where
    pub after : List ℕ
    pub lst : String
    pub applied : apply_updates array updates bits ≡ ok after
    pub encoded : encode_compressed c after ≡ ok lst
    pub decoded : decode_compressed c lst ≡ ok after
    pub packed : IsPacked bits after
    pub entries : (i : ℕ) → slot after bits i ≡ last_value updates i (slot array bits i)

  pub store :
      (bits len : ℕ) (updates : List StatusEntry) (array : List ℕ)
      → IsPacked bits array
      → All IsRequest updates
      → All (λ u. code u.status < 2 ^ bits) updates
      → IsLength bits updates len
      → len ≤ length array
      → Stored bits updates array
  store bits len updates array p requests holds l fits =
      let (after, applied, u, packed) =
        apply_updates-IsPacked bits updates array p
          (place bits (length array) len updates requests holds l fits) in
      let (lst, encoded, decoded) = encode-decode after packed.bytes in
      record {
        after = after;
        lst = lst;
        applied = applied;
        encoded = encoded;
        decoded = decoded;
        packed = packed;
        entries = u.entries;
      }
