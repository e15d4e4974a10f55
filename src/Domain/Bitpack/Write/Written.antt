-- ===== src/Domain/Bitpack/Write/Written.antt =====
-- What it means that some digits of a value were written to the packed array of
-- src/domain/models/status_list.rs, and that one masked byte does so.
use status_list_server.Base.{
  ℕ, ◌+◌, ◌-◌, ◌/◌, ◌%◌, ◌<◌, ◌≤◌, List, length, get_or, set, length-set, ◌≡◌, ◌∙◌, refl, arith,
  ◌⊎◌,
}
use status_list_server.Base.Bits.{test_bit, same_bit}
use status_list_server.Domain.Bitpack.Byte.{put_field, put_field-lt, test_bit-put_field}
use status_list_server.Domain.Bitpack.Write.Digits.{
  bit_at, IsBytes, bit_at-set_self, bit_at-set_ne, set-IsBytes,
}

-- `after` holds the digits `lo` to `hi` of the value, its digit 0 belonging at bit `start`, and
-- is `before` everywhere else.
pub record IsWritten (value start lo hi : ℕ) (before after : List ℕ) : Type 0 where
  pub same_length : length after ≡ length before
  pub bytes : IsBytes after
  pub inside :
      (k : ℕ) → start + lo ≤ k → k < start + hi → bit_at after k ≡ test_bit value (k - start)
  pub outside : (k : ℕ) → (k < start + lo) ⊎ (start + hi ≤ k) → bit_at after k ≡ bit_at before k

pub IsWritten-trans :
    {value start lo mid hi : ℕ} {a b c : List ℕ}
    → lo ≤ mid
    → mid ≤ hi
    → IsWritten value start lo mid a b
    → IsWritten value start mid hi b c
    → IsWritten value start lo hi a c
IsWritten-trans p q w v = record {
  same_length = v.same_length ∙ w.same_length;
  bytes = v.bytes;
  inside = λ k h l. ground (arith, w.inside k, w.outside k, v.inside k, v.outside k);
  outside = λ k h. ground (arith, w.outside k, v.outside k);
}

pub IsWritten-none :
    (value start lo hi : ℕ) (a : List ℕ)
    → IsBytes a
    → hi ≤ lo
    → lo ≤ hi
    → IsWritten value start lo hi a a
IsWritten-none value start lo hi a b p q = record {
  same_length = refl;
  bytes = b;
  inside = λ k h l. absurd (omega arith);
  outside = λ k h. refl;
}

-- One masked byte.
pub put_field-IsWritten :
    (value p count : ℕ) (array : List ℕ)
    → IsBytes array
    → p / 8 < length array
    → p % 8 + count ≤ 8
    → IsWritten value p 0 count array
        (set array (p / 8) (put_field count (p % 8) value (get_or array (p / 8) 0)))
put_field-IsWritten value p count array bytes h fits =
    let old : ℕ = get_or array (p / 8) 0 in
    let new : ℕ = put_field count (p % 8) value old in
    record {
      same_length = length-set array (p / 8) new;
      bytes =
          set-IsBytes array (p / 8) new bytes
            (put_field-lt count (p % 8) value old (bytes (p / 8)));
      inside = λ k lo hi. ground (
        arith,
        bit_at-set_self array (p / 8) k new h,
        test_bit-put_field count (p % 8) value old (k % 8) fits,
        same_bit value value (k % 8 - p % 8) (k - p) refl,
      );
      outside = λ k out. ground (
        arith,
        bit_at-set_self array (p / 8) k new h,
        bit_at-set_ne array (p / 8) k new,
        test_bit-put_field count (p % 8) value old (k % 8) fits,
        same_bit old (get_or array (k / 8) 0) (k % 8) (k % 8),
      );
    }
