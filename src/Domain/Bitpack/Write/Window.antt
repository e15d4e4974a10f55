-- ===== src/Domain/Bitpack/Write/Window.antt =====
-- What `write_value` of the packed array does, bit by bit.
use status_list_server.Base.{
  ℕ, zero, suc, ◌+◌, ◌-◌, ◌*◌, ◌/◌, ◌%◌, min, ◌<◌, ◌≤◌, ◌==◌, leb, ltb, Bool-cases, if◌then◌else◌,
  List, length, get_or, set, length-set, ◌≡◌, refl, arith, ok, ◌>>=◌, inl, inr, leb→le, leb→lt,
  ltb→lt, ltb→le,
}
use status_list_server.Base.Bits.{test_bit, test_bit-lt, same_bit}
use status_list_server.Domain.Model.{Result}
use status_list_server.Domain.Bitpack.Byte.{
  put_field, put_bit, value_bit, value_bit-eq, put_bit-lt, test_bit-put_bit,
}
use status_list_server.Domain.Bitpack.Write.{Cursor, write_bit, write_run, write_rest, write_value}
use status_list_server.Domain.Bitpack.Write.Digits.{
  IsBytes, modify-eq, bit_at-set_self, bit_at-set_ne, set-IsBytes,
}
use status_list_server.Domain.Bitpack.Write.Written.{
  IsWritten, IsWritten-trans, IsWritten-none, put_field-IsWritten,
}

-- The cursor stands at bit `p`.
pub record IsAt (p : ℕ) (s : Cursor) : Type 0 where
  pub place : s.cur_byte * 8 + s.cur_offset ≡ p
  pub small : s.cur_offset < 8

pub record Wrote (value start lo hi : ℕ) (before : List ℕ) (result : Result Cursor) : Type 0 where
  pub next : Cursor
  pub returns : result ≡ ok next
  pub is_at : IsAt (start + hi) next
  pub written : IsWritten value start lo hi before next.array

abbrev moved : List ℕ → Cursor → Cursor
moved array s =
    if leb 8 (s.cur_offset + 1)
    then record { array = array; cur_byte = s.cur_byte + 1; cur_offset = 0 }
    else record { array = array; cur_byte = s.cur_byte; cur_offset = s.cur_offset + 1 }

module _ (value start : ℕ) where
  put_bit-IsWritten :
      (g byte offset : ℕ) (array : List ℕ)
      → IsBytes array
      → byte < length array
      → byte * 8 + offset ≡ start + g
      → offset < 8
      → g < 32
      → IsWritten value start g
          (suc g)
          array
          (set array byte (put_bit offset (value_bit value g) (get_or array byte 0)))
  put_bit-IsWritten g byte offset array bytes h place small gh =
      let old : ℕ = get_or array byte 0 in
      let new : ℕ = put_bit offset (value_bit value g) old in
      let digit : (k : ℕ)
          → k < 8
          → test_bit new k ≡ (if k == offset then value_bit value g else test_bit old k) =
        λ k hk.
          test_bit-put_bit offset (value_bit value g) old k small hk
            (omega (arith, value_bit-eq value g gh, test_bit-lt value g)) in
      record {
        same_length = length-set array byte new;
        bytes =
            set-IsBytes array byte new bytes
              (put_bit-lt offset (value_bit value g) old (bytes byte));
        inside = λ k lo hi. ground (
          arith,
          bit_at-set_self array byte k new h,
          digit (k % 8),
          value_bit-eq value g gh,
          same_bit value value g (k - start) refl,
        );
        outside = λ k out. ground (
          arith,
          bit_at-set_self array byte k new h,
          bit_at-set_ne array byte k new,
          digit (k % 8),
          same_bit old (get_or array (k / 8) 0) (k % 8) (k % 8),
        );
      }

  write_bit-Wrote :
      (g : ℕ) (s : Cursor)
      → IsBytes s.array
      → s.cur_byte < length s.array
      → IsAt (start + g) s
      → g < 32
      → Wrote value start g (suc g) s.array (write_bit value g s)
  write_bit-Wrote g s bytes h at gh =
      let new : ℕ = put_bit s.cur_offset (value_bit value g) (get_or s.array s.cur_byte 0) in
      let array : List ℕ = set s.array s.cur_byte new in
      let small = at.small in
      let place = at.place in
      record {
        next = moved array s;
        returns =
            unfold write_bit in
            ground
              (arith, modify-eq s.array s.cur_byte (put_bit s.cur_offset (value_bit value g)) h);
        is_at = record { place = ground arith; small = ground arith };
        written = ground (
          arith,
          put_bit-IsWritten g s.cur_byte s.cur_offset s.array bytes h at.place at.small gh,
        );
      }

  Wrote-none :
      (lo hi : ℕ) (s : Cursor)
      → IsBytes s.array
      → IsAt (start + lo) s
      → lo ≡ hi
      → Wrote value start lo hi s.array (ok s)
  Wrote-none lo hi s bytes at e = record {
    next = s;
    returns = refl;
    is_at = record { place = omega arith; small = at.small };
    written = IsWritten-none value start lo hi s.array bytes (omega arith) (omega arith);
  }

  Wrote-bind :
      (lo mid hi : ℕ) (before : List ℕ) (m : Result Cursor) (f : Cursor → Result Cursor)
      → lo ≤ mid
      → mid ≤ hi
      → (w : Wrote value start lo mid before m) → Wrote value start mid hi w.next.array (f w.next)
      → Wrote value start lo hi before (m >>= f)
  Wrote-bind lo mid hi before m f p q w v = record {
    next = v.next;
    returns = rw w.returns v.returns;
    is_at = v.is_at;
    written = IsWritten-trans p q w.written v.written;
  }

  write_run-Wrote :
      (left written i lo hi : ℕ) (s : Cursor)
      → lo ≡ written + i
      → hi ≡ lo + left
      → IsBytes s.array
      → IsAt (start + lo) s
      → start + hi ≤ length s.array * 8
      → hi ≤ 32
      → Wrote value start lo hi s.array (write_run value written i left s)
  unfolding write_run
  write_run-Wrote zero written i lo hi s el eh bytes at fits small =
      Wrote-none lo hi s bytes at (omega arith)
  write_run-Wrote (suc left) written i lo hi s el eh bytes at fits small =
      let place = at.place in
      let one : Wrote value start lo (suc lo) s.array (write_bit value (written + i) s) =
        rw (← el) (write_bit-Wrote lo s bytes (omega (arith, at.small)) at (omega arith)) in
      Wrote-bind lo (suc lo) hi s.array _ _ (omega arith) (omega arith) one (
        write_run-Wrote left written (i + 1) (suc lo) hi one.next (omega arith) (omega arith)
          one.written.bytes one.is_at (omega (arith, one.written.same_length)) small)

  write_rest-Wrote :
      (rounds bits written : ℕ) (s : Cursor)
      → IsBytes s.array
      → IsAt (start + written) s
      → written ≤ bits
      → bits < written + rounds
      → start + bits ≤ length s.array * 8
      → bits ≤ 32
      → Wrote value start written bits s.array (write_rest rounds value bits written s)
  unfolding write_rest
  write_rest-Wrote zero bits written s bytes at le lt fits small = absurd (omega arith)
  write_rest-Wrote (suc rounds) bits written s bytes at le lt fits small =
      elim (Bool-cases (ltb written bits)) [
        | inl more ↦
            let p = ltb→lt written bits more in
            let n : ℕ = min (bits - written) 8 in
            let run : Wrote value start written (written + n) s.array
                (write_run value written 0 n s) =
              write_run-Wrote n written 0 written (written + n) s (omega arith) refl bytes at
                (omega arith) (omega arith) in
            rw more (
              Wrote-bind written (written + n) bits s.array _ _ (omega arith) (omega arith) run (
                write_rest-Wrote rounds bits (written + n) run.next run.written.bytes run.is_at
                  (omega arith) (omega arith) (omega (arith, run.written.same_length)) small))
        | inr done ↦
            rw done (Wrote-none written bits s bytes at (omega (arith, ltb→le written bits done)))
      ]

  -- At a width of 1 to 32 bits and a place inside an array of bytes, a value is stored without an
  -- error or a panic, within one byte or across several: its digits stand at that place, every
  -- other bit is unchanged, and the length is the same.
  pub write_value-IsWritten :
      (bits : ℕ) (array : List ℕ)
      → IsBytes array
      → 1 ≤ bits
      → bits ≤ 32
      → start + bits ≤ length array * 8
      → (after : List ℕ) × (write_value array start bits value ≡ ok after)
        × IsWritten value start 0 bits array after
  unfolding write_value
  write_value-IsWritten bits array bytes pos small fits =
      elim (Bool-cases (leb (start % 8 + bits) 8)) [
        | inl within ↦ (
          _,
          rw (within, modify-eq array (start / 8) (put_field bits (start % 8) value) (omega arith))
              refl,
          put_field-IsWritten value start bits array bytes (omega arith) (leb→le _ _ within),
        )
        | inr across ↦
            let wide = leb→lt (start % 8 + bits) 8 across in
            let n : ℕ = 8 - start % 8 in
            let new : ℕ = put_field n (start % 8) value (get_or array (start / 8) 0) in
            let head : IsWritten value start 0 n array (set array (start / 8) new) =
              put_field-IsWritten value start n array bytes (omega arith) (omega arith) in
            let s : Cursor = record {
              array = set array (start / 8) new;
              cur_byte = start / 8 + 1;
              cur_offset = 0;
            } in
            let rest : Wrote value start n bits (set array (start / 8) new)
                (write_rest (bits + 1) value bits n s) =
              write_rest-Wrote (bits + 1) bits n s head.bytes (omega arith) (omega arith)
                (omega arith) (omega (arith, head.same_length)) small in
            (
              rest.next.array,
              rw
                  (
                    across,
                    modify-eq array (start / 8) (put_field n (start % 8) value) (omega arith),
                    rest.returns,
                  )
                  refl,
              IsWritten-trans (omega arith) (omega arith) head rest.written,
            )
      ]
