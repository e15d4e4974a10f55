-- ===== src/Domain/Bitpack/Read/Decode.antt =====
-- What `decode_status_array` returns for a well-formed array, and its error.
use status_list_server.Base.{
  ℕ, zero, suc, ◌+◌, ◌*◌, ◌/◌, ◌%◌, ◌^◌, ◌<◌, ◌≤◌, List, [], ◌∷◌, length, get_or, map, ◌≡◌, ap, ◌∙◌,
  refl, arith, ok, ◌⊎◌, lt→leb, ==_of_pos,
}
use native.Mathlib.Nat.{zero-add}
use status_list_server.Domain.Model.{Status, valid, invalid, suspended, application_specific}
use status_list_server.Domain.Bitpack.Width.{status_value}
use status_list_server.Domain.Bitpack.Read.{status_of, decode_from, decode_status_array}
use status_list_server.Domain.Bitpack.Read.Chunk.{read_value-eq-slot}
use status_list_server.Domain.Bitpack.Write.Digits.{IsBytes}
use status_list_server.Domain.Bitpack.Write.Slots.{slot}
use status_list_server.Domain.Bitpack.Write.Updates.{code, All}

-- A number that stands for a status; 3 to 255 do not.
abbrev pub IsCode : ℕ → Type 0
IsCode v = (v < 3) ⊎ (256 ≤ v)

-- A well-formed array at a width: whole entries but for less than a byte, each a status, and
-- nothing after the last; the entries can be numbered by an `i32`.
pub record IsPacked (bits : ℕ) (array : List ℕ) : Type 0 where
  pub some_bits : 1 ≤ bits
  pub word_bits : bits ≤ 32
  pub bytes : IsBytes array
  pub aligned : length array * 8 % bits < 8
  pub few : length array * 8 / bits ≤ 2 ^ 31
  pub coded : (i : ℕ) → IsCode (slot array bits i)
  pub blank : (i : ℕ) → length array * 8 / bits ≤ i → slot array bits i ≡ 0

pub status_of-code :
    (v : ℕ)
    → IsCode v
    → (s : Status) × (status_of v ≡ ok s) × (code s ≡ v) × (status_value s ≡ ok (code s))
unfolding status_of status_value
status_of-code zero h = (valid, refl, refl, refl)
status_of-code (suc zero) h = (invalid, refl, refl, refl)
status_of-code (suc (suc zero)) h = (suspended, refl, refl, refl)
status_of-code (suc (suc (suc v))) h =
    (application_specific (suc (suc (suc v))), ground arith, refl, ground arith)

-- The statuses from entry `i` on.
pub record IsDecoded (array : List ℕ) (bits i left : ℕ) (statuses : List Status) : Type 0 where
  pub count : length statuses ≡ left
  pub coded : All (λ s. status_value s ≡ ok (code s)) statuses
  pub entries : (j : ℕ) → j < left → get_or (map code statuses) j 0 ≡ slot array bits (i + j)

entries_cons :
    (array : List ℕ) (bits i left : ℕ) (s : Status) (rest : List Status)
    → code s ≡ slot array bits i
    → IsDecoded array bits (i + 1) left rest
    → (j : ℕ) → j < suc left
    → get_or (map code (s ∷ rest)) j 0 ≡ slot array bits (i + j)
entries_cons array bits i left s rest same decoded zero h =
    same ∙ ap (slot array bits) (omega arith)
entries_cons array bits i left s rest same decoded (suc j) h =
    decoded.entries j (omega arith) ∙ ap (slot array bits) (omega arith)

decode_from-IsDecoded :
    (array : List ℕ) (bits i left : ℕ)
    → bits ≤ 32
    → ((j : ℕ) → IsCode (slot array bits j))
    → (i + left) * bits ≤ length array * 8
    → (statuses : List Status) × (decode_from array bits i left ≡ ok statuses)
      × IsDecoded array bits i left statuses
unfolding decode_from
decode_from-IsDecoded array bits i zero small coded fits =
    ([], refl, record { count = refl; coded = tt; entries = λ j h. absurd (omega arith) })
decode_from-IsDecoded array bits i (suc left) small coded fits =
    let (s, stands, same, valued) = status_of-code (slot array bits i) (coded i) in
    let (rest, returns, decoded) =
      decode_from-IsDecoded array bits (i + 1) left small coded (grind arith) in
    (
      s ∷ rest,
      rw (read_value-eq-slot array bits i small (grind arith), stands, returns) refl,
      record {
        count = ap suc decoded.count;
        coded = (valued, decoded.coded);
        entries = entries_cons array bits i left s rest same decoded;
      },
    )

pub entries_fit : (bits len : ℕ) → 1 ≤ bits → len / bits * bits ≤ len
entries_fit bits len h = grind arith

-- A well-formed array of entries decodes without an error or a panic, to one status for each of
-- its whole entries, with the entry's number.
pub decode_status_array-IsPacked :
    (array : List ℕ) (bits : ℕ)
    → IsPacked bits array
    → (statuses : List Status) × (decode_status_array array bits ≡ ok statuses)
      × IsDecoded array bits 0 (length array * 8 / bits) statuses
unfolding decode_status_array
decode_status_array-IsPacked array bits p =
    let positive = p.some_bits in
    let (statuses, returns, decoded) =
      decode_from-IsDecoded array bits 0 (length array * 8 / bits) p.word_bits p.coded
        (rw zero-add (entries_fit bits (length array * 8) positive)) in
    (
      statuses,
      rw (==_of_pos bits positive, lt→leb 8 (length array * 8 % bits) p.aligned) returns,
      decoded,
    )
