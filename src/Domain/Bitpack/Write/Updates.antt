-- ===== src/Domain/Bitpack/Write/Updates.antt =====
-- What `apply_updates` promises: the last update of an index is stored, the rest is unchanged.
use status_list_server.Base.{
  ℕ, ◌+◌, ◌*◌, ◌/◌, ◌^◌, ◌<◌, ◌≤◌, ◌==◌, if◌then◌else◌, Bool-cases, List, [], ◌∷◌, length, ◌≡◌, ◌∙◌,
  refl, arith, ok, pos_part, is_negative, false, lt→leb, inl, inr, eq_of_==,
}
use status_list_server.Domain.Model.{
  Status, valid, invalid, suspended, application_specific, StatusEntry,
}
use status_list_server.Domain.Bitpack.Width.{status_value}
use status_list_server.Domain.Bitpack.Write.{apply_update, apply_updates}
use status_list_server.Domain.Bitpack.Write.Digits.{IsBytes}
use status_list_server.Domain.Bitpack.Write.Window.{write_value-IsWritten}
use status_list_server.Domain.Bitpack.Write.Written.{IsWritten}
use status_list_server.Domain.Bitpack.Write.Slots.{slot, slot_written, slot_kept}

-- The number that stands for a status.
abbrev pub code : Status → ℕ
code valid = 0
code invalid = 1
code suspended = 2
code (application_specific value) = value

-- Entry `i` after a list of updates, from its value before.
abbrev pub last_value : List StatusEntry → ℕ → ℕ → ℕ
last_value [] i old = old
last_value (update ∷ updates) i old =
    last_value updates i (if pos_part update.index == i then code update.status else old)

-- The update can be stored at this width in an array of this length.
pub record IsPlaced (bits len : ℕ) (update : StatusEntry) : Type 0 where
  pub natural : is_negative update.index ≡ false
  pub coded : status_value update.status ≡ ok (code update.status)
  pub narrow : code update.status < 2 ^ bits
  pub room : pos_part update.index * bits + bits ≤ len * 8

abbrev pub All {ℓ κ} : {A : Type ℓ} → (A → Type κ) → List A → Type κ
All P [] = Unit
All P (x ∷ xs) = P x × All P xs

-- `after` is `before` with the updates in place.
pub record IsUpdated (bits : ℕ) (updates : List StatusEntry) (before after : List ℕ) : Type 0 where
  pub same_length : length after ≡ length before
  pub bytes : IsBytes after
  pub entries : (i : ℕ) → slot after bits i ≡ last_value updates i (slot before bits i)

apply_update-IsWritten :
    (bits : ℕ) (array : List ℕ) (update : StatusEntry)
    → 1 ≤ bits
    → bits ≤ 32
    → IsBytes array
    → IsPlaced bits (length array) update
    → (after : List ℕ) × (apply_update array update bits ≡ ok after)
      × IsWritten (code update.status) (pos_part update.index * bits) 0 bits array after
unfolding apply_update
apply_update-IsWritten bits array update pos small bytes p =
    let start : ℕ = pos_part update.index * bits in
    let (after, returns, written) =
      write_value-IsWritten (code update.status) start bits array bytes pos small p.room in
    (
      after,
      rw (p.natural, lt→leb (length array) (start / 8) (omega (arith, p.room)), p.coded) returns,
      written,
    )

slot_after :
    (bits i : ℕ) (update : StatusEntry) (before after : List ℕ)
    → code update.status < 2 ^ bits
    → IsWritten (code update.status) (pos_part update.index * bits) 0 bits before after
    → slot after bits i
      ≡ (if pos_part update.index == i then code update.status else slot before bits i)
slot_after bits i update before after lt w =
    let v : ℕ = code update.status in
    let j : ℕ = pos_part update.index in
    elim (Bool-cases (j == i)) [
      | inl same ↦ rw (same, ← eq_of_== j i same) (slot_written v bits j w lt)
      | inr other ↦ rw other (slot_kept v bits j w i (ground arith))
    ]

-- At a width of 1 to 32 bits, a batch whose updates all fit the width and the array is applied to
-- an array of bytes without an error or a panic: afterwards each entry is the last value given
-- for its index, or what it was, and the length is the same.
pub apply_updates-IsUpdated :
    (bits : ℕ) (updates : List StatusEntry) (array : List ℕ)
    → 1 ≤ bits
    → bits ≤ 32
    → IsBytes array
    → All (IsPlaced bits (length array)) updates
    → (after : List ℕ) × (apply_updates array updates bits ≡ ok after)
      × IsUpdated bits updates array after
unfolding apply_updates
apply_updates-IsUpdated bits [] array pos small bytes all =
    (array, refl, record { same_length = refl; bytes = bytes; entries = λ i. refl })
apply_updates-IsUpdated bits (update ∷ updates) array pos small bytes (p, all) =
    let (mid, first, w) = apply_update-IsWritten bits array update pos small bytes p in
    let (after, rest, u) =
      apply_updates-IsUpdated bits updates mid pos small w.bytes (rw w.same_length all) in
    (
      after,
      rw first rest,
      record {
        same_length = u.same_length ∙ w.same_length;
        bytes = u.bytes;
        entries = λ i. rw (u.entries i, slot_after bits i update array mid p.narrow w) refl;
      },
    )
