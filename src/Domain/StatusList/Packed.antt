-- ===== src/Domain/StatusList/Packed.antt =====
-- Well-formed arrays stay so: when they grow, and when updates are applied.
use status_list_server.Base.{
  ℕ, zero, suc, ◌+◌, ◌-◌, ◌*◌, ◌/◌, ◌%◌, ◌^◌, ◌<◌, ◌≤◌, leb, ◌==◌, List, [], ◌∷◌, length, replicate,
  get_or, get_or-pad, get_or-replicate, length-append, length-replicate, ◌≡◌, ◌≢◌, ap, ap₂, ◌∙◌,
  refl, arith, ok, inl, inr, pos_part, Bool-cases, leb→le, err-ne-ok, if_either,
}
use native.Mathlib.Nat.{le-div_iff_mul-le, div-mul-le_self, zero-div, mod-le, le_trans}
use status_list_server.Base.Bits.{test_bit, test_bit-zero}
use status_list_server.Domain.Model.{
  StatusEntry, Status, valid, invalid, suspended, application_specific,
}
use status_list_server.Domain.StatusList.{resize}
use status_list_server.Domain.Bitpack.Width.{status_value}
use status_list_server.Domain.Bitpack.Width.Bounds.{IsRequest, All-map}
use status_list_server.Domain.Bitpack.Width.Length.{IsLength}
use status_list_server.Domain.Bitpack.Write.{apply_updates}
use status_list_server.Domain.Bitpack.Write.Slots.{window, slot}
use status_list_server.Domain.Bitpack.Write.Updates.{
  code, All, last_value, IsPlaced, IsUpdated, apply_updates-IsUpdated,
}
use status_list_server.Domain.Bitpack.Read.Decode.{IsCode, IsPacked}

-- Arrays with the same bytes have the same entries.
window-ext :
    (a b : List ℕ) (p n : ℕ) → ((k : ℕ) → get_or a k 0 ≡ get_or b k 0) → window a p n ≡ window b p n
unfolding window
window-ext a b p zero h = refl
window-ext a b p (suc n) h =
    ap₂ (λ (x y : ℕ). x + 2 * y) (ap (λ (byte : ℕ). test_bit byte (p % 8)) (h (p / 8)))
      (window-ext a b (suc p) n h)

pub slot-resize :
    (array : List ℕ) (len bits i : ℕ) → slot (resize array len) bits i ≡ slot array bits i
unfolding slot
slot-resize array len bits i =
    window-ext (resize array len) array (i * bits) bits
      (λ k. get_or-pad array (len - length array) k 0)

pub length-resize :
    (array : List ℕ) (len : ℕ) → length array ≤ len → length (resize array len) ≡ len
length-resize array len h = omega (
  arith,
  length-append array (replicate (len - length array) 0),
  length-replicate {A = ℕ} (len - length array) 0,
)

div_mono : (a b k : ℕ) → 1 ≤ k → a ≤ b → a / k ≤ b / k
div_mono a b k p h = (le-div_iff_mul-le p).1 (le_trans (div-mul-le_self a k) h)

pub resize-IsPacked :
    (array : List ℕ) (bits len : ℕ) (updates : List StatusEntry)
    → IsPacked bits array
    → IsLength bits updates len
    → length array ≤ len
    → IsPacked bits (resize array len)
resize-IsPacked array bits len updates p l h =
    let same = length-resize array len h in
    record {
      some_bits = p.some_bits;
      word_bits = p.word_bits;
      bytes = λ i. rw (get_or-pad array (len - length array) i 0) (p.bytes i);
      aligned = rw same l.aligned;
      few = rw same l.few;
      coded = λ i. rw (slot-resize array len bits i) (p.coded i);
      blank = λ i k.
          slot-resize array len bits i
          ∙ p.blank i (
              le_trans (div_mono (length array * 8) (len * 8) bits p.some_bits (omega arith))
                (rw same at k));
    }

window_empty : (p n : ℕ) → window [] p n ≡ 0
unfolding window
window_empty p zero = refl
window_empty p (suc n) = omega (arith, test_bit-zero (p % 8), window_empty (suc p) n)

pub nil-IsPacked : (bits : ℕ) → 1 ≤ bits → bits ≤ 32 → IsPacked bits []
unfolding slot
nil-IsPacked bits p q = record {
  some_bits = p;
  word_bits = q;
  bytes = λ i. omega arith;
  aligned = omega (arith, mod-le 0 bits);
  few = omega (arith, zero-div bits);
  coded = λ i. inl (rw (window_empty (i * bits) bits) (omega arith));
  blank = λ i k. window_empty (i * bits) bits;
}

sub_zero : (n : ℕ) → n - 0 ≡ n
sub_zero n = omega arith

pub replicate-IsPacked :
    (bits len : ℕ) (updates : List StatusEntry)
    → 1 ≤ bits
    → bits ≤ 32
    → IsLength bits updates len
    → IsPacked bits (replicate len 0)
replicate-IsPacked bits len updates p q l =
    rw sub_zero at (resize-IsPacked [] bits len updates (nil-IsPacked bits p q) l (omega arith))

pub slot-zeros : (len bits i : ℕ) → slot (replicate len 0) bits i ≡ 0
unfolding slot
slot-zeros len bits i =
    window-ext (replicate len 0) [] (i * bits) bits (λ k. get_or-replicate len k 0)
    ∙ window_empty (i * bits) bits

-- The numbers of a request stand for statuses.
IsCode-code : (s : Status) → status_value s ≡ ok (code s) → IsCode (code s)
unfolding status_value
IsCode-code valid h = inl (omega arith)
IsCode-code invalid h = inl (omega arith)
IsCode-code suspended h = inl (omega arith)
IsCode-code (application_specific v) h = elim (Bool-cases (leb 256 v)) [
  | inl big ↦ inr (leb→le 256 v big)
  | inr small ↦ absurd (err-ne-ok (rw small at h))
]

last_value-IsCode :
    (updates : List StatusEntry) (i old : ℕ)
    → All (λ u. status_value u.status ≡ ok (code u.status)) updates
    → IsCode old
    → IsCode (last_value updates i old)
last_value-IsCode [] i old h c = c
last_value-IsCode (u ∷ updates) i old (valued, h) c =
    last_value-IsCode updates i _ h
      (if_either IsCode (pos_part u.index == i) (IsCode-code u.status valued) c)

-- An entry that no update names keeps its value.
pub last_value-untouched :
    (updates : List StatusEntry) (i old : ℕ)
    → All (λ u. pos_part u.index ≢ i) updates
    → last_value updates i old ≡ old
last_value-untouched [] i old h = refl
last_value-untouched (u ∷ updates) i old (ne, h) =
    ground (arith, last_value-untouched updates i old h)

index_in_array : (j bits len i : ℕ) → 1 ≤ bits → j * bits + bits ≤ len → len / bits ≤ i → j ≢ i
index_in_array j bits len i p h k =
    let inside : suc j ≤ len / bits = (le-div_iff_mul-le p).1 (grind arith) in omega arith

-- Updates that fit keep a well-formed array so.
pub apply_updates-IsPacked :
    (bits : ℕ) (updates : List StatusEntry) (array : List ℕ)
    → IsPacked bits array
    → All (IsPlaced bits (length array)) updates
    → (after : List ℕ) × (apply_updates array updates bits ≡ ok after)
      × IsUpdated bits updates array after
      × IsPacked bits after
apply_updates-IsPacked bits updates array p placed =
    let (after, returns, u) =
      apply_updates-IsUpdated bits updates array p.some_bits p.word_bits p.bytes placed in
    (
      after,
      returns,
      u,
      record {
        some_bits = p.some_bits;
        word_bits = p.word_bits;
        bytes = u.bytes;
        aligned = rw u.same_length p.aligned;
        few = rw u.same_length p.few;
        coded = λ i. rw (u.entries i) (
            last_value-IsCode updates i (slot array bits i)
              (All-map (λ v q. q.coded) updates placed) (p.coded i));
        blank = λ i k.
            u.entries i
            ∙ last_value-untouched updates i (slot array bits i) (
                All-map
                  (λ v q.
                    index_in_array (pos_part v.index) bits (length array * 8) i p.some_bits q.room
                      (rw u.same_length at k))
                  updates placed)
            ∙ p.blank i (rw u.same_length at k);
      },
    )

-- The updates of a request fit, once the width and the length are chosen for them.
place_each :
    (bits len room : ℕ) (updates : List StatusEntry)
    → room ≤ len
    → All IsRequest updates
    → All (λ u. code u.status < 2 ^ bits) updates
    → All (λ u. pos_part u.index * bits + bits ≤ room * 8) updates
    → All (IsPlaced bits len) updates
place_each bits len room [] e r h l = tt
place_each bits len room (u ∷ updates) e (r, rs) (h, hs) (l, ls) = (
  record { natural = r.natural; coded = r.coded; narrow = h; room = omega arith },
  place_each bits len room updates e rs hs ls,
)

pub place :
    (bits len room : ℕ) (updates : List StatusEntry)
    → All IsRequest updates
    → All (λ u. code u.status < 2 ^ bits) updates
    → IsLength bits updates room
    → room ≤ len
    → All (IsPlaced bits len) updates
place bits len room updates r h l e = place_each bits len room updates e r h l.room
