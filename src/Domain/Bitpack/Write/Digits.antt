-- ===== src/Domain/Bitpack/Write/Digits.antt =====
-- The array as a row of bits, and what one change of a byte does to it.
use status_list_server.Base.{
  ℕ, ◌/◌, ◌%◌, ◌^◌, ◌<◌, List, length, get_or, set, length-set, get_or-set_self, get_or-set_ne,
  get_or-beyond, ◌≡◌, ◌≢◌, ap, ◌∙◌, refl, arith, lt→ltb, ok,
}
use status_list_server.Base.Bits.{test_bit, same_bit}
use status_list_server.Domain.Bitpack.Write.{modify}

-- Bit `k` of the array, counted from the lowest bit of the first byte; 0 beyond its end.
abbrev pub bit_at : List ℕ → ℕ → ℕ
bit_at array k = test_bit (get_or array (k / 8) 0) (k % 8)

abbrev pub IsBytes : List ℕ → Type 0
IsBytes array = (i : ℕ) → get_or array i 0 < 2 ^ 8

pub modify-eq :
    (array : List ℕ) (i : ℕ) (f : ℕ → ℕ)
    → i < length array
    → modify array i f ≡ ok (set array i (f (get_or array i 0)))
unfolding modify
modify-eq array i f h = rw (lt→ltb i (length array) h)

pub bit_at-set_self :
    (array : List ℕ) (i k v : ℕ)
    → i < length array
    → k / 8 ≡ i
    → bit_at (set array i v) k ≡ test_bit v (k % 8)
bit_at-set_self array i k v h e =
    same_bit (get_or (set array i v) (k / 8) 0) v (k % 8) (k % 8)
      (ap (λ (j : ℕ). get_or (set array i v) j 0) e ∙ get_or-set_self array i v 0 h) refl

pub bit_at-set_ne :
    (array : List ℕ) (i k v : ℕ) → i ≢ k / 8 → bit_at (set array i v) k ≡ bit_at array k
bit_at-set_ne array i k v ne =
    ap (λ (b : ℕ). test_bit b (k % 8)) (get_or-set_ne array i (k / 8) v 0 ne)

pub set-IsBytes : (array : List ℕ) (i v : ℕ) → IsBytes array → v < 2 ^ 8 → IsBytes (set array i v)
set-IsBytes array i v h lt j = ground (
  arith,
  h j,
  get_or-set_self array i v 0,
  get_or-set_ne array i j v 0,
  get_or-beyond (set array i v) j 0,
  length-set array i v,
)
