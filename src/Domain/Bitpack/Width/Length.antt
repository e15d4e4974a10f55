-- ===== src/Domain/Bitpack/Width/Length.antt =====
-- The length of the array holds every index of the batch, with less than a byte to spare.
use status_list_server.Base.{
  ℕ, ℤ, pos, negsuc, ◌+◌, ◌-◌, ◌*◌, ◌/◌, ◌%◌, ◌^◌, ◌<◌, ◌≤◌, List, [], ◌∷◌, ◌≡◌, ap, ◌∙◌, refl,
  arith, ok, pos_part, is_negative, max_ℤ, false, is_empty,
}
use native.Mathlib.Nat.{
  mul-add-mod_self_right, mod-le, div-le_of_le-mul, mul-le-mul_right, mul_comm,
}
use status_list_server.Domain.Model.{StatusEntry}
use status_list_server.Domain.Bitpack.Width.{max_index_from, pred_usize, calculate_array_size}
use status_list_server.Domain.Bitpack.Width.Bounds.{IsRequest, All-map}
use status_list_server.Domain.Bitpack.Write.Updates.{All}

-- The largest index, which is natural if all are.
record IsMaxIndex (m : ℤ) (updates : List StatusEntry) (top : ℤ) : Type 0 where
  natural : is_negative top ≡ false
  first : pos_part m ≤ pos_part top
  bound : pos_part top < 2 ^ 31
  each : All (λ u. pos_part u.index ≤ pos_part top) updates

max_ℤ-natural :
    (a b : ℤ)
    → is_negative a ≡ false
    → is_negative b ≡ false
    → (is_negative (max_ℤ a b) ≡ false)
      × (pos_part a ≤ pos_part (max_ℤ a b))
      × (pos_part b ≤ pos_part (max_ℤ a b))
max_ℤ-natural (pos a) (pos b) p q = ground arith
max_ℤ-natural (pos a) (negsuc b) p q = cc
max_ℤ-natural (negsuc a) b p q = cc

max_ℤ-lt : (a b : ℤ) (n : ℕ) → pos_part a < n → pos_part b < n → pos_part (max_ℤ a b) < n
max_ℤ-lt a b n p q = ground arith

max_index_from-IsMaxIndex :
    (m : ℤ) (updates : List StatusEntry)
    → is_negative m ≡ false
    → pos_part m < 2 ^ 31
    → All IsRequest updates
    → IsMaxIndex m updates (max_index_from m updates)
unfolding max_index_from
max_index_from-IsMaxIndex m [] p b h = record {
  natural = p;
  first = omega arith;
  bound = b;
  each = tt;
}
max_index_from-IsMaxIndex m (update ∷ updates) p b (r, h) =
    let (natural, left, right) = max_ℤ-natural m update.index p r.natural in
    let rest =
      max_index_from-IsMaxIndex (max_ℤ m update.index) updates natural
        (max_ℤ-lt m update.index (2 ^ 31) b r.index_bound) h in
    record {
      natural = rest.natural;
      first = omega (arith, rest.first);
      bound = rest.bound;
      each = (omega (arith, rest.first), rest.each);
    }

-- The array holds the entries of the batch and at most seven bits more, and its entries can be
-- numbered by an `i32`.
pub record IsLength (bits : ℕ) (updates : List StatusEntry) (len : ℕ) : Type 0 where
  pub room : All (λ u. pos_part u.index * bits + bits ≤ len * 8) updates
  pub aligned : len * 8 % bits < 8
  pub few : len * 8 / bits ≤ 2 ^ 31

entry_end-le : (i j bits : ℕ) → i ≤ j → i * bits + bits ≤ j * bits + bits
entry_end-le i j bits h = grind arith

-- The arithmetic of the length, from the bit behind the last entry.
array_len :
    (top bits : ℕ) → 1 ≤ bits → pred_usize (top * bits + bits) / 8 + 1 ≡ ((top + 1) * bits + 7) / 8
array_len top bits h = ground arith

aligned_len : (e bits : ℕ) → 1 ≤ bits → (e * bits + 7) / 8 * 8 % bits < 8
aligned_len e bits h =
    let x : ℕ = (e * bits + 7) / 8 * 8 in
    let spare : ℕ = x - e * bits in
    let split : x ≡ e * bits + spare = omega arith in
    let same : x % bits ≡ spare % bits =
      ap (λ (n : ℕ). n % bits) split ∙ mul-add-mod_self_right e bits spare in
    omega (arith, mod-le spare bits)

few_len : (e bits : ℕ) → 1 ≤ bits → e ≤ 2 ^ 31 → (e * bits + 7) / 8 * 8 / bits ≤ 2 ^ 31
few_len e bits h l =
    div-le_of_le-mul bits (omega (arith, mul-le-mul_right bits l, mul_comm bits (2 ^ 31)))

-- Every index that is at most the largest fits.
room_len :
    (top bits : ℕ) (updates : List StatusEntry)
    → All (λ u. pos_part u.index ≤ top) updates
    → All (λ u. pos_part u.index * bits + bits ≤ ((top + 1) * bits + 7) / 8 * 8) updates
room_len top bits updates = All-map (λ u h. omega (arith, mul-le-mul_right bits h)) updates

-- For a non-empty batch of requests and a width of at least one bit, the array's length is found;
-- it has room for every entry of the batch, its bits leave less than a byte after the last whole
-- entry, and its entries can be numbered by an `i32`.
pub calculate_array_size-IsLength :
    (update : StatusEntry) (updates : List StatusEntry) (bits : ℕ)
    → All IsRequest (update ∷ updates)
    → 1 ≤ bits
    → (len : ℕ) × (calculate_array_size (update ∷ updates) bits ≡ ok len)
      × IsLength bits (update ∷ updates) len
unfolding calculate_array_size
calculate_array_size-IsLength update updates bits (r, rs) positive =
    let m = max_index_from-IsMaxIndex update.index updates r.natural r.index_bound rs in
    let top : ℕ = pos_part (max_index_from update.index updates) in
    let shape : pred_usize (top * bits + bits) / 8 + 1 ≡ ((top + 1) * bits + 7) / 8 =
      array_len top bits positive in
    (
      ((top + 1) * bits + 7) / 8,
      rw (m.natural, shape) refl,
      record {
        room = room_len top bits (update ∷ updates) (m.first, m.each);
        aligned = aligned_len (top + 1) bits positive;
        few = few_len (top + 1) bits positive (omega (arith, m.bound));
      },
    )

pub calculate_array_size-eq :
    (updates : List StatusEntry) (bits : ℕ)
    → is_empty updates ≡ false
    → All IsRequest updates
    → 1 ≤ bits
    → (len : ℕ) × (calculate_array_size updates bits ≡ ok len) × IsLength bits updates len
calculate_array_size-eq [] bits e h p = cc
calculate_array_size-eq (update ∷ updates) bits e h p =
    calculate_array_size-IsLength update updates bits h p
