-- ===== src/Domain/Bitpack/Width/Bounds.antt =====
-- The chosen width holds every status, is the least that does beyond a byte, and the length of
-- the array holds every index.
use status_list_server.Base.{
  ℕ, ◌+◌, ◌^◌, max, ◌<◌, ◌≤◌, List, [], ◌∷◌, Option, none, some, ◌≡◌, refl, arith, ok, pos_part,
  is_negative, false,
}
use native.Mathlib.Nat.{pow-le-pow_right, le_trans}
use status_list_server.Domain.Model.{StatusEntry}
use status_list_server.Domain.Bitpack.Width.{
  status_value, status_values, max_from, maximum, at_least, determine_bits,
}
use status_list_server.Domain.Bitpack.Write.Updates.{code, All}
use status_list_server.Domain.Bitpack.Width.Powers.{required_bits-IsWidth}

-- The updates of a request: natural `i32` indices and statuses that have a `u32` number.
pub record IsRequest (update : StatusEntry) : Type 0 where
  pub natural : is_negative update.index ≡ false
  pub index_bound : pos_part update.index < 2 ^ 31
  pub coded : status_value update.status ≡ ok (code update.status)
  pub value_bound : code update.status < 2 ^ 32

-- Every number of the list is at most `m`, and `m` is one of them.
max_from-le : (m : ℕ) (xs : List ℕ) → m ≤ max_from m xs
unfolding max_from
max_from-le m [] = omega arith
max_from-le m (x ∷ xs) = omega (arith, max_from-le (max m x) xs)

codes : List StatusEntry → List ℕ
codes [] = []
codes (update ∷ updates) = code update.status ∷ codes updates

status_values-eq :
    (updates : List StatusEntry)
    → All IsRequest updates
    → status_values updates ≡ ok (codes updates)
unfolding status_values codes
status_values-eq [] h = refl
status_values-eq (update ∷ updates) (r, h) = rw (r.coded, status_values-eq updates h) refl

max_from-lt :
    (m b : ℕ) (updates : List StatusEntry)
    → m < b
    → All (λ u. code u.status < b) updates
    → max_from m (codes updates) < b
unfolding max_from codes
max_from-lt m b [] h a = h
max_from-lt m b (update ∷ updates) h (l, a) =
    max_from-lt (max m (code update.status)) b updates (omega arith) a

pub All-map {ℓ κ μ} :
    {A : Type ℓ} {P : A → Type κ} {Q : A → Type μ}
    → ((a : A) → P a → Q a)
    → (xs : List A) → All P xs
    → All Q xs
All-map f [] h = tt
All-map f (x ∷ xs) (p, h) = (f x p, All-map f xs h)

codes-lt :
    (m b : ℕ) (updates : List StatusEntry)
    → max_from m (codes updates) < b
    → All (λ u. code u.status < b) updates
unfolding max_from codes
codes-lt m b [] h = tt
codes-lt m b (update ∷ updates) h = (
  omega (arith, max_from-le (max m (code update.status)) (codes updates)),
  codes-lt (max m (code update.status)) b updates h,
)

-- The width of a batch: it holds every status of the batch, and is no less than the original.
pub record IsBatchWidth (updates : List StatusEntry) (old w : ℕ) : Type 0 where
  pub holds : All (λ u. code u.status < 2 ^ w) updates
  pub grows : old ≤ w
  pub some_bits : 1 ≤ w
  pub word_bits : w ≤ 32

widen :
    (w v : ℕ) (updates : List StatusEntry)
    → w ≤ v
    → All (λ u. code u.status < 2 ^ w) updates
    → All (λ u. code u.status < 2 ^ v) updates
widen w v updates h = All-map (λ u l. le_trans l (pow-le-pow_right (omega arith) h)) updates

abbrev pub original_width : Option ℕ → ℕ
original_width none = 0
original_width (some old) = old

at_least-bounds :
    (o : Option ℕ) (w : ℕ)
    → (w ≤ at_least o w) × (original_width o ≤ at_least o w) × (at_least o w ≤ w + original_width o)
at_least-bounds none w = omega arith
at_least-bounds (some old) w = omega arith

at_least-le : (o : Option ℕ) (w b : ℕ) → original_width o ≤ b → w ≤ b → at_least o w ≤ b
at_least-le none w b p q = omega arith
at_least-le (some old) w b p q = omega arith

pub determine_bits-IsBatchWidth :
    (update : StatusEntry) (updates : List StatusEntry) (original : Option ℕ)
    → All IsRequest (update ∷ updates)
    → original_width original ≤ 32
    → (w : ℕ) × (determine_bits (update ∷ updates) original ≡ ok w)
      × IsBatchWidth (update ∷ updates) (original_width original) w
unfolding determine_bits maximum codes
determine_bits-IsBatchWidth update updates original (r, rs) small =
    let m : ℕ = max_from (code update.status) (codes updates) in
    let below : m < 2 ^ 32 =
      max_from-lt (code update.status) (2 ^ 32) updates r.value_bound
        (All-map (λ u q. q.value_bound) updates rs) in
    let (w, found, width) = required_bits-IsWidth m below in
    let bounds = at_least-bounds original w in
    (
      at_least original w,
      rw (status_values-eq (update ∷ updates) (r, rs), found) refl,
      record {
        holds = widen w (at_least original w) (update ∷ updates) bounds.0 (
          omega (arith, max_from-le (code update.status) (codes updates), width.holds),
          codes-lt (code update.status) (2 ^ w) updates width.holds,
        );
        grows = bounds.1;
        some_bits = omega (arith, width.some_bits);
        word_bits = at_least-le original w 32 small width.word_bits;
      },
    )
