-- ===== src/Domain/StatusList/Enumerate.antt =====
-- The old statuses as updates, in `StatusList::update` of src/domain/models/status_list.rs.
use status_list_server.Base.{
  ℕ, zero, suc, ◌+◌, ◌^◌, ◌<◌, ◌≤◌, List, [], ◌∷◌, ◌++◌, length, get_or, get_or-beyond, map, ◌≡◌,
  ◌≢◌, ap, ◌∙◌, sym, refl, arith, ok, pos, pos_part, is_negative, false, is_empty, wrap_signed,
}
use native.Mathlib.Decide.{dec_lt}
use native.Mathlib.Nat.{le_trans, pow-le-pow_right}
use status_list_server.Domain.Model.{Status, StatusEntry}
use status_list_server.Domain.StatusList.{enumerate_from}
use status_list_server.Domain.StatusList.Packed.{last_value-untouched}
use status_list_server.Domain.Bitpack.Width.{status_value}
use status_list_server.Domain.Bitpack.Width.Bounds.{IsRequest}
use status_list_server.Domain.Bitpack.Write.Updates.{code, All, last_value}

pub All-append {ℓ κ} :
    {A : Type ℓ} (P : A → Type κ) (xs ys : List A) → All P xs → All P ys → All P (xs ++ ys)
All-append P [] ys h k = k
All-append P (x ∷ xs) ys (p, h) k = (p, All-append P xs ys h k)

pub last_value-append :
    (xs ys : List StatusEntry) (i old : ℕ)
    → last_value (xs ++ ys) i old ≡ last_value ys i (last_value xs i old)
last_value-append [] ys i old = refl
last_value-append (x ∷ xs) ys i old = last_value-append xs ys i _

pub append-nonempty {ℓ} :
    {A : Type ℓ} (xs ys : List A) → is_empty ys ≡ false → is_empty (xs ++ ys) ≡ false
append-nonempty [] ys h = h
append-nonempty (x ∷ xs) ys h = refl

wrap_signed-eq : (i : ℕ) → i < 2 ^ 31 → wrap_signed 32 i ≡ pos i
wrap_signed-eq i h = ground arith

-- The entries from index `i` on are requests, below the `i32` bound.
pub enumerate_from-IsRequest :
    (i bits : ℕ) (statuses : List Status)
    → i + length statuses ≤ 2 ^ 31
    → bits ≤ 32
    → All (λ s. status_value s ≡ ok (code s)) statuses
    → ((j : ℕ) → j < length statuses → get_or (map code statuses) j 0 < 2 ^ bits)
    → All IsRequest (enumerate_from i statuses)
      × All (λ u. code u.status < 2 ^ bits) (enumerate_from i statuses)
unfolding enumerate_from
enumerate_from-IsRequest i bits [] h w c b = (tt, tt)
enumerate_from-IsRequest i bits (s ∷ statuses) h w (valued, c) b =
    let natural = wrap_signed-eq i (omega arith) in
    let (rest, small) =
      enumerate_from-IsRequest (suc i) bits statuses (omega arith) w c
        (λ j k. b (suc j) (omega arith)) in
    let first : code s < 2 ^ bits = b 0 (omega arith) in
    (
      (
        record {
          natural = ap is_negative natural;
          index_bound = omega (arith, ap pos_part natural);
          coded = valued;
          value_bound = le_trans first (pow-le-pow_right (omega arith) w);
        },
        rest,
      ),
      (first, small),
    )

enumerate_from-apart :
    (i j : ℕ) (statuses : List Status)
    → j < i
    → i + length statuses ≤ 2 ^ 31
    → All (λ u. pos_part u.index ≢ j) (enumerate_from i statuses)
unfolding enumerate_from
enumerate_from-apart i j [] h k = tt
enumerate_from-apart i j (s ∷ statuses) h k = (
  omega (arith, ap pos_part (wrap_signed-eq i (omega arith))),
  enumerate_from-apart (suc i) j statuses (omega arith) (omega arith),
)

enumerate_from-beyond :
    (i j : ℕ) (statuses : List Status)
    → i + length statuses ≤ j
    → i + length statuses ≤ 2 ^ 31
    → All (λ u. pos_part u.index ≢ j) (enumerate_from i statuses)
unfolding enumerate_from
enumerate_from-beyond i j [] h k = tt
enumerate_from-beyond i j (s ∷ statuses) h k = (
  omega (arith, ap pos_part (wrap_signed-eq i (omega arith))),
  enumerate_from-beyond (suc i) j statuses (omega arith) (omega arith),
)

-- As updates they give each index its old status.
enumerate_from-inside :
    (i j n old : ℕ) (statuses : List Status)
    → n ≡ i + j
    → j < length statuses
    → i + length statuses ≤ 2 ^ 31
    → last_value (enumerate_from i statuses) n old ≡ get_or (map code statuses) j 0
unfolding enumerate_from
enumerate_from-inside i j n old [] e h k = absurd (omega arith)
enumerate_from-inside i zero n old (s ∷ statuses) e h k =
    last_value-untouched (enumerate_from (suc i) statuses) n _
      (enumerate_from-apart (suc i) n statuses (omega arith) (omega arith))
    ∙ ground (arith, ap pos_part (wrap_signed-eq i (omega arith)))
enumerate_from-inside i (suc j) n old (s ∷ statuses) e h k =
    enumerate_from-inside (suc i) j n _ statuses (omega arith) (omega arith) (omega arith)

pub length-map : (statuses : List Status) → length (map code statuses) ≡ length statuses
length-map [] = refl
length-map (s ∷ statuses) = ap suc (length-map statuses)

pub last_value-enumerate :
    (j : ℕ) (statuses : List Status)
    → length statuses ≤ 2 ^ 31
    → last_value (enumerate_from 0 statuses) j 0 ≡ get_or (map code statuses) j 0
last_value-enumerate j statuses h = elim (dec_lt j (length statuses)) [
  | yes k ↦ enumerate_from-inside 0 j j 0 statuses (omega arith) k (omega arith)
  | no k ↦
      last_value-untouched (enumerate_from 0 statuses) j 0
        (enumerate_from-beyond 0 j statuses (omega arith) (omega arith))
      ∙ sym (get_or-beyond (map code statuses) j 0 (omega (arith, length-map statuses)))
]
