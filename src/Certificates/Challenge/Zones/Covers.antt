-- ===== src/Certificates/Challenge/Zones/Covers.antt =====
-- When a zone of src/utils/cert_manager/challenge/dns01/mod.rs holds a domain.
use Prim.Native.Nat.{zero, suc}
use status_list_server.Base.{
  ℕ, ◌+◌, ◌-◌, ltb, lt→ltb, ◌==◌, eq_of_==, true, Bool-cases, List, [], ◌∷◌, ◌++◌, length,
  length-append, ◌≡◌, refl, ap, ap₂, ◌∙◌, ◌⊎◌, inl, inr, arith,
}
use status_list_server.Certificates.Challenge.Zones.{
  ZoneInfo, same_name, skip, byte_is, matches_zone,
}

-- The domain is the zone, or ends with a dot and the zone.
abbrev pub Covers : List ℕ → List ℕ → Type 0
Covers name lookup = (lookup ≡ name) ⊎ ((labels : List ℕ) × (lookup ≡ labels ++ (b'.' ∷ name)))

same_name-eq : (xs ys : List ℕ) → same_name xs ys ≡ true → xs ≡ ys
unfolding same_name
same_name-eq [] [] h = refl
same_name-eq [] (y ∷ ys) h = cc
same_name-eq (x ∷ xs) [] h = cc
same_name-eq (x ∷ xs) (y ∷ ys) h = elim (Bool-cases (x == y)) [
  | inl same ↦ ap₂ (λ a b. a ∷ b) (eq_of_== x y same) (same_name-eq xs ys (rw same at h))
  | inr other ↦ let bad = rw other at h in cc
]

same_name_refl : (xs : List ℕ) → same_name xs xs ≡ true
unfolding same_name
same_name_refl [] = refl
same_name_refl (x ∷ xs) = ground (arith, same_name_refl xs)

skip-append : (xs ys : List ℕ) → skip (length xs) (xs ++ ys) ≡ ys
unfolding skip
skip-append [] ys = refl
skip-append (x ∷ xs) ys = skip-append xs ys

skip-append_cons :
    (xs : List ℕ) (y : ℕ) (ys : List ℕ) → skip (suc (length xs)) (xs ++ (y ∷ ys)) ≡ ys
unfolding skip
skip-append_cons [] y ys = refl
skip-append_cons (x ∷ xs) y ys = skip-append_cons xs y ys

skip-split :
    (k : ℕ) (xs : List ℕ)
    → byte_is b'.' (skip k xs) ≡ true
    → (labels : List ℕ) × (xs ≡ labels ++ (b'.' ∷ skip (suc k) xs))
unfolding skip
skip-split zero [] h = cc
skip-split (suc k) [] h = cc
skip-split zero (x ∷ xs) h = ([], ap (λ b. b ∷ xs) (eq_of_== x b'.' h))
skip-split (suc k) (x ∷ xs) h =
    let (labels, split) = skip-split k xs h in (x ∷ labels, ap (λ rest. x ∷ rest) split)

pub Covers-of_match : (lookup name : List ℕ) → matches_zone lookup name ≡ true → Covers name lookup
unfolding matches_zone
Covers-of_match lookup name h = elim (Bool-cases (same_name lookup name)) [
  | inl same ↦ inl (same_name-eq lookup name same)
  | inr other ↦ elim (Bool-cases (ltb (length name) (length lookup))) [
    | inr short ↦ let bad = rw (other, short) at h in cc
    | inl long ↦
        let idx = length lookup - length name - 1 in
        elim (Bool-cases (byte_is b'.' (skip idx lookup))) [
          | inr undotted ↦ let bad = rw (other, long, undotted) at h in cc
          | inl dotted ↦
              let (labels, split) = skip-split idx lookup dotted in
              let same =
                same_name-eq (skip (suc idx) lookup) name (rw (other, long, dotted) at h) in
              inr (labels, split ∙ ap (λ rest. labels ++ (b'.' ∷ rest)) same)
        ]
  ]
]

dotted-match : (labels name : List ℕ) → matches_zone (labels ++ (b'.' ∷ name)) name ≡ true
unfolding matches_zone skip
dotted-match labels name =
    let lookup = labels ++ (b'.' ∷ name) in
    let size : length lookup ≡ length labels + suc (length name) =
      length-append labels (b'.' ∷ name) in
    let idx : length lookup - length name - 1 ≡ length labels = omega (arith, size) in
    elim (Bool-cases (same_name lookup name)) [
      | inl same ↦ rw same refl
      | inr other ↦
          rw
            (
              other,
              lt→ltb (length name) (length lookup) (omega (arith, size)),
              idx,
              skip-append labels (b'.' ∷ name),
              skip-append_cons labels b'.' name,
              same_name_refl name,
            )
            refl
    ]

pub match-of_Covers : (lookup name : List ℕ) → Covers name lookup → matches_zone lookup name ≡ true
unfolding matches_zone
match-of_Covers lookup name (inl same) =
    rw (ap (λ l. same_name l name) same ∙ same_name_refl name) refl
match-of_Covers lookup name (inr dotted) =
    ap (λ l. matches_zone l name) dotted.1 ∙ dotted-match dotted.0 name

unfoldable pub In : ZoneInfo → List ZoneInfo → Type 0
In z [] = ⊥
In z (y ∷ ys) = (z ≡ y) ⊎ In z ys
