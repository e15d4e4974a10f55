-- ===== src/Outbound/Memory/Snapshots/Laws.antt =====
-- `find_valid_at` of src/outbound/memory.rs against its description, for any order of the map.
use status_list_server.Base.{
  Bool, true, false, Option, none, some, List, [], ◌∷◌, if◌then◌else◌, Bool-cases, ◌≡◌, inl, inr,
  ◌⊎◌, leb_ℤ, ◌≤ℤ◌,
}
use status_list_server.Base.Dict
use status_list_server.Domain.Model.{StatusListSnapshot}
use status_list_server.Domain.Bitpack.Write.Updates.{All}
use status_list_server.Outbound.Memory.Snapshots.{keep}

abbrev pub In : StatusListSnapshot → List StatusListSnapshot → Type 0
In x [] = ⊥
In x (y ∷ ys) = (y ≡ x) ⊎ In x ys

-- The answer is one of the snapshots that pass the test, with none later; or none passes.
abbrev pub IsLatest :
    (StatusListSnapshot → Bool) → List StatusListSnapshot → Option StatusListSnapshot → Type 0
IsLatest p xs none = All (λ x. p x ≡ false) xs
IsLatest p xs (some best) =
    In best xs × (p best ≡ true) × All (λ x. p x ≡ true → x.iat ≤ℤ best.iat) xs

keep-All :
    (p : StatusListSnapshot → Bool) (xs : List StatusListSnapshot)
    → All (λ x. p x ≡ true) (keep p xs)
unfolding keep
keep-All p [] = tt
keep-All p (x ∷ xs) = elim (Bool-cases (p x)) [
  | inl h ↦ rw h (h, keep-All p xs)
  | inr h ↦ rw h (keep-All p xs)
]

abbrev later : StatusListSnapshot → StatusListSnapshot → StatusListSnapshot
later best x = if leb_ℤ best.iat x.iat then x else best
