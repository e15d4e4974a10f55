-- ===== src/Domain/Service/Admission.antt =====
-- The limits that `publish_status_list` and `update_statuses` of src/domain/service.rs check first.
use status_list_server.Base.{
  ◌<ℤ◌, ◌<◌, ◌⊎◌, ℤ, Bool-cases, List, [], ◌∷◌, length, ◌≤◌, ltb, ltb_ℤ, ◌≤ℤ◌, Outcome, ok, err,
  ◌≡◌, refl, arith, inl, inr,
}
use status_list_server.Domain.Model.{
  StatusListError, StatusEntry, too_many_statuses, index_too_large,
}
use status_list_server.Domain.Bitpack.Write.Updates.{All}
use status_list_server.Domain.Service.{Limits, check_indices, check_statuses}

-- The answer names an entry over the bound, or there is none.
abbrev ChecksIndices : ℤ → List StatusEntry → Outcome StatusListError (Unit {0}) → Type 0
ChecksIndices bound statuses answer =
    ((answer ≡ ok tt) × All (λ e. e.index ≤ℤ bound) statuses)
    ⊎ ((i : ℤ) × (answer ≡ err (index_too_large i bound)) × (bound <ℤ i))

check_indices-cases :
    (bound : ℤ) (statuses : List StatusEntry)
    → ChecksIndices bound statuses (check_indices bound statuses)
unfolding check_indices
check_indices-cases bound [] = inl (refl, tt)
check_indices-cases bound (entry ∷ statuses) = elim (Bool-cases (ltb_ℤ bound entry.index)) [
  | inl over ↦ inr (entry.index, rw over refl, ground arith)
  | inr within ↦ elim (check_indices-cases bound statuses) [
    | inl h ↦ inl (rw within h.0, (ground arith, h.1))
    | inr h ↦ inr (h.0, rw within h.1, h.2)
  ]
]

-- The three answers of the check: the batch is within both limits, or it has too many entries and
-- the error says how many, or it has an index over the bound and the error names that index.
abbrev pub Checks : Limits → List StatusEntry → Outcome StatusListError (Unit {0}) → Type 0
Checks limits statuses answer =
    ((answer ≡ ok tt)
      × (length statuses ≤ limits.max_statuses_per_request)
      × All (λ e. e.index ≤ℤ limits.max_status_index) statuses)
    ⊎ ((answer ≡ err (too_many_statuses (length statuses) limits.max_statuses_per_request))
        × (limits.max_statuses_per_request < length statuses))
    ⊎ ((i : ℤ) × (answer ≡ err (index_too_large i limits.max_status_index))
        × (limits.max_status_index <ℤ i))

-- The check of a batch answers `Ok` when it has no more entries than allowed and no index over
-- the bound; otherwise an error that tells the number of entries that is over the limit, or names
-- an index that is over the bound.
pub check_statuses-Checks :
    (limits : Limits) (statuses : List StatusEntry)
    → Checks limits statuses (check_statuses limits statuses)
unfolding check_statuses
check_statuses-Checks limits statuses =
    elim (Bool-cases (ltb limits.max_statuses_per_request (length statuses))) [
      | inl many ↦ inr (inl (rw many refl, ground arith))
      | inr few ↦ elim (check_indices-cases limits.max_status_index statuses) [
        | inl h ↦ inl (rw few h.0, ground arith, h.1)
        | inr h ↦ inr (inr (h.0, rw few h.1, h.2))
      ]
    ]
