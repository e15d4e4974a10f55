-- ===== src/Server/Request.antt =====
-- The entries of a request, src/server/handlers/status_list/utils/request.rs.
use Prim.Native.String as Str
use mathlib.Core.Path.{subst}
use status_list_server.Base.{
  pos, Bool-cases, inl, inr, ok-injective, err-ne-ok, ℕ, zero, suc, ◌+◌, ◌^◌, ◌<◌, ℤ, String, leb,
  if◌then◌else◌, Outcome, ok, err, ◌≡◌, refl, arith, show_ℕ,
}
use status_list_server.Domain.Model as Model
use status_list_server.Domain.Bitpack.Width.{status_value}
use status_list_server.Domain.Bitpack.Width.Bounds.{IsRequest}
use status_list_server.Domain.Bitpack.Write.Updates.{code}

pub data RequestStatus : Type 0 where
  valid invalid suspended : RequestStatus
  application_specific : ℕ → RequestStatus

pub record RequestEntry : Type 0 where
  pub index : ℤ
  pub status : RequestStatus

unfoldable pub serialize : RequestStatus → ℕ
serialize valid = 0
serialize invalid = 1
serialize suspended = 2
serialize (application_specific v) = v

-- From a `u32`; an error is its text.
unfoldable pub deserialize : ℕ → Outcome String RequestStatus
deserialize zero = ok valid
deserialize (suc zero) = ok invalid
deserialize (suc (suc zero)) = ok suspended
deserialize (suc (suc (suc n))) =
    if leb 256 (n + 3)
    then ok (application_specific (n + 3))
    else err (
        Str.◌++◌ "status value "
          (Str.◌++◌ (show_ℕ (n + 3)) " is reserved (only 0, 1, 2, or >= 256 allowed)"))

abbrev pub domain_status : RequestStatus → Model.Status
domain_status valid = Model.valid
domain_status invalid = Model.invalid
domain_status suspended = Model.suspended
domain_status (application_specific value) = Model.application_specific value

-- `From<StatusEntry>` for the entry of the domain.
unfoldable pub into_entry : RequestEntry → Model.StatusEntry
into_entry entry = record { index = entry.index; status = domain_status entry.status }

-- The status is written back as `v`, and the domain packs it as `v`.
abbrev Stands : ℕ → RequestStatus → Type 0
Stands v s =
    (serialize s ≡ v)
    × (status_value (domain_status s) ≡ ok (code (domain_status s)))
    × (code (domain_status s) ≡ v)

deserialize-Stands : (v : ℕ) (s : RequestStatus) → deserialize v ≡ ok s → Stands v s
unfolding deserialize serialize status_value
deserialize-Stands zero s h = subst (Stands 0) (ok-injective h) (refl, refl, refl)
deserialize-Stands (suc zero) s h = subst (Stands 1) (ok-injective h) (refl, refl, refl)
deserialize-Stands (suc (suc zero)) s h = subst (Stands 2) (ok-injective h) (refl, refl, refl)
deserialize-Stands (suc (suc (suc n))) s h = elim (Bool-cases (leb 256 (n + 3))) [
  | inl large ↦
      subst (Stands (suc (suc (suc n)))) (ok-injective (rw large at h))
        (omega arith, rw large refl, omega arith)
  | inr reserved ↦ absurd (err-ne-ok (rw reserved at h))
]

-- A status that the server parses from a number is written back as that number.
pub deserialize-serialize : (v : ℕ) (s : RequestStatus) → deserialize v ≡ ok s → serialize s ≡ v
deserialize-serialize v s h = (deserialize-Stands v s h).0

-- An entry of a request with an index below 2^31 and a 32-bit status that the server parses
-- becomes an entry that meets the conditions of the theorems on `create` and `update`, and stands
-- for the number that was sent.
pub into_entry-IsRequest :
    (i v : ℕ) (s : RequestStatus)
    → i < 2 ^ 31
    → v < 2 ^ 32
    → deserialize v ≡ ok s
    → IsRequest (into_entry (record { index = pos i; status = s })) × (code (domain_status s) ≡ v)
unfolding into_entry
into_entry-IsRequest i v s index_bound value_bound h =
    let (written, coded, same) = deserialize-Stands v s h in
    (
      record {
        natural = refl;
        index_bound = index_bound;
        coded = coded;
        value_bound = omega arith;
      },
      same,
    )
