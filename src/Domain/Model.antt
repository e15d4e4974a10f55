-- ===== src/Domain/Model.antt =====
-- src/domain/models: the data of the domain.
use Prim.Native.String as Str
use status_list_server.Base.{
  ℕ, ℤ, String, Bool, Outcome, List, ok, err, map_err, ◌>>=◌, if◌then◌else◌, show_ℕ, show_ℤ,
}

-- `Backend` holds a boxed error, of which only its text is ever read; a static string is the code
-- of a contention.
pub data StatusListError : Type 0 where
  invalid_index : StatusListError
  invalid_status_list : String → StatusListError
  corrupt_stored_list : String → StatusListError
  already_exists not_found historical_not_found invalid_historical_time : StatusListError
  issuer_mismatch too_large : StatusListError
  too_many_statuses : (count max : ℕ) → StatusListError
  index_too_large : (index max : ℤ) → StatusListError
  conflict : StatusListError
  contention : (code : String) → StatusListError
  unavailable : StatusListError
  backend : String → StatusListError

-- `Display`.
abbrev pub show_error : StatusListError → String
show_error invalid_index = "invalid status list index"
show_error (invalid_status_list msg) = msg
show_error (corrupt_stored_list msg) = Str.◌++◌ "corrupt stored status list: " msg
show_error StatusListError.already_exists = "status list already exists"
show_error not_found = "status list was not found"
show_error historical_not_found = "historical status list token not found"
show_error invalid_historical_time = "invalid historical time"
show_error issuer_mismatch = "issuer does not own the status list"
show_error too_large = "serialized status list size exceeds configured maximum"
show_error (too_many_statuses count max) =
    Str.◌++◌ "too many statuses in request: "
      (Str.◌++◌ (show_ℕ count) (Str.◌++◌ " > " (show_ℕ max)))
show_error (index_too_large index max) =
    Str.◌++◌ "status index "
      (Str.◌++◌ (show_ℤ index) (Str.◌++◌ " exceeds configured maximum " (show_ℤ max)))
show_error conflict = "the status list was modified concurrently"
show_error (StatusListError.contention code) =
    Str.◌++◌ "the write lost a lock race (" (Str.◌++◌ code ") and can be retried unchanged")
show_error unavailable = "the service is currently unavailable. Please try again later"
show_error (StatusListError.backend e) = Str.◌++◌ "storage error: " e

abbrev pub Result : Type 0 → Type 0
Result A = Outcome StatusListError A

pub data Status : Type 0 where
  valid invalid suspended : Status
  application_specific : ℕ → Status

pub record StatusEntry : Type 0 where
  pub index : ℤ
  pub status : Status

pub record StatusList : Type 0 where
  pub bits : ℕ
  pub lst : String

pub record Issuer : Type 0 where
  pub name : String

pub record StatusListRecord : Type 0 where
  pub list_id : String
  pub issuer : Issuer
  pub status_list : StatusList
  pub sub : String
  pub updated_at : ℤ

pub record StatusListSnapshot : Type 0 where
  pub snapshot_id : String
  pub list_id : String
  pub issuer : Issuer
  pub status_list : StatusList
  pub sub : String
  pub iat : ℤ
  pub exp : ℤ

pub data CredentialError : Type 0 where
  invalid_public_jwk : String → CredentialError
  already_exists : CredentialError
  contention : (code : String) → CredentialError
  backend : String → CredentialError

pub record PublicJwk : Type 0 where
  pub bytes : List ℕ

pub record Credential : Type 0 where
  pub issuer : Issuer
  pub public_key : PublicJwk

-- `serde_json::from_slice` of the bytes: whether the value is an object, or the error's text.
unfoldable pub try_new : (List ℕ → Outcome String Bool) → List ℕ → Outcome CredentialError PublicJwk
try_new parse bytes = do
  is_object ← map_err (λ e. invalid_public_jwk (Str.◌++◌ "expected UTF-8 JSON: " e)) (parse bytes)
  if is_object
      then ok (record { bytes = bytes })
      else err (invalid_public_jwk "expected a JSON object")
