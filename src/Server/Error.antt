-- ===== src/Server/Error.antt =====
-- src/server/error.rs: the answers to the errors of the domain. The metric of a contention is not
-- modelled.
use status_list_server.Base.{
  ℕ, String, Option, none, some, List, [], ◌∷◌, ◌≡◌, refl, show_ℕ, show_ℤ, arith,
}
use Prim.Native.String as Str
use status_list_server.Domain.Model.{
  StatusListError, invalid_index, invalid_status_list, corrupt_stored_list, not_found,
  historical_not_found, invalid_historical_time, issuer_mismatch, too_large, too_many_statuses,
  index_too_large, conflict, unavailable, CredentialError, invalid_public_jwk,
}

-- `StatusCode` as its number.
pub record ApiError : Type 0 where
  pub status : ℕ
  pub error : String
  pub error_description : Option String
  pub retry_after_secs : Option ℕ

abbrev pub new : ℕ → String → Option String → ApiError
new status error description = record {
  status = status;
  error = error;
  error_description = description;
  retry_after_secs = none;
}

abbrev pub bad_request : String → String → ApiError
bad_request error description = new 400 error (some description)

abbrev pub resource_not_found : String → String → ApiError
resource_not_found error description = new 404 error (some description)

abbrev pub in_conflict : String → String → ApiError
in_conflict error description = new 409 error (some description)

abbrev pub forbidden : String → String → ApiError
forbidden error description = new 403 error (some description)

abbrev pub unprocessable : String → String → ApiError
unprocessable error description = new 422 error (some description)

abbrev pub write_contention : ApiError
write_contention =
    record (new 409 "write_contention" (
      some
        "The write lost a lock race in storage and was rolled back. Nothing was modified; retry the same request.")) {
          retry_after_secs = some 1;
        }

-- `ErrorResponse`, and the response with its headers. What is logged is left out.
pub record ErrorResponse : Type 0 where
  pub status : ℕ
  pub headers : List (String × String)
  pub error : String
  pub error_description : Option String

abbrev retry_after : Option ℕ → List (String × String)
retry_after none = []
retry_after (some secs) = ("retry-after", show_ℕ secs) ∷ []

unfoldable pub into_response : ApiError → ErrorResponse
into_response self = record {
  status = self.status;
  headers = ("cache-control", "no-store, max-age=0") ∷ retry_after self.retry_after_secs;
  error = self.error;
  error_description = self.error_description;
}

-- The source's text goes to the log only.
abbrev pub internal : String → ApiError
internal source = new 500 "internal_error" (some "The server encountered an unexpected error.")

unfoldable pub into_api_error : StatusListError → ApiError
into_api_error invalid_index = bad_request "invalid_index" "Invalid status list index"
into_api_error (invalid_status_list msg) = bad_request "invalid_input" msg
into_api_error (corrupt_stored_list msg) = internal msg
into_api_error StatusListError.already_exists =
    in_conflict "status_list_already_exists" "Status list already exists"
into_api_error not_found = resource_not_found "status_list_not_found" "Status list was not found"
into_api_error historical_not_found =
    resource_not_found "historical_status_list_not_found" "Historical status list token not found"
into_api_error invalid_historical_time =
    bad_request "invalid_historical_time" "Invalid historical query time"
into_api_error issuer_mismatch = forbidden "issuer_mismatch" "Issuer does not own the status list"
into_api_error too_large =
    unprocessable "status_too_large" "Serialized status list size exceeds configured maximum"
into_api_error (too_many_statuses count max) = bad_request "too_many_statuses" (
    Str.◌++◌ "too many statuses in request: "
      (Str.◌++◌ (show_ℕ count) (Str.◌++◌ " > " (show_ℕ max))))
into_api_error (index_too_large index max) = bad_request "index_too_large" (
    Str.◌++◌ "status index "
      (Str.◌++◌ (show_ℤ index) (Str.◌++◌ " exceeds configured maximum " (show_ℤ max))))
into_api_error conflict = in_conflict "update_conflict" "The status list was modified concurrently"
into_api_error (StatusListError.contention code) = write_contention
into_api_error unavailable =
    new 503 "service_unavailable"
      (some "the service is currently unavailable. Please try again later")
into_api_error (StatusListError.backend err) = internal err

unfoldable pub credential_api_error : CredentialError → ApiError
credential_api_error (invalid_public_jwk msg) = bad_request "invalid_public_jwk" msg
credential_api_error CredentialError.already_exists =
    in_conflict "credentials_already_exist" "Credentials already exist for this issuer"
credential_api_error (CredentialError.contention code) = write_contention
credential_api_error (CredentialError.backend err) = internal err

internal_text :
    (e : StatusListError) (text : String)
    → (into_api_error e).status ≡ 500
    → into_api_error e ≡ internal text
unfolding into_api_error
internal_text (corrupt_stored_list msg) text h = refl
internal_text (StatusListError.backend err) text h = refl
internal_text invalid_index text h = absurd (omega arith)
internal_text (invalid_status_list msg) text h = absurd (omega arith)
internal_text StatusListError.already_exists text h = absurd (omega arith)
internal_text not_found text h = absurd (omega arith)
internal_text historical_not_found text h = absurd (omega arith)
internal_text invalid_historical_time text h = absurd (omega arith)
internal_text issuer_mismatch text h = absurd (omega arith)
internal_text too_large text h = absurd (omega arith)
internal_text (too_many_statuses count max) text h = absurd (omega arith)
internal_text (index_too_large index max) text h = absurd (omega arith)
internal_text conflict text h = absurd (omega arith)
internal_text (StatusListError.contention code) text h = absurd (omega arith)
internal_text unavailable text h = absurd (omega arith)

-- Any two errors of the domain that are answered with status 500 get the very same answer, so the
-- text of a failure inside does not reach the client.
pub into_api_error-no_leak :
    (a b : StatusListError)
    → (into_api_error a).status ≡ 500
    → (into_api_error b).status ≡ 500
    → into_api_error a ≡ into_api_error b
into_api_error-no_leak a b h k = cc (internal_text a "" h, internal_text b "" k)
