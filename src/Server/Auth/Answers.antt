-- ===== src/Server/Auth/Answers.antt =====
-- The answers to the errors of authentication, src/server/auth/errors.rs, and the extraction of the
-- principal of a request, src/server/auth/mod.rs.
use status_list_server.Base.{ℕ, String, Option, some, Outcome, ok, err, ok_or, map_err}
use status_list_server.Domain.Model.{Issuer}
use status_list_server.Server.Error.{ApiError}
use status_list_server.Server.Error as Error
use status_list_server.Server.Auth.{
  AuthenticationError, issuer_not_found, internal_server, invalid_authorization_header,
  invalid_claims, jwt_error, unsupported_algorithm,
}

abbrev pub get_status : AuthenticationError → ℕ
get_status internal_server = 500
get_status issuer_not_found = 401
get_status invalid_authorization_header = 401
get_status invalid_claims = 401
get_status (jwt_error e) = 401
get_status unsupported_algorithm = 401

abbrev pub get_error_code : AuthenticationError → String
get_error_code issuer_not_found = "issuer_not_found"
get_error_code internal_server = "internal_error"
get_error_code invalid_authorization_header = "invalid_auth_header"
get_error_code invalid_claims = "invalid_token"
get_error_code (jwt_error e) = "jwt_error"
get_error_code unsupported_algorithm = "unsupported_algorithm"

abbrev pub get_error_message : AuthenticationError → String
get_error_message issuer_not_found = "Issuer not registered"
get_error_message internal_server = "Internal server error"
get_error_message invalid_authorization_header = "Missing or invalid Authorization header"
get_error_message invalid_claims = "Invalid authentication token"
get_error_message (jwt_error e) = "Invalid authentication token"
get_error_message unsupported_algorithm = "Unsupported algorithm"

unfoldable pub auth_api_error : AuthenticationError → ApiError
auth_api_error e = Error.new (get_status e) (get_error_code e) (some (get_error_message e))

-- The extension that the middleware left, if it ran.
unfoldable pub from_request_parts : Option Issuer → Outcome ApiError Issuer
from_request_parts principal =
    ok_or principal
      (Error.new 401 "missing_auth_context" (some "Authenticated issuer context is missing"))

-- The seconds since the epoch, or the error of a clock that stands before it.
unfoldable pub current_unix_timestamp : Outcome String ℕ → Outcome AuthenticationError ℕ
current_unix_timestamp since_epoch = map_err (λ e. internal_server) since_epoch

-- The `auth` middleware: the error of a request that is not let in, or the answer of the handler
-- behind it to the principal. What a handler answers is a response already.
unfoldable pub guarded :
    {Answer : Type 0}
    → Outcome AuthenticationError Issuer
    → (ApiError → Answer)
    → (Issuer → Outcome Answer Answer)
    → Outcome Answer Answer
unfolding auth_api_error
guarded (ok principal) respond next = next principal
guarded (err e) respond next = err (respond (auth_api_error e))
guarded Outcome.panic respond next = Outcome.panic
