-- ===== src/Server/Auth.antt =====
-- src/server/auth/mod.rs: the claims of a management token and the authentication of a request.
pub mod Policy
pub mod Guard
pub mod Answers
use status_list_server.Base.{
  ℕ, ◌+◌, ◌-◌, ◌^◌, min, leb, ltb, String, Bool, true, false, Option, none, some, if◌then◌else◌,
  Outcome, ok, err,
}

pub record ManagementClaims : Type 0 where
  pub iss : String
  pub iat : ℕ
  pub nbf : Option ℕ
  pub exp : ℕ

-- The text of an error of the token library is all that is kept of it.
pub data AuthenticationError : Type 0 where
  issuer_not_found internal_server invalid_authorization_header invalid_claims : AuthenticationError
  jwt_error : String → AuthenticationError
  unsupported_algorithm : AuthenticationError

-- `u64::saturating_add`.
abbrev pub saturating_add : ℕ → ℕ → ℕ
saturating_add a b = min (a + b) (2 ^ 64 - 1)

-- Whether a claim lies beyond the bound; an absent one does not.
abbrev pub is_beyond : ℕ → Option ℕ → Bool
is_beyond bound none = false
is_beyond bound (some time) = ltb bound time

-- The subtraction is checked, and the first test keeps it from failing.
unfoldable pub validate_policy :
    ManagementClaims → ℕ → ℕ → ℕ → Outcome AuthenticationError (Unit {0})
validate_policy claims now leeway_secs max_token_lifetime_secs =
    if leb claims.exp claims.iat
    then err invalid_claims
    else if ltb (saturating_add now leeway_secs) claims.iat
    then err invalid_claims
    else if is_beyond (saturating_add now leeway_secs) claims.nbf
    then err invalid_claims
    else if ltb claims.exp claims.iat
    then err invalid_claims
    else if ltb max_token_lifetime_secs (claims.exp - claims.iat)
    then err invalid_claims
    else ok tt
