-- ===== src/Tests/Http.antt =====
-- The theorems on the HTTP layer, at concrete requests.
use status_list_server.Base.{
  ℕ, String, [], Option, some, Outcome, ok, ◌≡◌, refl, sym, ap, arith, ok-injective,
}
use status_list_server.Domain.Model.{corrupt_stored_list, backend, Credential, CredentialError}
use status_list_server.Server.Error.{into_api_error, into_api_error-no_leak}
use status_list_server.Server.Auth.{ManagementClaims, validate_policy}
use status_list_server.Server.Auth.Policy.{Decides, validate_policy-IsAllowed}
use status_list_server.Server.Auth.Guard.{
  validation, AuthConfig, TokenLibrary, authenticate, IsAuthentic, authenticate-IsAuthentic,
}
use status_list_server.Tests.Fixture.{alice}

into_api_error-no_leak_example :
    into_api_error (corrupt_stored_list "Invalid lst encoding")
    ≡ into_api_error (backend "connection refused")
into_api_error-no_leak_example =
    into_api_error-no_leak (corrupt_stored_list "Invalid lst encoding")
      (backend "connection refused") (unfold into_api_error in refl) (unfold into_api_error in refl)

abbrev claims : ManagementClaims
claims = record { iss = "alice"; iat = 1000; nbf = some 1000; exp = 1300 }

validate_policy-IsAllowed_example : Decides claims 1010 60 600 (validate_policy claims 1010 60 600)
validate_policy-IsAllowed_example =
    validate_policy-IsAllowed claims 1010 60 600 (omega arith) (omega arith)

-- Tokens are the name of their issuer, and every key is good.
abbrev tokens : TokenLibrary ℕ (Unit {0}) (Unit {0})
tokens = record {
  decode_header = λ token. ok 256;
  insecure_issuer = λ token. ok token;
  parse_jwk = λ bytes. ok tt;
  from_jwk = λ jwk. ok tt;
  decode = λ token key v. ok (record claims { iss = v.issuer });
}

abbrev config : AuthConfig
config = record { leeway_secs = 60; max_token_lifetime_secs = 600; audiences = [] }

abbrev find : String → Outcome CredentialError (Option Credential)
find issuer = ok (some (record { issuer = alice; public_key = record { bytes = [] } }))

let_in : authenticate tokens config (some "Bearer alice") find (ok 1010) ≡ ok alice
unfolding authenticate validation validate_policy
let_in = refl

authenticate-IsAuthentic_example :
    IsAuthentic tokens config (some "Bearer alice") find (ok 1010) alice
authenticate-IsAuthentic_example =
    authenticate-IsAuthentic tokens config
      (λ token key v c h. ap (λ x. x.iss) (sym (ok-injective h))) (some "Bearer alice") find
      (ok 1010) alice let_in
