-- ===== src/Server/Auth/Guard.antt =====
-- The `auth` middleware of src/server/auth/mod.rs, up to the call of the handler behind it. The
-- token library (jsonwebtoken) and the JSON parser are a parameter.
use Prim.Native.String.{len, slice}
use text.Mathlib.Text.{◌==◌ as str_eq}
use status_list_server.Base.{
  ℕ, String, Bool, true, Option, none, some, List, [], ◌∷◌, is_empty, if◌then◌else◌, Outcome, ok,
  map_err, ok_or, ◌≡◌, sym, ap, ◌∙◌, ok-injective, map_err-eq-ok, ok_or-eq-ok, >>=-eq-ok, ◌>>=◌,
  ◌>>◌,
}
use status_list_server.Domain.Model.{Issuer, Credential, CredentialError}
use status_list_server.Server.Auth.{
  ManagementClaims, AuthenticationError, jwt_error, internal_server, issuer_not_found,
  invalid_authorization_header, validate_policy,
}

pub record AuthConfig : Type 0 where
  pub leeway_secs : ℕ
  pub max_token_lifetime_secs : ℕ
  pub audiences : List String

-- `Validation` as `auth` sets it up.
pub record Validation (Alg : Type 0) : Type 0 where
  pub alg : Alg
  pub leeway : ℕ
  pub validate_nbf : Bool
  pub issuer : String
  pub required_spec_claims : List String
  -- The audiences that are accepted, or none where the audience is not validated.
  pub audience : Option (List String)

pub record TokenLibrary (Alg Jwk Key : Type 0) : Type 0 where
  pub decode_header : String → Outcome String Alg
  pub insecure_issuer : String → Outcome String String
  pub parse_jwk : List ℕ → Outcome String Jwk
  pub from_jwk : Jwk → Outcome String Key
  pub decode : String → Key → Validation Alg → Outcome String ManagementClaims

-- `strip_prefix("Bearer ")`.
abbrev bearer : String → Option String
bearer header =
    if str_eq (slice header 0 7) "Bearer " then some (slice header 7 (len header)) else none

-- `Option::and_then`.
abbrev bearer_of : Option String → Option String
bearer_of none = none
bearer_of (some header) = bearer header

module _ {Alg Jwk Key : Type 0} (tokens : TokenLibrary Alg Jwk Key) (config : AuthConfig) where
  unfoldable pub validation : Alg → String → Validation Alg
  validation alg issuer = record {
    alg = alg;
    leeway = config.leeway_secs;
    validate_nbf = true;
    issuer = issuer;
    required_spec_claims =
        if is_empty config.audiences then "iss" ∷ "exp" ∷ [] else "iss" ∷ "exp" ∷ "aud" ∷ [];
    audience = if is_empty config.audiences then none else some config.audiences;
  }

  -- The token against the credential of the issuer that it names; the answer is the principal.
  unfoldable pub verify :
      String → Alg → Credential → Outcome AuthenticationError ℕ → Outcome AuthenticationError Issuer
  verify token alg credential clock = do
    jwk ← map_err (λ e. internal_server) (tokens.parse_jwk credential.public_key.bytes)
    key ← map_err jwt_error (tokens.from_jwk jwk)
    claims ← map_err jwt_error (tokens.decode token key (validation alg credential.issuer.name))
    now ← clock
    validate_policy claims now config.leeway_secs config.max_token_lifetime_secs
    ok (record { name = claims.iss })

  -- `find` is the answer of the service to the issuer that the token names.
  unfoldable pub authenticate :
      Option String
      → (String → Outcome CredentialError (Option Credential))
      → Outcome AuthenticationError ℕ
      → Outcome AuthenticationError Issuer
  unfolding verify
  authenticate authorization find clock = do
    token ← ok_or (bearer_of authorization) invalid_authorization_header
    alg ← map_err jwt_error (tokens.decode_header token)
    issuer ← map_err jwt_error (tokens.insecure_issuer token)
    found ← map_err (λ e. internal_server) (find issuer)
    credential ← ok_or found issuer_not_found
    verify token alg credential clock

  -- A token that the key of the credential verifies for its issuer, and whose claims keep the policy.
  pub record IsVerified (token : String) (alg : Alg) (credential : Credential)
      (clock : Outcome AuthenticationError ℕ) (principal : Issuer) : Type 0 where
    pub jwk : Jwk
    pub key : Key
    pub claims : ManagementClaims
    pub now : ℕ
    pub parsed : tokens.parse_jwk credential.public_key.bytes ≡ ok jwk
    pub keyed : tokens.from_jwk jwk ≡ ok key
    pub decoded : tokens.decode token key (validation alg credential.issuer.name) ≡ ok claims
    pub timed : clock ≡ ok now
    pub allowed :
        validate_policy claims now config.leeway_secs config.max_token_lifetime_secs ≡ ok tt
    pub named : principal.name ≡ claims.iss

  verify-IsVerified :
      (token : String) (alg : Alg) (credential : Credential) (clock : Outcome AuthenticationError ℕ)
      (principal : Issuer)
      → verify token alg credential clock ≡ ok principal
      → IsVerified token alg credential clock principal
  unfolding verify
  verify-IsVerified token alg credential clock principal h =
      let (jwk, parsed, h₁) =
        >>=-eq-ok (map_err (λ e. internal_server) (tokens.parse_jwk credential.public_key.bytes)) _
          h in
      let (key, keyed, h₂) = >>=-eq-ok (map_err jwt_error (tokens.from_jwk jwk)) _ h₁ in
      let (claims, decoded, h₃) =
        >>=-eq-ok
          (map_err jwt_error (tokens.decode token key (validation alg credential.issuer.name))) _
          h₂ in
      let (now, timed, h₄) = >>=-eq-ok clock _ h₃ in
      let (done, allowed, same) =
        >>=-eq-ok (validate_policy claims now config.leeway_secs config.max_token_lifetime_secs) _
          h₄ in
      record {
        jwk = jwk;
        key = key;
        claims = claims;
        now = now;
        parsed = map_err-eq-ok _ _ parsed;
        keyed = map_err-eq-ok _ _ keyed;
        decoded = map_err-eq-ok _ _ decoded;
        timed = timed;
        allowed = allowed;
        named = ap (λ i. i.name) (sym (ok-injective same));
      }

  -- What a request that is let in has shown.
  pub record IsAuthentic (authorization : Option String)
      (find : String → Outcome CredentialError (Option Credential))
      (clock : Outcome AuthenticationError ℕ) (principal : Issuer) : Type 0 where
    pub token : String
    pub alg : Alg
    pub issuer : String
    pub credential : Credential
    pub given : bearer_of authorization ≡ some token
    pub headed : tokens.decode_header token ≡ ok alg
    pub claimed : tokens.insecure_issuer token ≡ ok issuer
    pub registered : find issuer ≡ ok (some credential)
    pub verified : IsVerified token alg credential clock principal
    pub owner : principal.name ≡ credential.issuer.name

  -- For a token library whose `decode` accepts only the issuer that it is told to require: a
  -- request that is let in carried a bearer token, whose unverified issuer has a registered
  -- credential; the token verifies with that credential's key under the validation that the
  -- middleware sets up, its claims keep the policy at the clock's time, and the principal is the
  -- credential's own issuer.
  pub authenticate-IsAuthentic :
      ((token : String) (key : Key) (v : Validation Alg) (claims : ManagementClaims)
        → tokens.decode token key v ≡ ok claims
        → claims.iss ≡ v.issuer)
      → (authorization : Option String)
        (find : String → Outcome CredentialError (Option Credential))
        (clock : Outcome AuthenticationError ℕ) (principal : Issuer)
      → authenticate authorization find clock ≡ ok principal
      → IsAuthentic authorization find clock principal
  unfolding authenticate validation
  authenticate-IsAuthentic checks authorization find clock principal h =
      let (token, given, h₁) =
        >>=-eq-ok (ok_or (bearer_of authorization) invalid_authorization_header) _ h in
      let (alg, headed, h₂) = >>=-eq-ok (map_err jwt_error (tokens.decode_header token)) _ h₁ in
      let (issuer, claimed, h₃) =
        >>=-eq-ok (map_err jwt_error (tokens.insecure_issuer token)) _ h₂ in
      let (found, answered, h₄) = >>=-eq-ok (map_err (λ e. internal_server) (find issuer)) _ h₃ in
      let (credential, present, last) = >>=-eq-ok (ok_or found issuer_not_found) _ h₄ in
      let v = verify-IsVerified token alg credential clock principal last in
      record {
        token = token;
        alg = alg;
        issuer = issuer;
        credential = credential;
        given = ok_or-eq-ok _ _ given;
        headed = map_err-eq-ok _ _ headed;
        claimed = map_err-eq-ok _ _ claimed;
        registered = map_err-eq-ok _ _ answered ∙ ap ok (ok_or-eq-ok _ _ present);
        verified = v;
        owner = v.named ∙ checks token v.key _ v.claims v.decoded;
      }
