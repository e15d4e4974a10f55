-- ===== src/Server/Token.antt =====
-- src/server/handlers/status_list/utils/token.rs. The libraries of keys, JWT, COSE, CBOR and gzip are
-- parameters; the metrics are not modelled.
pub mod Claims
use Prim.Native.String as Str
use package.text.Mathlib.Text.{◌==◌ as str_eq}
use status_list_server.Base.{
  ℕ, ℤ, pos, add_i64, wrap_signed, show_ℕ, show_ℤ, String, Bool, true, false, ◌&&◌, Option, none,
  some, List, [], ◌∷◌, if◌then◌else◌, Outcome, ok, err, panic, map_err, ◌>>=◌,
}
use status_list_server.Base.Action as Action
use status_list_server.Base.Action.{Action, lift, reword}
use status_list_server.Base.Chars.{into_bytes}
use status_list_server.Domain.Model.{
  show_error, StatusListError, Result, StatusListRecord, invalid_index, invalid_status_list,
  corrupt_stored_list, not_found, historical_not_found, invalid_historical_time, issuer_mismatch,
  too_large, too_many_statuses, index_too_large, conflict, contention, unavailable, backend,
  already_exists,
}
use status_list_server.Domain.Ports.{SigningMaterial}
use status_list_server.Domain.Service.{Service}
use status_list_server.Server.Constants

mutual
  pub data CborValue : Type 0 where
    integer : ℤ → CborValue
    text : String → CborValue
    bytes : List ℕ → CborValue
    array : CborArray → CborValue
    map : CborMap → CborValue

  pub data CborArray : Type 0 where
    nil : CborArray
    item : CborValue → CborArray → CborArray

  pub data CborMap : Type 0 where
    end : CborMap
    field : CborValue → CborValue → CborMap → CborMap

pub record StatusListClaims : Type 0 where
  pub bits : ℕ
  pub lst : String
  pub aggregation_uri : Option String

pub record StatusListToken : Type 0 where
  pub exp : Option ℤ
  pub iat : ℤ
  pub status_list : StatusListClaims
  pub sub : String
  pub ttl : Option ℤ

-- A header of ES256, but for the algorithm.
pub record JwtHeader : Type 0 where
  pub typ : Option String
  pub x5c : Option (List String)

pub record CoseSign1 : Type 0 where
  pub protected : CborMap
  pub payload : List ℕ
  pub signature : List ℕ

-- Errors are the texts that they display.
pub record TokenSigner (Key Signer : Type 0) : Type 0 where
  pub from_pkcs8_pem : String → Outcome String Key
  pub to_pkcs8_pem : Key → Outcome String String
  pub from_ec_pem : List ℕ → Outcome String Signer
  pub encode : JwtHeader → StatusListToken → Signer → Outcome String String
  pub sign : Key → List ℕ → List ℕ
  pub to_vec : CborValue → Outcome String (List ℕ)
  -- The bytes that a signature of COSE is over, without further data.
  pub to_be_signed : CborMap → List ℕ → List ℕ
  pub to_tagged_vec : CoseSign1 → Outcome String (List ℕ)
  pub x5chain : ℤ
  pub decode_base64url : String → Outcome String (List ℕ)
  pub decode_base64 : String → Outcome String (List ℕ)
  pub gzip : List ℕ → Outcome String (List ℕ)
  -- The error of a task that panicked.
  pub join_error : String

-- The part of the state of the application that a token depends on.
pub record TokenConfig : Type 0 where
  pub aggregation_uri : Option String
  pub token_exp_secs : ℕ
  pub token_ttl_secs : ℕ

abbrev boxed : {A : Type 0} → Outcome String A → Result A
boxed m = map_err backend m

abbrev pub uri_field : Option String → CborMap
uri_field none = end
uri_field (some uri) = field (text "aggregation_uri") (text uri) end

unfoldable pub cwt_claims : StatusListRecord → List ℕ → Option String → ℤ → ℤ → ℕ → CborMap
cwt_claims r lst_bytes aggregation_uri iat exp token_ttl_secs =
    field (integer Constants.subject) (text r.sub) (
      field (integer Constants.issued_at) (integer iat) (
        field (integer Constants.exp) (integer exp) (
          field (integer Constants.ttl) (integer (pos token_ttl_secs)) (
            field (integer Constants.status_list)
              (map (
                field (text "bits") (integer (pos r.status_list.bits))
                  (field (text "lst") (bytes lst_bytes) (uri_field aggregation_uri))))
              end))))

unfoldable pub jwt_claims : StatusListRecord → Option String → ℤ → ℤ → ℕ → StatusListToken
jwt_claims r aggregation_uri iat exp token_ttl_secs = record {
  exp = some exp;
  iat = iat;
  status_list = record {
    bits = r.status_list.bits;
    lst = r.status_list.lst;
    aggregation_uri = aggregation_uri;
  };
  sub = r.sub;
  ttl = some (wrap_signed 64 token_ttl_secs);
}

module _ {Key Signer : Type 0} (signer : TokenSigner Key Signer) where
  abbrev decode_all : List String → Outcome String (List (List ℕ))
  decode_all [] = ok []
  decode_all (b64 ∷ rest) = do
    der ← signer.decode_base64 b64
    ders ← decode_all rest
    ok (der ∷ ders)

  abbrev pub items : List (List ℕ) → CborArray
  items [] = nil
  items (der ∷ ders) = item (bytes der) (items ders)

  abbrev pub chain_value : List (List ℕ) → CborValue
  chain_value [] = array nil
  chain_value (der ∷ []) = bytes der
  chain_value (der ∷ next ∷ ders) = array (items (der ∷ next ∷ ders))

  unfoldable pub build_x5chain : List String → Result CborValue
  build_x5chain cert_chain = do
    certs_der ← boxed (decode_all cert_chain)
    ok (chain_value certs_der)

  abbrev pub protected_header : CborValue → CborMap
  protected_header x5chain_value =
      field (integer signer.x5chain) x5chain_value
        (field (integer Constants.cwt_type) (text Constants.cwt_type_value) end)

  unfoldable pub issue_cwt :
      StatusListRecord → Key → List String → Option String → ℤ → ℤ → ℕ → Result (List ℕ)
  issue_cwt r keypair cert_chain aggregation_uri iat exp token_ttl_secs = do
    lst_bytes ← boxed (signer.decode_base64url r.status_list.lst)
    payload ←
        boxed (signer.to_vec (map (cwt_claims r lst_bytes aggregation_uri iat exp token_ttl_secs)))
    x5chain_value ← build_x5chain cert_chain
    boxed (
        signer.to_tagged_vec (record {
          protected = protected_header x5chain_value;
          payload = payload;
          signature =
              signer.sign keypair (signer.to_be_signed (protected_header x5chain_value) payload);
        }))

  unfoldable pub issue_jwt :
      StatusListRecord → Key → List String → Option String → ℤ → ℤ → ℕ → Result String
  issue_jwt r keypair cert_chain aggregation_uri iat exp token_ttl_secs = do
    pem ← boxed (signer.to_pkcs8_pem keypair)
    key ← boxed (signer.from_ec_pem (into_bytes pem))
    boxed (
        signer.encode (record { typ = some Constants.header_jwt; x5c = some cert_chain })
          (jwt_claims r aggregation_uri iat exp token_ttl_secs) key)

  -- The body of a token, and its content encoding.
  abbrev pub Body : Type 0
  Body = List ℕ × Option String

  abbrev pub issue_bytes :
      TokenConfig → String → StatusListRecord → List String → Key → ℤ × ℤ → Result (List ℕ)
  issue_bytes config accept r certs_parts keypair window =
      if str_eq accept Constants.accept_cwt
      then issue_cwt r keypair certs_parts config.aggregation_uri window.0 window.1
          config.token_ttl_secs
      else (issue_jwt r keypair certs_parts config.aggregation_uri window.0 window.1
            config.token_ttl_secs
          >>= λ token. ok (into_bytes token))

  abbrev pub compress : Bool → List ℕ → Result Body
  compress should_gzip token_bytes =
      if should_gzip
      then (boxed (signer.gzip token_bytes) >>= λ compressed.
          ok (compressed, some Constants.gzip_header))
      else ok (token_bytes, none)

  unfoldable pub issue :
      TokenConfig → String → StatusListRecord → List String → String → ℤ × ℤ → Bool → Result Body
  unfolding issue_cwt issue_jwt
  issue config accept r certs_parts signing_key_pem window should_gzip = do
    keypair ← boxed (signer.from_pkcs8_pem signing_key_pem)
    token_bytes ← issue_bytes config accept r certs_parts keypair window
    compress should_gzip token_bytes

  -- A panic in the task is an error of its join.
  abbrev pub joined : Result Body → Result Body
  joined (ok a) = ok a
  joined (err e) = err e
  joined panic = err (backend signer.join_error)

  abbrev pub validity : TokenConfig → Option (ℤ × ℤ) → ℤ → ℤ × ℤ
  validity config none now = (now, add_i64 now (wrap_signed 64 config.token_exp_secs))
  validity config (some window) now = window

  abbrev pub with_chain :
      {S : Type 0}
      → Option (List String)
      → (List String → Action StatusListError S Body)
      → Action StatusListError S Body
  with_chain none k = Action.throw unavailable
  with_chain (some certs_parts) k = k certs_parts

  unfoldable pub build_status_list_token :
      {S : Type 0}
      → Service S
      → TokenConfig
      → String
      → StatusListRecord
      → Option (ℤ × ℤ)
      → Bool
      → ℤ
      → Action StatusListError S Body
  build_status_list_token service config accept r validity_window client_accepts_gzip now =
      Action.◌>>=◌
        (λ s. reword (λ e. backend (show_error e)) (service.cert_provider.signing_material s))
        λ material. with_chain material.certificate_chain λ certs_parts. lift (
          joined (
            issue config accept r certs_parts material.signing_key_pem
              (validity config validity_window now)
              (client_accepts_gzip && str_eq accept Constants.accept_jwt)))
