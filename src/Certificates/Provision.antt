-- ===== src/Certificates/Provision.antt =====
-- src/utils/cert_manager/strategy.rs: the provisioning of material that is given. The files, the
-- decoders of base64, the parsers of X.509 and of keys are parameters.
pub mod Swaps
pub mod Chains
use Prim.Native.String as Str
use package.text.Mathlib.Text.{◌==◌ as str_eq, find?}
use status_list_server.Base.{
  ℕ, suc, zero, ◌+◌, ◌-◌, ◌==◌, ℤ, String, Bool, true, false, not, ◌&&◌, ◌||◌, Option, none, some,
  is_some, List, [], ◌∷◌, ◌++◌, length, if◌then◌else◌, Outcome, ok, err, panic, map_err, ok_or,
  ◌>>=◌,
}
use status_list_server.Base.Action as Action
use status_list_server.Base.Action.{Action, lift}
use status_list_server.Base.Chars.{is_whitespace, is_empty, into_bytes}
use status_list_server.Domain.Model.{Result, backend, show_error}
use status_list_server.Certificates.Storage.{CryptoStorage, load_secret}
use status_list_server.Certificates.Manager.{
  CertError, CertificateData, CertState, Formats, within, crypto_storage, certificate,
  signing_key_from_storage, persist_crypto_material,
}

pub data MaterialSource : Type 0 where
  filesystem storage : String → MaterialSource

-- The certificate that some DER begins with: what follows it, its validity and its key.
pub record ParsedDer : Type 0 where
  pub next : List ℕ
  pub not_before : ℤ
  pub not_after : ℤ
  pub public_key : List ℕ

pub record KeyMaterial (Key : Type 0) : Type 0 where
  pub from_utf8 : List ℕ → Outcome String String
  -- The four forms of base64, in the order in which they are tried.
  pub base64_forms : List (String → Outcome String (List ℕ))
  pub from_pkcs8_pem : String → Outcome String Key
  pub from_pkcs8_der : List ℕ → Outcome String Key
  pub to_pkcs8_pem : Key → Outcome String String
  -- The public key as a point.
  pub verifying_key : Key → List ℕ
  pub from_ec_pem : String → Outcome String (Unit {0})
  -- The label and the contents of the first block.
  pub parse_x509_pem : String → Outcome String (String × List ℕ)
  pub parse_x509_certificate : List ℕ → Outcome String ParsedDer
  pub encode_pem : List (List ℕ) → String

unfoldable pub contains : String → String → Bool
contains text part = is_some (find? text part)

unfoldable pub compact : String → String
compact Str.[] = Str.[]
compact (Str.◌∷◌ c s) = let rest = compact s in if is_whitespace c then rest else Str.◌∷◌ c rest

abbrev starts_with : List ℕ → List ℕ → Bool
starts_with bytes [] = true
starts_with [] (p ∷ prefix) = false
starts_with (b ∷ bytes) (p ∷ prefix) = (b == p) && starts_with bytes prefix

-- `windows(..).any(..)` of a part that is not empty.
unfoldable pub has_window : List ℕ → List ℕ → Bool
has_window [] part = false
has_window (b ∷ bytes) part = starts_with (b ∷ bytes) part || has_window bytes part

unfoldable pub is_pem_certificate : List ℕ → Bool
unfolding into_bytes has_window
is_pem_certificate bytes = has_window bytes (into_bytes "-----BEGIN CERTIFICATE-----")

unfoldable pub is_pem_private_key : List ℕ → Bool
unfolding into_bytes has_window
is_pem_private_key bytes = has_window bytes (into_bytes "-----BEGIN ")

-- A prefix and what it is followed by.
abbrev pub take : ℕ → List ℕ → List ℕ
take zero bytes = []
take (suc n) [] = []
take (suc n) (b ∷ bytes) = b ∷ take n bytes

abbrev same_bytes : List ℕ → List ℕ → Bool
same_bytes [] [] = true
same_bytes [] (b ∷ bytes) = false
same_bytes (a ∷ others) [] = false
same_bytes (a ∷ others) (b ∷ bytes) = (a == b) && same_bytes others bytes

abbrev pub not_stored : String → String → CertError
not_stored label key =
    CertError.validation
      (Str.◌++◌ "store " (Str.◌++◌ label (Str.◌++◌ " key '" (Str.◌++◌ key "' was not found"))))

module _ {Key : Type 0} (keys : KeyMaterial Key) where
  abbrev first_form : List (String → Outcome String (List ℕ)) → String → Option (List ℕ)
  first_form [] value = none
  first_form (decode ∷ forms) value = elim (decode value) [
    | ok bytes ↦ some bytes
    | err e ↦ first_form forms value
    | panic ↦ none
  ]

  unfoldable pub decode_base64_text : String → Option (List ℕ)
  decode_base64_text value = first_form keys.base64_forms value

  unfoldable pub decode_text_material : String → String → Outcome CertError (List ℕ)
  unfolding contains compact decode_base64_text into_bytes
  decode_text_material value label =
      if contains value "-----BEGIN "
      then ok (into_bytes value)
      else if is_empty (compact value)
      then err (CertError.validation (Str.◌++◌ label " material is empty"))
      else ok_or (decode_base64_text (compact value)) (
          CertError.validation
            (Str.◌++◌ label " material must be PEM text or base64/base64url-encoded DER"))

  unfoldable pub normalize_pkcs8_key : List ℕ → Outcome CertError String
  unfolding is_pem_private_key
  normalize_pkcs8_key signing_key =
      if is_pem_private_key signing_key
      then (map_err (λ e. CertError.validation (Str.◌++◌ "signing key PEM is not valid UTF-8: " e))
            (keys.from_utf8 signing_key)
          >>= λ pem. map_err CertError.key_op (keys.from_pkcs8_pem pem) >>= λ checked. ok pem)
      else map_err CertError.key_op
          (keys.from_pkcs8_der signing_key >>= λ keypair. keys.to_pkcs8_pem keypair)

  abbrev pub or_first : Option (ℤ × ℤ) → ℤ × ℤ → Option (ℤ × ℤ)
  or_first none v = some v
  or_first (some u) v = some u

  -- The loop over the certificates of a chain; a round takes a byte at least, and `fuel` bounds them.
  unfoldable pub read_chain :
      ℕ
      → List ℕ
      → List (List ℕ)
      → Option (ℤ × ℤ)
      → Outcome CertError (List (List ℕ) × Option (ℤ × ℤ))
  read_chain fuel [] certs validity = ok (certs, validity)
  read_chain zero (b ∷ remaining) certs validity = panic
  read_chain (suc fuel) (b ∷ remaining) certs validity =
      map_err (λ e. CertError.parsing (Str.◌++◌ "invalid DER certificate chain: " e))
        (keys.parse_x509_certificate (b ∷ remaining))
      >>= λ cert.
          let consumed_len = length (b ∷ remaining) - length cert.next in
          let rest =
            read_chain fuel cert.next (certs ++ (take consumed_len (b ∷ remaining) ∷ []))
              (or_first validity (cert.not_before, cert.not_after)) in
          if consumed_len == 0
          then err (CertError.parsing "invalid DER certificate chain: parser made no progress")
          else rest

  unfoldable pub cert_der_chain_to_pem : List ℕ → Outcome CertError (String × ℤ × ℤ)
  unfolding read_chain
  cert_der_chain_to_pem certificate_der =
      read_chain (length certificate_der) certificate_der [] none >>= λ chain.
      ok_or chain.1 (CertError.parsing "empty DER certificate chain") >>= λ validity.
      ok (keys.encode_pem chain.0, validity.0, validity.1)

  abbrev data_at : String → ℤ → ℤ → ℤ → CertificateData
  data_at cert_pem valid_from expires_at now = record {
    certificate = cert_pem;
    valid_from = valid_from;
    expires_at = expires_at;
    updated_at = now;
  }

  unfoldable pub parse_cert_pem : String → Outcome CertError (List ℕ)
  parse_cert_pem cert_pem = map_err CertError.parsing (keys.parse_x509_pem cert_pem) >>= λ block.
      if not (str_eq block.0 "CERTIFICATE") || (length block.1 == 0)
      then err (CertError.parsing "Invalid X509 certificate")
      else ok block.1

  unfoldable pub certificate_data_from_pem : ℤ → String → Outcome CertError CertificateData
  unfolding parse_cert_pem
  certificate_data_from_pem now cert_pem = parse_cert_pem cert_pem >>= λ contents.
      map_err CertError.parsing (keys.parse_x509_certificate contents) >>= λ x509.
      ok (data_at cert_pem x509.not_before x509.not_after now)

  unfoldable pub certificate_data_from_der_or_pem : ℤ → List ℕ → Outcome CertError CertificateData
  unfolding is_pem_certificate cert_der_chain_to_pem certificate_data_from_pem
  certificate_data_from_der_or_pem now bytes =
      if is_pem_certificate bytes
      then (map_err (λ e. CertError.validation (Str.◌++◌ "certificate PEM is not valid UTF-8: " e))
            (keys.from_utf8 bytes)
          >>= λ cert_pem. certificate_data_from_pem now cert_pem)
      else (cert_der_chain_to_pem bytes >>= λ chain. ok (data_at chain.0 chain.1 chain.2 now))

  -- `validate_signing_material` of src/outbound/cert.rs.
  unfoldable pub validate_signing_material : String → String → Result (Unit {0})
  validate_signing_material cert_pem signing_key_pem =
      map_err backend (keys.from_pkcs8_pem signing_key_pem) >>= λ keypair.
      map_err backend (keys.parse_x509_pem cert_pem) >>= λ block.
      map_err backend (keys.parse_x509_certificate block.1) >>= λ x509.
      if same_bytes x509.public_key (keys.verifying_key keypair)
      then map_err backend (keys.from_ec_pem signing_key_pem)
      else err (backend "certificate public key does not match signing key")

  module _ {S : Type 0} (formats : Formats) (crypto : Option (CryptoStorage S))
      (cert_key signing_secret_id : String) (read_file : String → S → Outcome String (List ℕ)) where
    abbrev pub from_file : String → String → Outcome String (List ℕ) → Outcome CertError (List ℕ)
    from_file path label read =
        map_err
          (λ e. CertError.validation (
            Str.◌++◌ "failed to read "
              (Str.◌++◌ label (Str.◌++◌ " file '" (Str.◌++◌ path (Str.◌++◌ "': " e))))))
          read

    unfoldable pub load_source : MaterialSource → String → Action CertError (CertState S) (List ℕ)
    load_source (filesystem path) label s = (from_file path label (read_file path s.stored), s)
    load_source (storage key) label s =
        (Action.◌>>=◌ (lift (crypto_storage formats crypto cert_key signing_secret_id))
            λ material_storage. Action.◌>>=◌ (within (load_secret material_storage key)) λ found.
              Action.◌>>=◌ (lift (ok_or found (not_stored label key)))
                λ secret. lift (decode_text_material secret label))
          s

    abbrev pub is_same : Option CertificateData → Option String → CertificateData → String → Bool
    is_same none key data_of key_pem = false
    is_same (some current) none data_of key_pem = false
    is_same (some current) (some key) data_of key_pem =
        str_eq current.certificate data_of.certificate && str_eq key key_pem

    abbrev or_new : Option CertificateData → CertificateData → CertificateData
    or_new none data_of = data_of
    or_new (some current) data_of = current

    -- The tail of `provision`, with the new material.
    unfoldable pub refresh :
        CertificateData → String → Action CertError (CertState S) CertificateData
    refresh data_of key_pem =
        Action.◌>>=◌ (certificate formats crypto cert_key signing_secret_id) λ current.
          Action.◌>>=◌ (signing_key_from_storage formats crypto cert_key signing_secret_id)
            λ current_key.
              if is_same current current_key data_of key_pem
              then Action.pure (or_new current data_of)
              else Action.◌>>◌
                  (persist_crypto_material formats crypto cert_key signing_secret_id data_of
                    key_pem)
                  (Action.pure data_of)

    -- Of the strategy that loads material from the two sources, at the clock's time.
    unfoldable pub provision :
        MaterialSource → MaterialSource → ℤ → Action CertError (CertState S) CertificateData
    unfolding load_source normalize_pkcs8_key certificate_data_from_der_or_pem
        validate_signing_material refresh
    provision certificate_source signing_key_source now =
        Action.◌>>=◌ (load_source certificate_source "certificate") λ certificate.
          Action.◌>>=◌ (load_source signing_key_source "signing key") λ signing_key.
            Action.◌>>=◌ (lift (normalize_pkcs8_key signing_key)) λ key_pem.
              Action.◌>>=◌ (lift (certificate_data_from_der_or_pem now certificate)) λ data_of.
                Action.◌>>◌
                  (lift (
                    map_err (λ e. CertError.validation (show_error e))
                      (validate_signing_material data_of.certificate key_pem)))
                  (refresh data_of key_pem)
