-- ===== src/Certificates/Manager.antt =====
-- src/utils/cert_manager.rs: the manager's own state, and the storing of material. X.509, PEM, JSON,
-- the making of keys and the arithmetic of `f32` are parameters.
pub mod Retries
pub mod Served
pub mod Steps
pub mod Persists
use package.text.Mathlib.Text.{◌==◌ as str_eq}
use status_list_server.Base.{
  ℕ, suc, zero, ◌*◌, ◌+◌, ◌-◌, ℤ, pos, pos_part, neg_part, sub_ℕ, wrap_ℤ, leb_ℤ, String, Bool, true,
  Option, none, some, is_some, List, [], ◌∷◌, if◌then◌else◌, Outcome, ok, err, panic, map_err,
  ok_or,
}
use status_list_server.Base.Action.{
  Action, ◌>>=◌, ◌>>◌, pure, throw, lift, answering, resume, attempt, fmap,
}
use status_list_server.Domain.Ports.{SigningMaterial}
use status_list_server.Certificates.Challenge.Records.{ChallengeError}
use status_list_server.Certificates.Storage.{
  StorageError, CryptoStorage, load_certificate_data, store_certificate_data,
  update_certificate_data, load_signing_key, store_signing_key, update_signing_key,
}

pub data CertError : Type 0 where
  acme parsing cron serde key_op validation other : String → CertError
  storage : StorageError → CertError
  challenge : ChallengeError → CertError

pub record CertificateData : Type 0 where
  pub certificate : String
  pub valid_from : ℤ
  pub expires_at : ℤ
  pub updated_at : ℤ

-- `P` is `f32`.
pub data RenewalStrategy (P : Type 0) : Type 0 where
  fixed_interval days_before_expiry : Option ℕ → RenewalStrategy P
  percentage_of_lifetime : Option P → RenewalStrategy P

abbrev sub_i64 : ℤ → ℤ → ℤ
sub_i64 a b = wrap_ℤ 64 (sub_ℕ (pos_part a + neg_part b) (pos_part b + neg_part a))

abbrev sum_i64 : ℤ → ℤ → ℤ
sum_i64 a b = wrap_ℤ 64 (sub_ℕ (pos_part a + pos_part b) (neg_part a + neg_part b))

abbrev days_or : Option ℕ → ℕ → ℕ
days_or none default = default
days_or (some days) default = days

abbrev days_to_secs : ℕ → ℤ
days_to_secs days = pos (days * 24 * 60 * 60)

-- `reaches elapsed lifetime value` is the comparison of the quotient with the percentage, or 2/3.
unfoldable pub should_renew_cert :
    {P : Type 0} → (ℤ → ℤ → Option P → Bool) → RenewalStrategy P → CertificateData → ℤ → Bool
should_renew_cert reaches (days_before_expiry value) data_of now =
    leb_ℤ (sub_i64 data_of.expires_at (days_to_secs (days_or value 30))) now
should_renew_cert reaches (percentage_of_lifetime value) data_of now =
    reaches (sub_i64 now data_of.valid_from) (sub_i64 data_of.expires_at data_of.valid_from) value
should_renew_cert reaches (fixed_interval value) data_of now =
    leb_ℤ (sum_i64 data_of.valid_from (days_to_secs (days_or value 60))) now

-- The libraries that read and write material. An error is the text that it displays.
pub record Formats : Type 0 where
  -- `serde_json` on the data of a certificate.
  pub to_json : CertificateData → Outcome String String
  pub from_json : String → Outcome String CertificateData
  -- The blocks of a PEM text, in base64.
  pub pem_blocks : String → List (Outcome String String)

-- The state of the manager, beside the storage `S`: its cache holds the chain of its one key.
pub record CertState (S : Type 0) : Type 0 where
  pub stored : S
  pub cert_chain_cache : Option (List String)
  pub active_signing_material : Option SigningMaterial

abbrev pub max_retries : ℕ
max_retries = 3

module _ {S : Type 0} where
  abbrev pub on_storage :
      {A : Type 0} → Outcome StorageError A × S → CertState S → Outcome CertError A × CertState S
  on_storage (m, t) s = (map_err CertError.storage m, record s { stored = t })

  -- `storage.operation().await?`.
  abbrev pub within : {A : Type 0} → Action StorageError S A → Action CertError (CertState S) A
  within m s = on_storage (m s.stored) s

module _ {S : Type 0} (formats : Formats) (crypto : Option (CryptoStorage S))
    (cert_key signing_secret_id : String) where
  abbrev pub crypto_storage : Outcome CertError (CryptoStorage S)
  crypto_storage = ok_or crypto (CertError.other "Cryptographic-material backend not set")

  abbrev collect : List (Outcome String String) → Outcome CertError (List String)
  collect [] = ok []
  collect (ok block ∷ rest) = elim (collect rest) [
    | ok blocks ↦ ok (block ∷ blocks)
    | err e ↦ err e
    | panic ↦ panic
  ]
  collect (err e ∷ rest) = err (CertError.parsing e)
  collect (panic ∷ rest) = panic

  unfoldable pub parse_cert_chain_parts : String → Outcome CertError (List String)
  parse_cert_chain_parts cert_pem = collect (formats.pem_blocks cert_pem)

  -- One attempt to store the key, and `left` more while they fail. The waits between them are left out.
  unfoldable pub store_retrying : CryptoStorage S → String → ℕ → Action StorageError S String
  store_retrying material_storage key_pem zero =
      store_signing_key material_storage signing_secret_id key_pem >> pure key_pem
  store_retrying material_storage key_pem (suc left) =
      attempt (store_signing_key material_storage signing_secret_id key_pem) λ result. elim result [
        | ok done ↦ pure key_pem
        | err e ↦ store_retrying material_storage key_pem left
        | panic ↦ λ s. (panic, s)
      ]

  abbrev pub key_or_new :
      CryptoStorage S
      → Outcome String String
      → Option String
      → Action CertError (CertState S) String
  key_or_new material_storage generated (some secret) = pure secret
  key_or_new material_storage generated none =
      lift (map_err CertError.key_op generated) >>= λ key_pem.
      within (store_retrying material_storage key_pem (max_retries - 1))

  -- `generated` is the text of a fresh key.
  unfoldable pub signing_key_pem : Outcome String String → Action CertError (CertState S) String
  unfolding store_retrying
  signing_key_pem generated = do
    material_storage ← lift crypto_storage
    found ← within (load_signing_key material_storage signing_secret_id)
    key_or_new material_storage generated found

  abbrev pub read_data : Option String → Outcome CertError (Option CertificateData)
  read_data none = ok none
  read_data (some cert_data) = fmap_ok (map_err CertError.serde (formats.from_json cert_data))
    where
      fmap_ok : Outcome CertError CertificateData → Outcome CertError (Option CertificateData)
      fmap_ok (ok a) = ok (some a)
      fmap_ok (err e) = err e
      fmap_ok panic = panic

  unfoldable pub certificate : Action CertError (CertState S) (Option CertificateData)
  certificate = do
    material_storage ← lift crypto_storage
    found ← within (load_certificate_data material_storage cert_key)
    lift (read_data found)

  unfoldable pub signing_key_from_storage : Action CertError (CertState S) (Option String)
  signing_key_from_storage = lift crypto_storage >>= λ material_storage.
      within (load_signing_key material_storage signing_secret_id)

  abbrev cache_chain : List String → Action CertError (CertState S) (Unit {0})
  cache_chain parts s = (ok tt, record s { cert_chain_cache = some parts })

  abbrev set_active : SigningMaterial → Action CertError (CertState S) (Unit {0})
  set_active material s = (ok tt, record s { active_signing_material = some material })

  abbrev chain_of_data :
      Option CertificateData → Action CertError (CertState S) (Option (List String))
  chain_of_data none = pure none
  chain_of_data (some cert_data) = lift (parse_cert_chain_parts cert_data.certificate) >>= λ certs.
      cache_chain certs >> pure (some certs)

  abbrev cached_or_stored :
      Option (List String) → Action CertError (CertState S) (Option (List String))
  cached_or_stored (some certs) = pure (some certs)
  cached_or_stored none = certificate >>= λ cert_data. chain_of_data cert_data

  unfoldable pub cert_chain_parts : Action CertError (CertState S) (Option (List String))
  unfolding certificate parse_cert_chain_parts
  cert_chain_parts s = cached_or_stored s.cert_chain_cache s

  -- The second look under the lock sees what the first one saw, in a step that runs alone.
  abbrev active_or_loaded :
      Outcome String String
      → Option SigningMaterial
      → Action CertError (CertState S) SigningMaterial
  active_or_loaded generated (some material) = pure material
  active_or_loaded generated none = signing_key_pem generated >>= λ key_pem.
      cert_chain_parts >>= λ certs.
      let material : SigningMaterial = record {
        certificate_chain = certs;
        signing_key_pem = key_pem;
      } in
      set_active material >> pure material

  unfoldable pub signing_material :
      Outcome String String → Action CertError (CertState S) SigningMaterial
  unfolding signing_key_pem cert_chain_parts
  signing_material generated s = active_or_loaded generated s.active_signing_material s

  unfoldable pub persist_certificate_data :
      CertificateData → Action CertError (CertState S) (Unit {0})
  persist_certificate_data cert_data = do
    serialized ← lift (map_err CertError.serde (formats.to_json cert_data))
    material_storage ← lift crypto_storage
    found ← within (load_certificate_data material_storage cert_key)
    within (
        if is_some found
        then update_certificate_data material_storage cert_key serialized
        else store_certificate_data material_storage cert_key serialized)

  unfoldable pub persist_signing_key : String → Action CertError (CertState S) (Unit {0})
  persist_signing_key signing_key = do
    material_storage ← lift crypto_storage
    found ← within (load_signing_key material_storage signing_secret_id)
    within (
        if is_some found
        then update_signing_key material_storage signing_secret_id signing_key
        else store_signing_key material_storage signing_secret_id signing_key)

  unfoldable pub cache_provisioned_chain : String → Action CertError (CertState S) (Unit {0})
  unfolding parse_cert_chain_parts
  cache_provisioned_chain cert_pem =
      lift (parse_cert_chain_parts cert_pem) >>= λ parts. cache_chain parts

  unfoldable pub store_active_signing_material :
      String → String → Action CertError (CertState S) (Unit {0})
  unfolding parse_cert_chain_parts
  store_active_signing_material cert_pem key_pem =
      lift (parse_cert_chain_parts cert_pem) >>= λ certs.
      set_active (record { certificate_chain = some certs; signing_key_pem = key_pem })

  unfoldable pub persist_crypto_material :
      CertificateData → String → Action CertError (CertState S) (Unit {0})
  persist_crypto_material cert_data signing_key =
      persist_certificate_data cert_data
      >> persist_signing_key signing_key
      >> cache_provisioned_chain cert_data.certificate
      >> store_active_signing_material cert_data.certificate signing_key

  -- `provision` is that of the strategy, and so is the test of an existing certificate.
  unfoldable pub renew_cert_if_needed :
      (CertificateData → Bool)
      → Action CertError (CertState S) CertificateData
      → Action CertError (CertState S) (Unit {0})
  renew_cert_if_needed should_provision_existing provision = certificate >>= λ found.
      if is_due found then (provision >>= λ cert_data. pure tt) else pure tt
    where
      is_due : Option CertificateData → Bool
      is_due none = true
      is_due (some cert_data) = should_provision_existing cert_data
