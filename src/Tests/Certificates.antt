-- ===== src/Tests/Certificates.antt =====
-- The theorems on signing material, over a storage in memory without caches.
use text.Mathlib.Text.{◌==◌ as str_eq}
use status_list_server.Base.{
  ◌-◌, pos, String, Option, none, some, [], ◌∷◌, if◌then◌else◌, Outcome, ok, ◌≡◌, refl,
}
use status_list_server.Base.Action.{pure}
use status_list_server.Certificates.Storage.{
  StorageError, Storage, MaterialCache, CryptoStorage, load_with_cache, load_signing_key,
}
use status_list_server.Certificates.Manager.{
  CertificateData, CertState, Formats, signing_key_pem, max_retries,
}
use status_list_server.Certificates.Manager.Retries.{Ending, stored_answer, signing_key_pem-Ending}
use status_list_server.Certificates.Provision.{KeyMaterial, filesystem, provision}
use status_list_server.Certificates.Manager.Served.{Leaves, served}
use status_list_server.Certificates.Provision.Swaps.{IsRefreshed, provision-IsRefreshed}

abbrev Vault : Type 0
Vault = String → Option String

abbrev put : String → String → Vault → Vault
put key value vault = λ k. if str_eq key k then some value else vault k

abbrev vaults : Storage Vault
vaults = record {
  store = λ key value vault. (ok tt, put key value vault);
  load = λ key vault. (ok (vault key), vault);
  update = λ key value vault. (ok tt, put key value vault);
  delete = λ key vault. (ok tt, vault);
}

abbrev forgetful : MaterialCache Vault
forgetful = record {
  get = λ key. pure none;
  put = λ key value. pure tt;
  invalidate = λ key. pure tt;
}

abbrev crypto : CryptoStorage Vault
crypto = record { backend = vaults; certificate_cache = forgetful; signing_key_cache = none }

abbrev old_data : CertificateData
old_data = record {
  certificate = "old";
  valid_from = pos 0;
  expires_at = pos 9;
  updated_at = pos 0;
}

abbrev pub formats : Formats
formats = record {
  to_json = λ data_of. ok data_of.certificate;
  from_json = λ text. ok (record old_data { certificate = text });
  pem_blocks = λ pem. ok pem ∷ [];
}

abbrev pub keys : KeyMaterial String
keys = record {
  from_utf8 = λ bytes. ok "text";
  base64_forms = [];
  from_pkcs8_pem = λ pem. ok pem;
  from_pkcs8_der = λ bytes. ok "key";
  to_pkcs8_pem = λ key. ok key;
  verifying_key = λ key. 7 ∷ [];
  from_ec_pem = λ pem. ok tt;
  parse_x509_pem = λ pem. ok ("CERTIFICATE", 1 ∷ []);
  parse_x509_certificate =
      λ der. ok (record { next = []; not_before = pos 0; not_after = pos 9; public_key = 7 ∷ [] });
  encode_pem = λ blocks. "new";
}

abbrev start : CertState Vault
start = record { stored = λ key. none; cert_chain_cache = none; active_signing_material = none }

provision-IsRefreshed_example :
    Leaves
      (served start)
      (IsRefreshed keys formats
        (some crypto)
        "cert"
        "key"
        (λ path vault. ok (48 ∷ []))
        (served start))
      (provision keys formats
        (some crypto)
        "cert"
        "key"
        (λ path vault. ok (48 ∷ []))
        (filesystem "c")
        (filesystem "k")
        (pos 5)
        start)
provision-IsRefreshed_example =
    provision-IsRefreshed keys formats (some crypto) "cert" "key" (λ path vault. ok (48 ∷ []))
      (filesystem "c") (filesystem "k") (pos 5) start

none_stored : load_signing_key crypto "key" start.stored ≡ (ok none, start.stored)
unfolding load_signing_key load_with_cache
none_stored = refl

signing_key_pem-Ending_example :
    (x : Outcome StorageError String × Vault) × (signing_key_pem formats
        (some crypto)
        "cert"
        "key"
        (ok "pem")
        start
      ≡ stored_answer formats crypto "cert" "key" "pem" start x)
    × Ending formats crypto "cert" "key" "pem" (max_retries - 1) start.stored x
signing_key_pem-Ending_example =
    signing_key_pem-Ending formats crypto "cert" "key" "pem" start start.stored none_stored
