-- ===== src/Certificates/Provision/Swaps.antt =====
-- A refresh of given material either takes effect as a whole or leaves what is served as it was.
use status_list_server.Base.{
  ℕ, ℤ, String, Bool-cases, Option, List, Outcome, ok, err, panic, map_err, map_err-eq-ok, ok_or,
  ◌≡◌, refl, ◌⊎◌, inl, inr,
}
use status_list_server.Base.Action as Action
use status_list_server.Base.Action.{Action, after, lift}
use status_list_server.Domain.Model.{show_error}
use status_list_server.Certificates.Storage.{CryptoStorage, load_secret}
use status_list_server.Certificates.Manager.{
  CertError, CertificateData, CertState, Formats, within, crypto_storage, certificate,
  signing_key_from_storage, persist_crypto_material,
}
use status_list_server.Certificates.Provision.{
  MaterialSource, filesystem, storage, KeyMaterial, validate_signing_material, load_source,
  not_stored, from_file, is_same, decode_text_material, normalize_pkcs8_key,
  certificate_data_from_der_or_pem, refresh, provision,
}
use status_list_server.Certificates.Manager.Served.{
  Served, served, Leaves, Leaves-after, Keeps, within-Keeps, Keeps-then, lift_then,
}
use status_list_server.Certificates.Manager.Steps.{
  Serves, Cached, persist_certificate_data-Keeps, persist_signing_key-Keeps, certificate-Keeps,
  signing_key-Keeps, caches, activates,
}

module _ {S Key : Type 0} (keys : KeyMaterial Key) (formats : Formats)
    (crypto : Option (CryptoStorage S)) (cert_key id : String)
    (read_file : String → S → Outcome String (List ℕ)) where
  persist_crypto_material-Serves :
      (m : Served) (d : CertificateData) (key : String) (s : CertState S)
      → served s ≡ m
      → Leaves m
          (λ done. Serves formats crypto cert_key id d.certificate key)
          (persist_crypto_material formats crypto cert_key id d key s)
  unfolding persist_crypto_material
  persist_crypto_material-Serves m d key s h =
      Leaves-after m (λ done. Cached formats crypto cert_key id m d.certificate)
        (λ done. Serves formats crypto cert_key id d.certificate key) _ _
        (Keeps-then m (λ done. Cached formats crypto cert_key id m d.certificate) _ _
          (Keeps-then m (λ done s. served s ≡ m) _ _
            (persist_certificate_data-Keeps formats crypto cert_key id m d s h)
            (λ done t k. persist_signing_key-Keeps formats crypto cert_key id m key t k))
          (λ done t k. caches formats crypto cert_key id m d.certificate t k))
        (λ done t k. activates formats crypto cert_key id m d.certificate key t k)

  file-Keeps :
      (m : Served) (x : Outcome CertError (List ℕ)) (s : CertState S)
      → served s ≡ m
      → Keeps m (lift x s)
  unfolding Leaves
  file-Keeps m (ok bytes) s h = h
  file-Keeps m (err e) s h = h
  file-Keeps m panic s h = h

  load_source-Keeps :
      (m : Served) (source : MaterialSource) (label : String) (s : CertState S)
      → served s ≡ m
      → Keeps m (load_source keys formats crypto cert_key id read_file source label s)
  unfolding load_source
  load_source-Keeps m (filesystem path) label s h =
      file-Keeps m
        (from_file keys formats crypto cert_key id read_file path label (read_file path s.stored)) s
        h
  load_source-Keeps m (storage key) label s h =
      lift_then m (λ a s. served s ≡ m) _ (crypto_storage formats crypto cert_key id) s h
        λ store f.
          Keeps-then m (λ a s. served s ≡ m) _ (within (load_secret store key) s)
            (within-Keeps m (load_secret store key) s h)
            λ found t k.
              lift_then m (λ a s. served s ≡ m)
                (λ secret. lift (decode_text_material keys secret label))
                (ok_or found (not_stored label key)) t k
                λ secret e. file-Keeps m (decode_text_material keys secret label) t k

  -- What is served is as it was, or it is new material whose certificate is for its key.
  abbrev pub IsRefreshed : Served → CertificateData → CertState S → Type 0
  IsRefreshed m d s =
      (served s ≡ m)
      ⊎ ((key : String) × (validate_signing_material keys d.certificate key ≡ ok tt)
          × Serves formats crypto cert_key id d.certificate key s)

  refresh-IsRefreshed :
      (m : Served) (d : CertificateData) (key : String) (s : CertState S)
      → served s ≡ m
      → validate_signing_material keys d.certificate key ≡ ok tt
      → Leaves m (IsRefreshed m) (refresh keys formats crypto cert_key id read_file d key s)
  unfolding refresh Leaves
  refresh-IsRefreshed m d key s h valid =
      Keeps-then m (IsRefreshed m) _ (certificate formats crypto cert_key id s)
        (certificate-Keeps formats crypto cert_key id m s h)
        λ current t k.
          Keeps-then m (IsRefreshed m) _ (signing_key_from_storage formats crypto cert_key id t)
            (signing_key-Keeps formats crypto cert_key id m t k)
            λ current_key u l.
              elim (Bool-cases
                (is_same keys formats crypto cert_key id read_file current current_key d key)) [
                  | inl same ↦ rw same (inl l)
                  | inr other ↦ rw other (
                      Leaves-after m (λ done. Serves formats crypto cert_key id d.certificate key)
                        (IsRefreshed m) (λ _. Action.pure d)
                        (persist_crypto_material formats crypto cert_key id d key u)
                        (persist_crypto_material-Serves m d key u l)
                        (λ done v serves. inr (key, valid, serves)))
                ]

  -- A refresh of given material that fails or panics, wherever it does, has left the cached chain
  -- and the active signing material as they were; one that succeeds has left them so, too, or it
  -- has replaced both by the chain of the new certificate, with a key that the certificate was
  -- checked against.
  pub provision-IsRefreshed :
      (certificate_source signing_key_source : MaterialSource) (now : ℤ) (s : CertState S)
      → Leaves (served s) (IsRefreshed (served s)) (
          provision keys formats crypto cert_key id read_file certificate_source signing_key_source
            now s)
  unfolding provision
  provision-IsRefreshed certificate_source signing_key_source now s =
      let m = served s in
      Keeps-then m (IsRefreshed m) _
        (load_source keys formats crypto cert_key id read_file certificate_source "certificate" s)
        (load_source-Keeps m certificate_source "certificate" s refl)
        λ bytes t h.
          Keeps-then m (IsRefreshed m) _
            (load_source keys formats crypto cert_key id read_file signing_key_source "signing key"
              t)
            (load_source-Keeps m signing_key_source "signing key" t h)
            λ key_bytes u k.
              lift_then m (IsRefreshed m) _ (normalize_pkcs8_key keys key_bytes) u k λ key e.
                lift_then m (IsRefreshed m) _ (certificate_data_from_der_or_pem keys now bytes) u k
                  λ d f.
                    lift_then m (IsRefreshed m) _
                      (map_err (λ e. CertError.validation (show_error e))
                        (validate_signing_material keys d.certificate key))
                      u k λ done g. refresh-IsRefreshed m d key u k (map_err-eq-ok _ _ g)
