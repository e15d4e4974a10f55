-- ===== src/Certificates/Manager/Steps.antt =====
-- What the steps of `CertManager` in src/utils/cert_manager.rs leave of the served material.
use status_list_server.Base.{
  none, ◌-◌, String, Option, some, List, if◌then◌else◌, Outcome, ok, err, panic, map_err, is_some,
  ◌≡◌, ap,
}
use status_list_server.Base.Action.{lift}
use status_list_server.Certificates.Storage.{
  CryptoStorage, load_certificate_data, update_certificate_data, store_certificate_data,
  load_signing_key, update_signing_key, store_signing_key,
}
use status_list_server.Certificates.Manager.{
  CertError, CertificateData, CertState, Formats, crypto_storage, parse_cert_chain_parts, read_data,
  certificate, signing_key_from_storage, signing_key_pem, store_retrying, key_or_new, max_retries,
  persist_certificate_data, persist_signing_key, cache_provisioned_chain,
  store_active_signing_material,
}
use status_list_server.Certificates.Manager.Served.{
  Served, served, Leaves, Keeps, within-Keeps, Keeps-then, reads_then, lift_then,
}

module _ {S : Type 0} (formats : Formats) (crypto : Option (CryptoStorage S))
    (cert_key id : String) where
  pub persist_certificate_data-Keeps :
      (m : Served) (d : CertificateData) (s : CertState S)
      → served s ≡ m
      → Keeps m (persist_certificate_data formats crypto cert_key id d s)
  unfolding persist_certificate_data
  persist_certificate_data-Keeps m d s h =
      lift_then m (λ a s. served s ≡ m) _ (map_err CertError.serde (formats.to_json d)) s h
        λ serialized e.
          lift_then m (λ a s. served s ≡ m) _ (crypto_storage formats crypto cert_key id) s h
            λ store f.
              reads_then m (load_certificate_data store cert_key)
                (λ found.
                  if is_some found
                  then update_certificate_data store cert_key serialized
                  else store_certificate_data store cert_key serialized)
                s h

  pub persist_signing_key-Keeps :
      (m : Served) (key : String) (s : CertState S)
      → served s ≡ m
      → Keeps m (persist_signing_key formats crypto cert_key id key s)
  unfolding persist_signing_key
  persist_signing_key-Keeps m key s h =
      lift_then m (λ a s. served s ≡ m) _ (crypto_storage formats crypto cert_key id) s h
        λ store f.
          reads_then m (load_signing_key store id)
            (λ found.
              if is_some found
              then update_signing_key store id key
              else store_signing_key store id key)
            s h

  pub certificate-Keeps :
      (m : Served) (s : CertState S)
      → served s ≡ m
      → Keeps m (certificate formats crypto cert_key id s)
  unfolding certificate Leaves
  certificate-Keeps m s h =
      lift_then m (λ a s. served s ≡ m) _ (crypto_storage formats crypto cert_key id) s h
        λ store f.
          Keeps-then m (λ a s. served s ≡ m)
            (λ found. lift (read_data formats crypto cert_key id found)) _
            (within-Keeps m (load_certificate_data store cert_key) s h) reads
    where
      reads :
          (found : Option String) (t : CertState S)
          → served t ≡ m
          → Keeps m (lift (read_data formats crypto cert_key id found) t)
      reads found t k = lifted (read_data formats crypto cert_key id found)
        where
          lifted : (x : Outcome CertError (Option CertificateData)) → Keeps m (lift x t)
          lifted (ok a) = k
          lifted (err e) = k
          lifted panic = k

  pub signing_key-Keeps :
      (m : Served) (s : CertState S)
      → served s ≡ m
      → Keeps m (signing_key_from_storage formats crypto cert_key id s)
  unfolding signing_key_from_storage
  signing_key-Keeps m s h =
      lift_then m (λ a s. served s ≡ m) _ (crypto_storage formats crypto cert_key id) s h
        λ store f. within-Keeps m (load_signing_key store id) s h

  -- The new material is served: the chain of the certificate, in both places, with the key.
  abbrev pub Serves : String → String → CertState S → Type 0
  Serves cert_pem key s =
      (chain : List String) × (parse_cert_chain_parts formats crypto cert_key id cert_pem
        ≡ ok chain)
      × (served s
          ≡ (some chain, some (record { certificate_chain = some chain; signing_key_pem = key })))

  abbrev pub Cached : Served → String → CertState S → Type 0
  Cached m cert_pem s =
      (chain : List String) × (parse_cert_chain_parts formats crypto cert_key id cert_pem
        ≡ ok chain)
      × (served s ≡ (some chain, m.1))

  pub caches :
      (m : Served) (cert_pem : String) (s : CertState S)
      → served s ≡ m
      → Leaves m
          (λ done. Cached m cert_pem)
          (cache_provisioned_chain formats crypto cert_key id cert_pem s)
  unfolding cache_provisioned_chain Leaves
  caches m cert_pem s h =
      lift_then m (λ done. Cached m cert_pem) _
        (parse_cert_chain_parts formats crypto cert_key id cert_pem) s h
        λ chain e. (chain, e, ap (λ (v : Served). (some chain, v.1)) h)

  pub activates :
      (m : Served) (cert_pem key : String) (s : CertState S)
      → Cached m cert_pem s
      → Leaves m
          (λ done. Serves cert_pem key)
          (store_active_signing_material formats crypto cert_key id cert_pem key s)
  unfolding store_active_signing_material Leaves
  activates m cert_pem key s (chain, e, h) = rw e (
    chain,
    e,
    ap
        (λ (v : Served).
          (v.0, some (record { certificate_chain = some chain; signing_key_pem = key })))
        h,
  )

  key_or_new-Keeps :
      (m : Served) (store : CryptoStorage S) (generated : Outcome String String)
      (found : Option String) (s : CertState S)
      → served s ≡ m
      → Keeps m (key_or_new formats crypto cert_key id store generated found s)
  unfolding Leaves
  key_or_new-Keeps m store generated (some key) s h = h
  key_or_new-Keeps m store generated none s h =
      lift_then m (λ a s. served s ≡ m) _ (map_err CertError.key_op generated) s h
        λ key e.
          within-Keeps m (store_retrying formats crypto cert_key id store key (max_retries - 1)) s h

  pub signing_key_pem-Keeps :
      (m : Served) (generated : Outcome String String) (s : CertState S)
      → served s ≡ m
      → Keeps m (signing_key_pem formats crypto cert_key id generated s)
  unfolding signing_key_pem
  signing_key_pem-Keeps m generated s h =
      lift_then m (λ a s. served s ≡ m) _ (crypto_storage formats crypto cert_key id) s h
        λ store f.
          Keeps-then m (λ a s. served s ≡ m) _ _ (within-Keeps m (load_signing_key store id) s h)
            λ found t k. key_or_new-Keeps m store generated found t k
