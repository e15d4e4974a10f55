-- ===== src/Certificates/Acme/Requests.antt =====
-- src/utils/cert_manager.rs: `acme_account`, `poll_order` and
-- `request_acme_certificate`. The waits between polls are the client's.
use Prim.Native.String as Str
use status_list_server.Base.{
  ℤ, String, Option, none, some, List, [], ◌∷◌, if◌then◌else◌, Outcome, ok, err, panic, map_err,
  ok_or,
}
use status_list_server.Base.Action.{Action, ◌>>=◌, ◌>>◌, pure, lift, attempt}
use status_list_server.Certificates.Storage.{
  CryptoStorage, load_secret, store_secret, delete_secret,
}
use status_list_server.Certificates.Manager.{
  CertError, CertificateData, CertState, Formats, within, crypto_storage, signing_key_pem,
  persist_certificate_data, cache_provisioned_chain, store_active_signing_material,
}
use status_list_server.Certificates.Provision.{KeyMaterial, certificate_data_from_pem}
use status_list_server.Certificates.Acme.{
  AcmeClient, CsrWriter, Cleanup, ChallengeHandler, AcmeSettings, AcmeState, calling, run_cleanups,
  on_manager, remember,
}
use status_list_server.Certificates.Acme.Csr.{generate_csr}

module _ {S Http Account Credentials Order Authz Params Pair Key : Type 0}
    (client : AcmeClient S Http Account Credentials Order Authz) (csr : CsrWriter Params Pair)
    (keys : KeyMaterial Key) (formats : Formats) (debug : List String → String)
    (crypto : Option (CryptoStorage S)) (cert_key signing_secret_id account_id : String)
    (self : AcmeSettings S Http Authz) where
  abbrev pub http_client : Outcome CertError Http
  http_client =
      ok_or self.acme_http_client_factory (CertError.other "ACME HTTP client factory not set")

  abbrev pub new_account : CryptoStorage S → Action CertError (AcmeState S Account) Account
  new_account material_storage = do
    http ← lift http_client
    made ← on_manager (
        calling CertError.acme
          (client.create http (Str.◌++◌ "mailto:" self.email) self.acme_directory_url))
    credentials ← lift (map_err CertError.serde (client.to_json made.1))
    on_manager (within (store_secret material_storage account_id credentials))
    remember made.0

  abbrev pub recreated :
      CryptoStorage S → Outcome CertError Account → Action CertError (AcmeState S Account) Account
  recreated material_storage (ok account) = remember account
  recreated material_storage (err e) =
      on_manager (within (delete_secret material_storage account_id))
      >> new_account material_storage
  recreated material_storage panic = λ s. (panic, s)

  abbrev pub from_stored :
      CryptoStorage S → Option String → Action CertError (AcmeState S Account) Account
  from_stored material_storage none = new_account material_storage
  from_stored material_storage (some text) = do
    credentials ← lift (map_err CertError.serde (client.from_json text))
    http ← lift http_client
    attempt (on_manager (calling CertError.acme (client.from_credentials http credentials)))
        λ result. recreated material_storage result

  abbrev pub known_or_loaded :
      CryptoStorage S → Option Account → Action CertError (AcmeState S Account) Account
  known_or_loaded material_storage (some account) = pure account
  known_or_loaded material_storage none =
      on_manager (within (load_secret material_storage account_id)) >>= λ found.
      from_stored material_storage found

  -- The lock of the account is held to the end, so the call is one step.
  unfoldable pub acme_account : Action CertError (AcmeState S Account) Account
  acme_account = lift (crypto_storage formats crypto cert_key signing_secret_id) >>= λ storage.
      λ s. known_or_loaded storage s.acme_client s

  unfoldable pub process_authorizations :
      ChallengeHandler S Authz
      → List (Action String S Authz)
      → Action CertError (CertState S) (List (Cleanup S))
  process_authorizations handler [] = pure []
  process_authorizations handler (next ∷ authorizations) =
      let others = process_authorizations handler authorizations in
      calling CertError.acme next >>= λ authz.
      if client.is_valid authz
      then others
      else (calling CertError.challenge (handler.handle_authorization authz) >>= λ cleanup.
          others >>= λ cleanups. pure (cleanup ∷ cleanups))

  abbrev pub invalidated : Order → CertError
  invalidated order = CertError.other (
      Str.◌++◌ "Order with url " (
        Str.◌++◌ (client.url order)
          (Str.◌++◌ " for domains " (Str.◌++◌ (debug self.domains) " has been invalidated"))))

  unfoldable pub poll_order : Order → List (Cleanup S) → Action CertError (CertState S) (Unit {0})
  poll_order order cleanups = calling CertError.acme (client.poll_ready order) >>= λ is_ready.
      run_cleanups cleanups >> lift (if is_ready then ok tt else err (invalidated order))

  -- The certificate of an order that is ready.
  unfoldable pub finalize_order : Order → String → Action CertError (CertState S) String
  finalize_order order server_key_pem = do
    csr_der_bytes ← lift (generate_csr csr self server_key_pem)
    calling CertError.acme (client.finalize_csr order csr_der_bytes)
    calling CertError.acme (client.poll_certificate order)

  unfoldable pub serve_certificate :
      ℤ → String → String → Action CertError (CertState S) CertificateData
  serve_certificate now server_key_pem cert_chain_pem = do
    cert_data ← lift (certificate_data_from_pem keys now cert_chain_pem)
    persist_certificate_data formats crypto cert_key signing_secret_id cert_data
    cache_provisioned_chain formats crypto cert_key signing_secret_id cert_data.certificate
    store_active_signing_material formats crypto cert_key signing_secret_id cert_data.certificate
        server_key_pem
    pure cert_data

  -- The order of an account, up to its certificate being served. `generated` is a fresh key.
  unfoldable pub order_certificate :
      ChallengeHandler S Authz
      → ℤ
      → Outcome String String
      → Account
      → Action CertError (CertState S) CertificateData
  order_certificate handler now generated account = do
    order ← calling CertError.acme (client.new_order account self.domains)
    cleanups ← process_authorizations handler (client.authorizations order)
    poll_order order cleanups
    server_key_pem ← signing_key_pem formats crypto cert_key signing_secret_id generated
    cert_chain_pem ← finalize_order order server_key_pem
    serve_certificate now server_key_pem cert_chain_pem

  abbrev pub some_domain : List String → Outcome CertError (Unit {0})
  some_domain [] = err (CertError.other "No domain(s) provided to request a certificate for")
  some_domain (domain ∷ domains) = ok tt

  unfoldable pub request_acme_certificate :
      ℤ → Outcome String String → Action CertError (AcmeState S Account) CertificateData
  request_acme_certificate now generated = do
    storage ← lift (crypto_storage formats crypto cert_key signing_secret_id)
    handler ← lift (ok_or self.challenge_handler (CertError.other "Challenge handler not set"))
    lift (some_domain self.domains)
    account ← acme_account
    on_manager (order_certificate handler now generated account)
