-- ===== src/Certificates/Acme.antt =====
-- The certificates that are ordered by ACME: `request_acme_certificate` of
-- src/utils/cert_manager.rs with its account, the polling of an order and the request that is
-- signed, and the handler of src/utils/cert_manager/challenge/dns01/mod.rs. The client of ACME
-- (instant-acme) and the writer of requests (rcgen) are parameters; what an order holds on the
-- server is part of the state.
pub mod Csr
pub mod Requests
pub mod Serving
pub mod Swaps
pub mod Accounts
pub mod Tidy
pub mod Cleaning
use Prim.Native.String as Str
use status_list_server.Base.{
  ℕ, ℤ, String, Bool, Option, none, some, List, [], ◌∷◌, if◌then◌else◌, Outcome, ok, err, panic,
  map_err, ok_or,
}
use status_list_server.Base.Action.{Action, ◌>>=◌, ◌>>◌, pure, throw, lift, answering, attempt}
use status_list_server.Certificates.Storage.{
  CryptoStorage, load_secret, store_secret, delete_secret,
}
use status_list_server.Certificates.Challenge.Records.{ChallengeError, DnsProvider}
use status_list_server.Certificates.Manager.{
  CertError, CertificateData, CertState, Formats, within, crypto_storage, signing_key_pem,
  persist_certificate_data, cache_provisioned_chain, store_active_signing_material,
}
use status_list_server.Certificates.Provision.{KeyMaterial, certificate_data_from_pem}

-- The client of ACME. An error is the text that it displays.
pub record AcmeClient (S Http Account Credentials Order Authz : Type 0) : Type 0 where
  pub from_json : String → Outcome String Credentials
  pub to_json : Credentials → Outcome String String
  pub from_credentials : Http → Credentials → Action String S Account
  -- A new account with a contact, at the directory.
  pub create : Http → String → String → Action String S (Account × Credentials)
  pub new_order : Account → List String → Action String S Order
  -- The authorizations of an order, each fetched when it is its turn.
  pub authorizations : Order → List (Action String S Authz)
  pub is_valid : Authz → Bool
  -- Whether the state that the polling ends with is `OrderStatus::Ready`.
  pub poll_ready : Order → Action String S Bool
  pub url : Order → String
  pub finalize_csr : Order → List ℕ → Action String S (Unit {0})
  pub poll_certificate : Order → Action String S String

-- The writer of requests for a certificate.
pub record CsrWriter (Params Pair : Type 0) : Type 0 where
  pub new : List String → Outcome String Params
  pub distinguished_name : String → Option String → Params → Params
  pub extended_key_usages : List ℕ → Params → Params
  pub digital_signature : Params → Params
  pub from_pem : String → Outcome String Pair
  pub serialize_request : Params → Pair → Outcome String (List ℕ)

-- `CleanupFuture`.
abbrev pub Cleanup : Type 0 → Type 0
Cleanup S = Action ChallengeError S (Unit {0})

pub record ChallengeHandler (S Authz : Type 0) : Type 0 where
  pub handle_authorization : Authz → Action ChallengeError S (Cleanup S)

-- What an authorization offers: its DNS-01 challenge, the value of the TXT record, the domain.
pub record Challenges (S Authz Challenge : Type 0) : Type 0 where
  pub dns01 : Authz → Option Challenge
  pub dns_value : Challenge → String
  pub identifier : Challenge → String
  pub set_ready : Challenge → Action String S (Unit {0})

unfoldable pub dns01_handler :
    {S Authz Challenge : Type 0}
    → Challenges S Authz Challenge
    → DnsProvider S
    → ChallengeHandler S Authz
dns01_handler challenges dns_provider = record {
  handle_authorization = λ authz. do
    challenge ←
        lift (ok_or (challenges.dns01 authz) (ChallengeError.other "No DNS-01 challenge found"))
    dns_provider.create_txt_record (challenges.identifier challenge)
        (challenges.dns_value challenge)
    answering ChallengeError.other (challenges.set_ready challenge)
    pure (
        dns_provider.delete_txt_record (challenges.identifier challenge)
          (challenges.dns_value challenge));
}

-- The settings of the manager that an order is made of.
pub record AcmeSettings (S Http Authz : Type 0) : Type 0 where
  pub challenge_handler : Option (ChallengeHandler S Authz)
  pub acme_http_client_factory : Option Http
  pub domains : List String
  pub email : String
  pub organization : Option String
  pub eku : Option (List ℕ)
  pub acme_directory_url : String

-- The manager with the account that it keeps.
pub record AcmeState (S Account : Type 0) : Type 0 where
  pub manager : CertState S
  pub acme_client : Option Account

module _ {S : Type 0} where
  abbrev reworded :
      {E A : Type 0}
      → (E → CertError)
      → CertState S
      → Outcome E A × S
      → Outcome CertError A × CertState S
  reworded f s (m, t) = (map_err f m, record s { stored = t })

  -- `call().await?` of the client and of a challenge.
  abbrev pub calling :
      {E A : Type 0} → (E → CertError) → Action E S A → Action CertError (CertState S) A
  calling f m s = reworded f s (m s.stored)

  -- The errors of a cleanup are only logged.
  unfoldable pub run_cleanups : List (Cleanup S) → Action CertError (CertState S) (Unit {0})
  run_cleanups [] = pure tt
  run_cleanups (cleanup ∷ cleanups) =
      attempt (calling CertError.challenge cleanup) λ result. run_cleanups cleanups

module _ {S Account : Type 0} where
  abbrev pub kept :
      {A : Type 0}
      → AcmeState S Account
      → Outcome CertError A × CertState S
      → Outcome CertError A × AcmeState S Account
  kept s (m, t) = (m, record s { manager = t })

  -- A step that leaves the account.
  abbrev pub on_manager :
      {A : Type 0} → Action CertError (CertState S) A → Action CertError (AcmeState S Account) A
  on_manager m s = kept s (m s.manager)

  abbrev pub remember : Account → Action CertError (AcmeState S Account) Account
  remember account s = (ok account, record s { acme_client = some account })
