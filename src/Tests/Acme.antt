-- ===== src/Tests/Acme.antt =====
-- The theorems on ACME orders, over a zone whose TXT records are the state.
use text.Mathlib.Text.{◌==◌ as str_eq}
use text.Mathlib.TextEquality.{eq_iff}
use status_list_server.Base.{
  pos, String, Bool, Bool-cases, true, false, not, ◌&&◌, ◌||◌, none, some, List, [], ◌∷◌, ok, ◌≡◌,
  refl, arith, ◌⊎◌, inl, inr,
}
use status_list_server.Base.Action.{pure}
use status_list_server.Certificates.Storage.{
  Storage, MaterialCache, CryptoStorage, load_secret, store_secret, load_signing_key,
  store_signing_key, load_with_cache, load_certificate_data, store_certificate_data,
}
use status_list_server.Certificates.Provision.{certificate_data_from_pem, parse_cert_pem}
use status_list_server.Certificates.Acme.Csr.{generate_csr}
use status_list_server.Certificates.Challenge.Records.{DnsProvider}
use status_list_server.Certificates.Manager.{
  CertState, signing_key_pem, store_retrying, persist_certificate_data, cache_provisioned_chain,
  store_active_signing_material, parse_cert_chain_parts,
}
use status_list_server.Certificates.Acme.{
  AcmeClient, CsrWriter, Challenges, AcmeSettings, AcmeState, Cleanup, dns01_handler, run_cleanups,
}
use status_list_server.Certificates.Acme.Tidy.{Txt, NoNew, IsTidy}
use status_list_server.Certificates.Manager.Served.{served}
use status_list_server.Certificates.Acme.Requests.{
  acme_account, process_authorizations, poll_order, request_acme_certificate, order_certificate,
  finalize_order, serve_certificate,
}
use status_list_server.Certificates.Acme.Serving.{IsOrdered}
use status_list_server.Certificates.Acme.Swaps.{Ends, request_acme_certificate-IsOrdered}
use status_list_server.Certificates.Acme.Accounts.{acme_account-Repeats}
use status_list_server.Certificates.Acme.Cleaning.{poll_order-Cleans}
use status_list_server.Tests.Certificates.{formats, keys}

-- Which records stand.
abbrev Zone : Type 0
Zone = Txt → Bool

abbrev same_txt : Txt → Txt → Bool
same_txt r x = str_eq r.0 x.0 && str_eq r.1 x.1

abbrev stands : Zone → Txt → Bool
stands zone r = zone r

abbrev zones : DnsProvider Zone
zones = record {
  create_txt_record = λ domain value zone. (ok tt, λ r. same_txt r (domain, value) || zone r);
  delete_txt_record = λ domain value zone. (ok tt, λ r. not (same_txt r (domain, value)) && zone r);
}

same_txt-eq : (r x : Txt) → same_txt r x ≡ true → r ≡ x
same_txt-eq r x h = grind (arith, eq_iff r.0 x.0, eq_iff r.1 x.1)

same_txt_refl : (r : Txt) → same_txt r r ≡ true
same_txt_refl r = rw ((eq_iff r.0 r.0).1 refl, (eq_iff r.1 r.1).1 refl) refl

creates-stands :
    (domain value : String) (s : Zone) (r : Txt)
    → (same_txt r (domain, value) || s r) ≡ true
    → (s r ≡ true) ⊎ (r ≡ (domain, value))
creates-stands domain value s r h = elim (Bool-cases (same_txt r (domain, value))) [
  | inl same ↦ inr (same_txt-eq r (domain, value) same)
  | inr other ↦ inl (grind arith)
]

deletes-gone :
    (domain value : String) (s : Zone)
    → ((r : Txt) → (not (same_txt r (domain, value)) && s r) ≡ true → s r ≡ true)
      × ¬ ((not (same_txt (domain, value) (domain, value)) && s (domain, value)) ≡ true)
deletes-gone domain value s = (
  λ r h. elim (Bool-cases (same_txt r (domain, value))) [
    | inl same ↦ grind arith
    | inr other ↦ grind arith
  ],
  λ h. grind (arith, same_txt_refl (domain, value)),
)

abbrev storage : Storage Zone
storage = record {
  store = λ key value. pure tt;
  load = λ key. pure none;
  update = λ key value. pure tt;
  delete = λ key. pure tt;
}

abbrev no_cache : MaterialCache Zone
no_cache = record {
  get = λ key. pure none;
  put = λ key value. pure tt;
  invalidate = λ key. pure tt;
}

abbrev crypto : CryptoStorage Zone
crypto = record { backend = storage; certificate_cache = no_cache; signing_key_cache = none }

-- An authorization is its domain. That of `done.example` is valid already.
abbrev client : AcmeClient Zone Bool String String (List String) String
client = record {
  from_json = ok;
  to_json = ok;
  from_credentials = λ http credentials. pure credentials;
  create = λ http contact directory. pure ("account", "credentials");
  new_order = λ account domains. pure domains;
  authorizations = λ order. pure "a.example" ∷ pure "done.example" ∷ [];
  is_valid = λ authz. str_eq authz "done.example";
  poll_ready = λ order. pure true;
  url = λ order. "order";
  finalize_csr = λ order request. pure tt;
  poll_certificate = λ order. pure "chain";
}

abbrev challenges : Challenges Zone String String
challenges = record {
  dns01 = some;
  dns_value = λ challenge. "digest";
  identifier = λ challenge. challenge;
  set_ready = λ challenge. pure tt;
}

abbrev writer : CsrWriter (List String) String
writer = record {
  new = ok;
  distinguished_name = λ name organization params. params;
  extended_key_usages = λ eku params. params;
  digital_signature = λ params. params;
  from_pem = ok;
  serialize_request = λ params pair. ok (1 ∷ []);
}

abbrev settings : AcmeSettings Zone Bool String
settings = record {
  challenge_handler = some (dns01_handler challenges zones);
  acme_http_client_factory = some true;
  domains = "a.example" ∷ "done.example" ∷ [];
  email = "ops@a.example";
  organization = none;
  eku = some (1 ∷ 3 ∷ []);
  acme_directory_url = "directory";
}

abbrev debug : List String → String
debug domains = "domains"

abbrev manager : CertState Zone
manager = record { stored = λ r. false; cert_chain_cache = none; active_signing_material = none }

abbrev start : AcmeState Zone String
start = record { manager = manager; acme_client = none }

abbrev with_account : AcmeState Zone String
with_account = record { manager = manager; acme_client = some "account" }

request_acme_certificate-IsOrdered_example :
    Ends
      (served manager)
      (IsOrdered client writer keys formats debug (some crypto) "cert" "key" "acme" settings)
      (request_acme_certificate client writer keys formats debug
        (some crypto)
        "cert"
        "key"
        "acme"
        settings
        (pos 5)
        (ok "pem")
        start)
request_acme_certificate-IsOrdered_example =
    request_acme_certificate-IsOrdered client writer keys formats debug (some crypto) "cert" "key"
      "acme" settings (pos 5) (ok "pem") start

orders_a_certificate :
    (request_acme_certificate client writer keys formats debug
      (some crypto)
      "cert"
      "key"
      "acme"
      settings
      (pos 5)
      (ok "pem")
      start).0
    ≡ ok (record {
      certificate = "chain";
      valid_from = pos 0;
      expires_at = pos 9;
      updated_at = pos 5;
    })
unfolding request_acme_certificate acme_account load_secret store_secret order_certificate
    process_authorizations dns01_handler poll_order run_cleanups signing_key_pem store_retrying
    load_signing_key store_signing_key finalize_order generate_csr serve_certificate
    certificate_data_from_pem persist_certificate_data load_with_cache load_certificate_data
    store_certificate_data cache_provisioned_chain store_active_signing_material
    parse_cert_chain_parts parse_cert_pem
orders_a_certificate = refl

zones-IsTidy : IsTidy stands client challenges zones
zones-IsTidy = record {
  creates = creates-stands;
  deletes =
      λ domain value s. let (others, gone) = deletes-gone domain value s in (_, refl, others, gone);
  readies = λ challenge s r h. h;
  fetches = λ order. ((λ s r h. h), ((λ s r h. h), tt));
  polls = λ order s r h. h;
}

makes_an_account :
    acme_account client writer keys formats debug (some crypto) "cert" "key" "acme" settings start
    ≡ (ok "account", with_account)
unfolding acme_account load_secret store_secret
makes_an_account = refl

acme_account-Repeats_example :
    acme_account client writer keys formats debug
      (some crypto)
      "cert"
      "key"
      "acme"
      settings
      with_account
    ≡ (ok "account", with_account)
acme_account-Repeats_example =
    acme_account-Repeats client writer keys formats debug (some crypto) "cert" "key" "acme" settings
      start with_account with_account "account" makes_an_account refl

-- The record of the one authorization that was not valid stands.
abbrev challenged : CertState Zone
challenged = record manager { stored = λ r. same_txt r ("a.example", "digest") || false }

abbrev cleanups : List (Cleanup Zone)
cleanups = zones.delete_txt_record "a.example" "digest" ∷ []

makes_a_record :
    process_authorizations client writer keys formats debug
      (some crypto)
      "cert"
      "key"
      "acme"
      settings
      (dns01_handler challenges zones)
      (client.authorizations settings.domains)
      manager
    ≡ (ok cleanups, challenged)
unfolding process_authorizations dns01_handler
makes_a_record = refl

poll_order-Cleans_example :
    (v : CertState Zone) × (poll_order client writer keys formats debug
        (some crypto)
        "cert"
        "key"
        "acme"
        settings
        settings.domains
        cleanups
        challenged
      ≡ (ok tt, v))
    × NoNew stands manager.stored v.stored
poll_order-Cleans_example =
    poll_order-Cleans stands client challenges zones zones-IsTidy writer keys formats debug
      (some crypto) "cert" "key" "acme" settings settings.domains cleanups true manager challenged
      challenged.stored makes_a_record refl
