-- ===== src/Tests/Storage.antt =====
-- The storage of certificates over a backend and a cache that are both kept in the state.
use text.Mathlib.Text.{◌==◌ as str_eq}
use text.Mathlib.TextEquality.{eq_iff}
use status_list_server.Base.{
  String, Option, none, some, List, [], ◌∷◌, if◌then◌else◌, Bool-cases, ok, ◌≡◌, refl, sym, arith,
  ◌⊎◌, inl, inr, pos,
}
use status_list_server.Base.Chars.{to_ascii_lowercase}
use status_list_server.Certificates.Storage.{
  CryptoStorage, load_certificate_data, load_with_cache, store_certificate_data,
  update_certificate_data,
}
use status_list_server.Certificates.Storage.Told.{Told}
use status_list_server.Certificates.Storage.Coherence.{Elsewhere, IsKept}
use status_list_server.Certificates.Storage.Loads.{
  Use, loads, stores_secret, deletes_secret, all_used, Loads,
}
use status_list_server.Certificates.Manager.{
  CertificateData, CertState, Formats, persist_certificate_data,
}
use status_list_server.Certificates.Manager.Persists.{load_certificate_data-Loads}

abbrev Values : Type 0
Values = String → Option String

abbrev with : String → Option String → Values → Values
with key o values = λ k. if str_eq key k then o else values k

-- The backend and the cache.
abbrev Both : Type 0
Both = Values × Values

abbrev cached : Both → Values
cached s = s.1

-- The names of the backend are in small letters.
abbrev slot : String → String
slot key = to_ascii_lowercase key

abbrev stored : Both → Values
stored s k = s.0 (slot k)

abbrev create : Option String → String → String → Both → Both
create none key value s = (with (slot key) (some value) s.0, s.1)
create (some old) key value s = s

-- What is stored under a key is found under its name; a store keeps what is there.
abbrev crypto : CryptoStorage Both
crypto = record {
  backend = record {
    store = λ key value s. (ok tt, create (s.0 (slot key)) key value s);
    load = λ key s. (ok (s.0 (slot key)), s);
    update = λ key value s. (ok tt, (with (slot key) (some value) s.0, s.1));
    delete = λ key s. (ok tt, (with (slot key) none s.0, s.1));
  };
  certificate_cache = record {
    get = λ key s. (ok (s.1 key), s);
    put = λ key value s. (ok tt, (s.0, with key (some value) s.1));
    invalidate = λ key s. (ok tt, (s.0, with key none s.1));
  };
  signing_key_cache = none;
}

with_self : (key : String) (o : Option String) (values : Values) → with key o values key ≡ o
with_self key o values = rw ((eq_iff key key).1 refl) refl

with_other :
    (key : String) (o : Option String) (values : Values) (k : String)
    → ¬ (k ≡ key)
    → with key o values k ≡ values k
with_other key o values k other = elim (Bool-cases (str_eq key k)) [
  | inl same ↦ absurd (other (sym ((eq_iff key k).0 same)))
  | inr differ ↦ rw differ refl
]

with_cases :
    (key value : String) (values : Values) (k v : String)
    → with key (some value) values k ≡ some v
    → ((¬ (k ≡ key)) × (values k ≡ some v)) ⊎ ((k ≡ key) × (v ≡ value))
with_cases key value values k v e = elim (Bool-cases (str_eq key k)) [
  | inl same ↦ inr (sym ((eq_iff key k).0 same), grind arith)
  | inr differ ↦ inl ((λ h. grind (arith, eq_iff key k)), grind arith)
]

elsewhere :
    (o : Option String) (key value : String) (s : Both)
    → Elsewhere crypto "Cert" slot stored cached key s (create o key value s)
elsewhere none key value s = ((λ k. with_other (slot key) (some value) s.0 (slot k)), λ k v e. e)
elsewhere (some old) key value s = ((λ k other. refl), λ k v e. e)

crypto-IsKept : IsKept crypto "Cert" slot stored cached
unfolding Told
crypto-IsKept = record {
  load = λ key s. ((λ k. refl), λ k v e. e);
  loaded = λ key s. refl;
  store = λ key value s. elsewhere (s.0 (slot key)) key value s;
  created = λ key value s free. rw free (with_self (slot key) (some value) s.0);
  update = λ key value s. ((λ k. with_other (slot key) (some value) s.0 (slot k)), λ k v e. e);
  updated = λ key value s. with_self (slot key) (some value) s.0;
  delete = λ key s. ((λ k. with_other (slot key) none s.0 (slot k)), λ k v e. e);
  get = λ key s. (s.1 key, s, refl, ((λ k. refl), λ k v e. e), λ v e. e);
  put = λ key value s. (
    (s.0, with key (some value) s.1),
    refl,
    (λ k. refl),
    λ k v e. with_cases key value s.1 k v e,
  );
}

abbrev data_of : String → CertificateData
data_of text = record {
  certificate = text;
  valid_from = pos 0;
  expires_at = pos 9;
  updated_at = pos 5;
}

abbrev formats : Formats
formats = record {
  to_json = λ d. ok d.certificate;
  from_json = λ text. ok (data_of text);
  pem_blocks = λ pem. ok pem ∷ [];
}

-- An old certificate is stored and cached.
abbrev start : CertState Both
start = record {
  stored = (with "cert" (some "old") (λ k. none), with "Cert" (some "old") (λ k. none));
  cert_chain_cache = none;
  active_signing_material = none;
}

abbrev renewed : CertState Both
renewed = (persist_certificate_data formats (some crypto) "Cert" "key" (data_of "new") start).1

persists :
    persist_certificate_data formats (some crypto) "Cert" "key" (data_of "new") start
    ≡ (ok tt, renewed)
unfolding persist_certificate_data load_certificate_data load_with_cache store_certificate_data
    update_certificate_data
persists = refl

abbrev uses : List Use
uses = stores_secret "account" "secret" ∷ loads ∷ deletes_secret "account" ∷ []

apart : ¬ (slot "Cert" ≡ slot "account")
unfolding to_ascii_lowercase
apart e = grind (arith, eq_iff "cert" "account")

load_certificate_data-Loads_example :
    (value : String) × (formats.to_json (data_of "new") ≡ ok value)
    × Loads crypto "Cert" slot stored cached value (
        load_certificate_data crypto "Cert"
          (all_used crypto "Cert" slot stored cached uses renewed.stored))
load_certificate_data-Loads_example =
    load_certificate_data-Loads crypto "Cert" slot stored cached crypto-IsKept formats "key"
      (data_of "new") start renewed uses persists (apart, (tt, (apart, tt)))
