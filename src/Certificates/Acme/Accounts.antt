-- ===== src/Certificates/Acme/Accounts.antt =====
-- The account that `acme_account` of src/utils/cert_manager.rs keeps.
use status_list_server.Base.{
  String, Option, none, some, List, Outcome, ok, err, panic, map_err, ◌≡◌, refl, ◌∙◌,
}
use mathlib.Core.Path.{subst}
use status_list_server.Base.Action.{Action, after, resume, lift}
use status_list_server.Certificates.Storage.{
  CryptoStorage, load_secret, store_secret, delete_secret,
}
use status_list_server.Certificates.Manager.{CertError, CertState, Formats, within, crypto_storage}
use status_list_server.Certificates.Provision.{KeyMaterial}
use status_list_server.Certificates.Acme.{
  AcmeClient, CsrWriter, AcmeSettings, AcmeState, calling, kept,
}
use status_list_server.Certificates.Acme.Requests.{
  http_client, new_account, recreated, from_stored, known_or_loaded, acme_account,
}

module _ {S Account : Type 0} where
  -- What succeeds keeps its account; what does not leaves the one that was kept.
  unfoldable Remembers : Option Account → Outcome CertError Account × AcmeState S Account → Type 0
  Remembers c (ok account, s) = s.acme_client ≡ some account
  Remembers c (err e, s) = s.acme_client ≡ c
  Remembers c (panic, s) = s.acme_client ≡ c

  kept_then :
      {A : Type 0} (c : Option Account) (k : A → Action CertError (AcmeState S Account) Account)
      (s : AcmeState S Account) (x : Outcome CertError A × CertState S)
      → s.acme_client ≡ c
      → ((a : A) (t : AcmeState S Account) → t.acme_client ≡ c → Remembers c (k a t))
      → Remembers c (after k (kept s x))
  unfolding Remembers
  kept_then c k s (ok a, t) h next = next a (record s { manager = t }) h
  kept_then c k s (err e, t) h next = h
  kept_then c k s (panic, t) h next = h

  lifted_then :
      {A : Type 0} (c : Option Account) (k : A → Action CertError (AcmeState S Account) Account)
      (s : AcmeState S Account) (x : Outcome CertError A)
      → s.acme_client ≡ c
      → ((a : A) → Remembers c (k a s))
      → Remembers c (after k (lift x s))
  unfolding Remembers
  lifted_then c k s (ok a) h next = next a
  lifted_then c k s (err e) h next = h
  lifted_then c k s panic h next = h

  attempted_then :
      {A : Type 0} (c : Option Account)
      (k : Outcome CertError A → Action CertError (AcmeState S Account) Account)
      (s : AcmeState S Account) (x : Outcome CertError A × CertState S)
      → s.acme_client ≡ c
      → ((r : Outcome CertError A) (t : AcmeState S Account)
          → t.acme_client ≡ c
          → Remembers c (k r t))
      → Remembers c (resume k (kept s x))
  unfolding Remembers
  attempted_then c k s (ok a, t) h next = next (ok a) (record s { manager = t }) h
  attempted_then c k s (err e, t) h next = next (err e) (record s { manager = t }) h
  attempted_then c k s (panic, t) h next = h

module _ {S Http Account Credentials Order Authz Params Pair Key : Type 0}
    (client : AcmeClient S Http Account Credentials Order Authz) (csr : CsrWriter Params Pair)
    (keys : KeyMaterial Key) (formats : Formats) (debug : List String → String)
    (crypto : Option (CryptoStorage S)) (cert_key id account_id : String)
    (self : AcmeSettings S Http Authz) where
  new_account-Remembers :
      (c : Option Account) (store : CryptoStorage S) (s : AcmeState S Account)
      → s.acme_client ≡ c
      → Remembers c
          (new_account client csr keys formats debug crypto cert_key id account_id self store s)
  unfolding Remembers
  new_account-Remembers c store s h =
      lifted_then c _ s
        (http_client client csr keys formats debug crypto cert_key id account_id self) h
        λ http.
          kept_then c _ s
            (calling CertError.acme (client.create http _ self.acme_directory_url) s.manager) h
            λ made t k.
              lifted_then c _ t (map_err CertError.serde (client.to_json made.1)) k λ text.
                kept_then c _ t (within (store_secret store account_id text) t.manager) k
                  λ done u l. refl

  recreated-Remembers :
      (c : Option Account) (store : CryptoStorage S) (result : Outcome CertError Account)
      (s : AcmeState S Account)
      → s.acme_client ≡ c
      → Remembers c (
          recreated client csr keys formats debug crypto cert_key id account_id self store result s)
  unfolding Remembers
  recreated-Remembers c store (ok account) s h = refl
  recreated-Remembers c store (err e) s h =
      kept_then c _ s (within (delete_secret store account_id) s.manager) h
        λ done t k. new_account-Remembers c store t k
  recreated-Remembers c store panic s h = h

  from_stored-Remembers :
      (c : Option Account) (store : CryptoStorage S) (found : Option String)
      (s : AcmeState S Account)
      → s.acme_client ≡ c
      → Remembers c (
          from_stored client csr keys formats debug crypto cert_key id account_id self store found
            s)
  from_stored-Remembers c store none s h = new_account-Remembers c store s h
  from_stored-Remembers c store (some text) s h =
      lifted_then c _ s (map_err CertError.serde (client.from_json text)) h λ credentials.
        lifted_then c _ s
          (http_client client csr keys formats debug crypto cert_key id account_id self) h
          λ http.
            attempted_then c
              (λ r.
                recreated client csr keys formats debug crypto cert_key id account_id self store r)
              s (calling CertError.acme (client.from_credentials http credentials) s.manager) h
              λ result t k. recreated-Remembers c store result t k

  known_or_loaded-Remembers :
      (c : Option Account) (store : CryptoStorage S) (s : AcmeState S Account)
      → s.acme_client ≡ c
      → Remembers c (
          known_or_loaded client csr keys formats debug crypto cert_key id account_id self store c
            s)
  unfolding Remembers
  known_or_loaded-Remembers (some account) store s h = h
  known_or_loaded-Remembers none store s h =
      kept_then none _ s (within (load_secret store account_id) s.manager) h
        λ found t k. from_stored-Remembers none store found t k

  acme_account-Remembers :
      (s : AcmeState S Account)
      → Remembers s.acme_client
          (acme_account client csr keys formats debug crypto cert_key id account_id self s)
  unfolding acme_account
  acme_account-Remembers s =
      lifted_then s.acme_client _ s (crypto_storage formats crypto cert_key id) refl
        λ store. known_or_loaded-Remembers s.acme_client store s refl

  abbrev looks_up :
      Outcome CertError (CryptoStorage S) → Action CertError (AcmeState S Account) Account
  looks_up storage s =
      after
        (λ store t.
          known_or_loaded client csr keys formats debug crypto cert_key id account_id self store
            t.acme_client t)
        (lift storage s)

  looks_up-known :
      (storage : Outcome CertError (CryptoStorage S)) (s t u : AcmeState S Account)
      (account : Account)
      → looks_up storage s ≡ (ok account, t)
      → u.acme_client ≡ some account
      → looks_up storage u ≡ (ok account, u)
  looks_up-known (ok store) s t u account h known = rw known refl
  looks_up-known (err e) s t u account h known = cc
  looks_up-known panic s t u account h known = cc

  -- After a call that has answered an ACME account, a call in any state in which the same account
  -- is kept answers that account and changes nothing: no other account is made.
  pub acme_account-Repeats :
      (s t u : AcmeState S Account) (account : Account)
      → acme_account client csr keys formats debug crypto cert_key id account_id self s
        ≡ (ok account, t)
      → u.acme_client ≡ t.acme_client
      → acme_account client csr keys formats debug crypto cert_key id account_id self u
        ≡ (ok account, u)
  unfolding acme_account Remembers
  acme_account-Repeats s t u account answered same =
      let kept_account : t.acme_client ≡ some account =
        subst (Remembers s.acme_client) answered (acme_account-Remembers s) in
      looks_up-known (crypto_storage formats crypto cert_key id) s t u account answered
        (same ∙ kept_account)
