-- ===== src/Certificates/Acme/Swaps.antt =====
-- A certificate of `request_acme_certificate` in src/utils/cert_manager.rs is served as a whole or
-- not at all.
use status_list_server.Base.{
  ℤ, String, Option, none, some, List, Outcome, ok, err, panic, map_err, ok_or, ◌≡◌, refl,
}
use status_list_server.Base.Action.{Action, after, resume, lift}
use status_list_server.Certificates.Storage.{
  CryptoStorage, load_secret, store_secret, delete_secret,
}
use status_list_server.Certificates.Manager.{CertError, CertState, Formats, crypto_storage}
use status_list_server.Certificates.Manager.Served.{Served, served, Leaves, within-Keeps}
use status_list_server.Certificates.Provision.{KeyMaterial}
use status_list_server.Certificates.Acme.{
  AcmeClient, CsrWriter, AcmeSettings, AcmeState, calling, kept,
}
use status_list_server.Certificates.Acme.Requests.{
  http_client, new_account, recreated, from_stored, known_or_loaded, acme_account, some_domain,
  request_acme_certificate,
}
use status_list_server.Certificates.Acme.Serving.{
  calling-Keeps, IsOrdered, order_certificate-IsOrdered,
}

module _ {S Account : Type 0} where
  -- `Leaves`, of the manager in the state.
  abbrev pub Ends :
      {A : Type 0}
      → Served
      → (A → CertState S → Type 0)
      → Outcome CertError A × AcmeState S Account
      → Type 0
  Ends m P x = Leaves m P (x.0, x.1.manager)

  abbrev EndsKept : {A : Type 0} → Served → Outcome CertError A × AcmeState S Account → Type 0
  EndsKept m x = Ends m (λ a t. served t ≡ m) x

  on_manager-Ends :
      {A : Type 0} (m : Served) (P : A → CertState S → Type 0) (s : AcmeState S Account)
      (x : Outcome CertError A × CertState S)
      → Leaves m P x
      → Ends m P (kept s x)
  on_manager-Ends m P s (r, t) h = h

  Ends-after :
      {A B : Type 0} (m : Served) (R : B → CertState S → Type 0)
      (k : A → Action CertError (AcmeState S Account) B)
      (x : Outcome CertError A × AcmeState S Account)
      → EndsKept m x
      → ((a : A) (s : AcmeState S Account) → served s.manager ≡ m → Ends m R (k a s))
      → Ends m R (after k x)
  unfolding Leaves
  Ends-after m R k (ok a, s) h next = next a s h
  Ends-after m R k (err e, s) h next = h
  Ends-after m R k (panic, s) h next = h

  lift-Ends :
      {A B : Type 0} (m : Served) (R : B → CertState S → Type 0)
      (k : A → Action CertError (AcmeState S Account) B) (x : Outcome CertError A)
      (s : AcmeState S Account)
      → served s.manager ≡ m
      → ((a : A) → Ends m R (k a s))
      → Ends m R (after k (lift x s))
  unfolding Leaves
  lift-Ends m R k (ok a) s h next = next a
  lift-Ends m R k (err e) s h next = h
  lift-Ends m R k panic s h next = h

  attempt-Ends :
      {A B : Type 0} (m : Served) (R : B → CertState S → Type 0)
      (k : Outcome CertError A → Action CertError (AcmeState S Account) B)
      (x : Outcome CertError A × AcmeState S Account)
      → EndsKept m x
      → ((r : Outcome CertError A) (s : AcmeState S Account)
          → served s.manager ≡ m
          → Ends m R (k r s))
      → Ends m R (resume k x)
  unfolding Leaves
  attempt-Ends m R k (ok a, s) h next = next (ok a) s h
  attempt-Ends m R k (err e, s) h next = next (err e) s h
  attempt-Ends m R k (panic, s) h next = h

module _ {S Http Account Credentials Order Authz Params Pair Key : Type 0}
    (client : AcmeClient S Http Account Credentials Order Authz) (csr : CsrWriter Params Pair)
    (keys : KeyMaterial Key) (formats : Formats) (debug : List String → String)
    (crypto : Option (CryptoStorage S)) (cert_key id account_id : String)
    (self : AcmeSettings S Http Authz) where
  new_account-Keeps :
      (m : Served) (store : CryptoStorage S) (s : AcmeState S Account)
      → served s.manager ≡ m
      → EndsKept m
          (new_account client csr keys formats debug crypto cert_key id account_id self store s)
  unfolding Leaves
  new_account-Keeps m store s h =
      lift-Ends m _ _ (http_client client csr keys formats debug crypto cert_key id account_id self)
        s h
        λ http.
          Ends-after m _ _ _
            (on_manager-Ends m (λ a t. served t ≡ m) s _
              (calling-Keeps m CertError.acme (client.create http _ self.acme_directory_url)
                s.manager h))
            λ made t k.
              lift-Ends m _ _ (map_err CertError.serde (client.to_json made.1)) t k λ text.
                Ends-after m _ _ _
                  (on_manager-Ends m (λ a t. served t ≡ m) t _
                    (within-Keeps m (store_secret store account_id text) t.manager k))
                  λ done u l. l

  recreated-Keeps :
      (m : Served) (store : CryptoStorage S) (result : Outcome CertError Account)
      (s : AcmeState S Account)
      → served s.manager ≡ m
      → EndsKept m (
          recreated client csr keys formats debug crypto cert_key id account_id self store result s)
  unfolding Leaves
  recreated-Keeps m store (ok account) s h = h
  recreated-Keeps m store (err e) s h =
      Ends-after m _ _ _
        (on_manager-Ends m (λ a t. served t ≡ m) s _
          (within-Keeps m (delete_secret store account_id) s.manager h))
        λ done t k. new_account-Keeps m store t k
  recreated-Keeps m store panic s h = h

  from_stored-Keeps :
      (m : Served) (store : CryptoStorage S) (found : Option String) (s : AcmeState S Account)
      → served s.manager ≡ m
      → EndsKept m (
          from_stored client csr keys formats debug crypto cert_key id account_id self store found
            s)
  from_stored-Keeps m store none s h = new_account-Keeps m store s h
  from_stored-Keeps m store (some text) s h =
      lift-Ends m _ _ (map_err CertError.serde (client.from_json text)) s h λ credentials.
        lift-Ends m _ _
          (http_client client csr keys formats debug crypto cert_key id account_id self) s h
          λ http.
            attempt-Ends m _
              (λ r.
                recreated client csr keys formats debug crypto cert_key id account_id self store r)
              (kept s (calling CertError.acme (client.from_credentials http credentials) s.manager))
              (on_manager-Ends m (λ a t. served t ≡ m) s _
                (calling-Keeps m CertError.acme (client.from_credentials http credentials) s.manager
                  h))
              λ result t k. recreated-Keeps m store result t k

  known_or_loaded-Keeps :
      (m : Served) (store : CryptoStorage S) (known : Option Account) (s : AcmeState S Account)
      → served s.manager ≡ m
      → EndsKept m (
          known_or_loaded client csr keys formats debug crypto cert_key id account_id self store
            known s)
  unfolding Leaves
  known_or_loaded-Keeps m store (some account) s h = h
  known_or_loaded-Keeps m store none s h =
      Ends-after m _ _ _
        (on_manager-Ends m (λ a t. served t ≡ m) s _
          (within-Keeps m (load_secret store account_id) s.manager h))
        λ found t k. from_stored-Keeps m store found t k

  acme_account-Keeps :
      (m : Served) (s : AcmeState S Account)
      → served s.manager ≡ m
      → EndsKept m (acme_account client csr keys formats debug crypto cert_key id account_id self s)
  unfolding acme_account
  acme_account-Keeps m s h =
      lift-Ends m _ _ (crypto_storage formats crypto cert_key id) s h
        λ store. known_or_loaded-Keeps m store s.acme_client s h

  -- A request for a certificate by ACME that fails or panics, wherever it does, has left the
  -- cached chain and the active signing material as they were; one that succeeds has replaced
  -- both by the chain of the certificate that it answers, with a key that a request for a
  -- certificate can be signed with.
  pub request_acme_certificate-IsOrdered :
      (now : ℤ) (generated : Outcome String String) (s : AcmeState S Account)
      → Ends
          (served s.manager)
          (IsOrdered client csr keys formats debug crypto cert_key id account_id self)
          (request_acme_certificate client csr keys formats debug crypto cert_key id account_id self
            now generated s)
  unfolding request_acme_certificate
  request_acme_certificate-IsOrdered now generated s =
      let m = served s.manager in
      lift-Ends m _ _ (crypto_storage formats crypto cert_key id) s refl λ store.
        lift-Ends m _ _ (ok_or self.challenge_handler (CertError.other "Challenge handler not set"))
          s refl
          λ handler.
            lift-Ends m _ _
              (some_domain client csr keys formats debug crypto cert_key id account_id self
                self.domains)
              s refl
              λ done. Ends-after m _ _ _ (acme_account-Keeps m s refl) λ account t h.
                on_manager-Ends m
                  (IsOrdered client csr keys formats debug crypto cert_key id account_id self) t _
                  (order_certificate-IsOrdered client csr keys formats debug crypto cert_key id
                    account_id self m handler now generated account t.manager h)
