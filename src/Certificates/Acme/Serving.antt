-- ===== src/Certificates/Acme/Serving.antt =====
-- What an order of src/utils/cert_manager.rs leaves of the served material.
use status_list_server.Base.{
  ℤ, String, Bool-cases, Option, List, [], ◌∷◌, if◌then◌else◌, Outcome, ok, err, panic, map_err,
  ◌≡◌, inl, inr, ℕ,
}
use status_list_server.Base.Action as Action
use status_list_server.Base.Action.{Action, after, resume, lift}
use status_list_server.Certificates.Storage.{CryptoStorage}
use status_list_server.Certificates.Manager.{CertError, CertificateData, CertState, Formats}
use status_list_server.Certificates.Manager.Served.{
  Served, served, Leaves, Leaves-after, Keeps, Keeps-then, lift_then, lift-Keeps, Leaves-mono,
  pure-Leaves,
}
use status_list_server.Certificates.Manager.Steps.{
  Serves, persist_certificate_data-Keeps, caches, activates, signing_key_pem-Keeps,
}
use status_list_server.Certificates.Provision.{KeyMaterial, certificate_data_from_pem}
use status_list_server.Certificates.Acme.{
  AcmeClient, CsrWriter, Cleanup, ChallengeHandler, AcmeSettings, calling, run_cleanups,
}
use status_list_server.Certificates.Acme.Csr.{generate_csr}
use status_list_server.Certificates.Acme.Requests.{
  process_authorizations, poll_order, invalidated, finalize_order, serve_certificate,
  order_certificate,
}

module _ {S : Type 0} where
  pub calling-Keeps :
      {E A : Type 0} (m : Served) (f : E → CertError) (step : Action E S A) (s : CertState S)
      → served s ≡ m
      → Keeps m (calling f step s)
  unfolding Leaves
  calling-Keeps {E} {A} m f step s h = called (step s.stored)
    where
      called : (x : Outcome E A × S) → Keeps m (map_err f x.0, record s { stored = x.1 })
      called (ok a, t) = h
      called (err e, t) = h
      called (panic, t) = h

  -- A result that is looked at.
  attempt_then :
      {A B : Type 0} (m : Served) (R : B → CertState S → Type 0)
      (k : Outcome CertError A → Action CertError (CertState S) B)
      (x : Outcome CertError A × CertState S)
      → Keeps m x
      → ((r : Outcome CertError A) (s : CertState S) → served s ≡ m → Leaves m R (k r s))
      → Leaves m R (resume k x)
  unfolding Leaves
  attempt_then m R k (ok a, s) h next = next (ok a) s h
  attempt_then m R k (err e, s) h next = next (err e) s h
  attempt_then m R k (panic, s) h next = h

  run_cleanups-Keeps :
      (m : Served) (cleanups : List (Cleanup S)) (s : CertState S)
      → served s ≡ m
      → Keeps m (run_cleanups cleanups s)
  unfolding run_cleanups Leaves
  run_cleanups-Keeps m [] s h = h
  run_cleanups-Keeps m (cleanup ∷ cleanups) s h =
      attempt_then m (λ a t. served t ≡ m) (λ result. run_cleanups cleanups)
        (calling CertError.challenge cleanup s) (calling-Keeps m CertError.challenge cleanup s h)
        λ r t k. run_cleanups-Keeps m cleanups t k

module _ {S Http Account Credentials Order Authz Params Pair Key : Type 0}
    (client : AcmeClient S Http Account Credentials Order Authz) (csr : CsrWriter Params Pair)
    (keys : KeyMaterial Key) (formats : Formats) (debug : List String → String)
    (crypto : Option (CryptoStorage S)) (cert_key id account_id : String)
    (self : AcmeSettings S Http Authz) where
  process_authorizations-Keeps :
      (m : Served) (handler : ChallengeHandler S Authz) (steps : List (Action String S Authz))
      (s : CertState S)
      → served s ≡ m
      → Keeps m (
          process_authorizations client csr keys formats debug crypto cert_key id account_id self
            handler steps s)
  unfolding process_authorizations Leaves
  process_authorizations-Keeps m handler [] s h = h
  process_authorizations-Keeps m handler (step ∷ steps) s h =
      Keeps-then m (λ a t. served t ≡ m) _ (calling CertError.acme step s)
        (calling-Keeps m CertError.acme step s h)
        λ authz t k. elim (Bool-cases (client.is_valid authz)) [
          | inl valid ↦ rw valid (process_authorizations-Keeps m handler steps t k)
          | inr other ↦ rw other (
              Keeps-then m (λ a t. served t ≡ m) _
                (calling CertError.challenge (handler.handle_authorization authz) t)
                (calling-Keeps m CertError.challenge (handler.handle_authorization authz) t k)
                λ cleanup u l.
                  Keeps-then m (λ a t. served t ≡ m) (λ cleanups. Action.pure (cleanup ∷ cleanups))
                    _ (process_authorizations-Keeps m handler steps u l) λ cleanups v n. n)
        ]

  poll_order-Keeps :
      (m : Served) (order : Order) (cleanups : List (Cleanup S)) (s : CertState S)
      → served s ≡ m
      → Keeps m (
          poll_order client csr keys formats debug crypto cert_key id account_id self order cleanups
            s)
  unfolding poll_order
  poll_order-Keeps m order cleanups s h =
      Keeps-then m (λ a t. served t ≡ m) _ (calling CertError.acme (client.poll_ready order) s)
        (calling-Keeps m CertError.acme (client.poll_ready order) s h)
        λ is_ready t k.
          Keeps-then m (λ a t. served t ≡ m) _ (run_cleanups cleanups t)
            (run_cleanups-Keeps m cleanups t k)
            λ done u l.
              lift-Keeps m
                (if is_ready
                  then ok tt
                  else err (
                      invalidated client csr keys formats debug crypto cert_key id account_id self
                        order))
                u l

  -- The certificate is served, with a key that the request for it was signed with.
  abbrev pub IsOrdered : CertificateData → CertState S → Type 0
  IsOrdered d s =
      (key : String) × (request : List ℕ) × (generate_csr csr self key ≡ ok request)
      × Serves formats crypto cert_key id d.certificate key s

  -- What finalizes an order has made a request with the key.
  finalize_order-Signs :
      (m : Served) (order : Order) (key : String) (s : CertState S)
      → served s ≡ m
      → Leaves m
          (λ pem t. (request : List ℕ) × (generate_csr csr self key ≡ ok request) × (served t ≡ m))
          (finalize_order client csr keys formats debug crypto cert_key id account_id self order key
            s)
  unfolding finalize_order
  finalize_order-Signs m order key s h =
      lift_then m _ _ (generate_csr csr self key) s h λ request e.
        Keeps-then m _ _ _ (calling-Keeps m CertError.acme (client.finalize_csr order request) s h)
          λ done t k.
            Leaves-mono m (λ a u. served u ≡ m) _ _
              (calling-Keeps m CertError.acme (client.poll_certificate order) t k)
              λ pem u l. (request, e, l)

  serve_certificate-Serves :
      (m : Served) (now : ℤ) (key cert_pem : String) (s : CertState S)
      → served s ≡ m
      → Leaves m
          (λ d t. Serves formats crypto cert_key id d.certificate key t)
          (serve_certificate client csr keys formats debug crypto cert_key id account_id self now
            key cert_pem s)
  unfolding serve_certificate
  serve_certificate-Serves m now key cert_pem s h =
      lift_then m _ _ (certificate_data_from_pem keys now cert_pem) s h λ d e.
        Keeps-then m _ _ _ (persist_certificate_data-Keeps formats crypto cert_key id m d s h)
          λ done t k.
            Leaves-after m _ _ _ _ (caches formats crypto cert_key id m d.certificate t k)
              λ done u l.
                Leaves-after m _ _ _ _
                  (activates formats crypto cert_key id m d.certificate key u l)
                  λ done v n. pure-Leaves m _ d v n

  pub order_certificate-IsOrdered :
      (m : Served) (handler : ChallengeHandler S Authz) (now : ℤ)
      (generated : Outcome String String) (account : Account) (s : CertState S)
      → served s ≡ m
      → Leaves m IsOrdered (
          order_certificate client csr keys formats debug crypto cert_key id account_id self handler
            now generated account s)
  unfolding order_certificate
  order_certificate-IsOrdered m handler now generated account s h =
      Keeps-then m IsOrdered _ _
        (calling-Keeps m CertError.acme (client.new_order account self.domains) s h)
        λ order t k.
          Keeps-then m IsOrdered _ _
            (process_authorizations-Keeps m handler (client.authorizations order) t k)
            λ cleanups u l.
              Keeps-then m IsOrdered _ _ (poll_order-Keeps m order cleanups u l) λ done v n.
                Keeps-then m IsOrdered _ _
                  (signing_key_pem-Keeps formats crypto cert_key id m generated v n)
                  λ key w o.
                    Leaves-after m _ IsOrdered _ _ (finalize_order-Signs m order key w o) λ pem x q.
                      Leaves-mono m _ IsOrdered _ (serve_certificate-Serves m now key pem x q.2)
                        λ d y serves. (key, q.0, q.1, serves)
