-- ===== src/Certificates/Acme/Cleaning.antt =====
-- The TXT records that an order of src/utils/cert_manager.rs makes are removed when the order has
-- been polled.
use mathlib.Core.Path.{subst}
use status_list_server.Base.{
  String, Bool, Bool-cases, true, Option, List, [], ◌∷◌, map, if◌then◌else◌, Outcome, ok, err,
  ok_or, ◌≡◌, refl, ◌⊎◌, inl, inr,
}
use status_list_server.Base.Action.{Action, reword}
use status_list_server.Certificates.Storage.{CryptoStorage}
use status_list_server.Certificates.Challenge.Records.{ChallengeError, DnsProvider}
use status_list_server.Certificates.Manager.{CertError, CertState, Formats}
use status_list_server.Certificates.Provision.{KeyMaterial}
use status_list_server.Certificates.Acme.{
  AcmeClient, CsrWriter, Cleanup, Challenges, AcmeSettings, calling, run_cleanups, dns01_handler,
}
use status_list_server.Certificates.Acme.Requests.{process_authorizations, poll_order, invalidated}
use status_list_server.Certificates.Acme.Tidy.{
  Post, Post-mono, Post-after, Post-lift, Post-left, Post-reword, Post-calling, Txt, IsIn, NoNew,
  Adds, AreQuiet, IsTidy,
}

module _ {S Http Account Credentials Order Authz Challenge : Type 0} (stands : S → Txt → Bool)
    (client : AcmeClient S Http Account Credentials Order Authz)
    (challenges : Challenges S Authz Challenge) (provider : DnsProvider S)
    (tidy : IsTidy stands client challenges provider) where
  abbrev undo : Txt → Cleanup S
  undo r = provider.delete_txt_record r.0 r.1

  -- The cleanups undo all that was added.
  abbrev Owes : S → List (Cleanup S) → S → Type 0
  Owes s cleanups t = (records : List Txt) × (cleanups ≡ map undo records) × Adds stands s records t

  handle_authorization-Owes :
      (authz : Authz) (s : S)
      → Post
          (λ cleanup t.
            (r : Txt) × (cleanup ≡ undo r)
            × ((x : Txt) → stands t x ≡ true → (stands s x ≡ true) ⊎ (x ≡ r)))
          ((dns01_handler challenges provider).handle_authorization authz s)
  unfolding dns01_handler Post
  handle_authorization-Owes authz s =
      Post-lift _ _ (ok_or (challenges.dns01 authz) _) s λ challenge.
        let domain = challenges.identifier challenge in
        let value = challenges.dns_value challenge in
        let Q : S → Type 0 =
          λ t. (x : Txt) → stands t x ≡ true → (stands s x ≡ true) ⊎ (x ≡ (domain, value)) in
        Post-after (λ done. Q) _ _ (provider.create_txt_record domain value s)
          (Post-left Q _ (tidy.creates domain value s))
          λ done t added.
            Post-after (λ done u. NoNew stands t u) _ _
              (reword ChallengeError.other (challenges.set_ready challenge t))
              (Post-reword ChallengeError.other (λ done u. NoNew stands t u) _
                (Post-left (λ u. NoNew stands t u) _ (tidy.readies challenge t)))
              λ done u quiet. ((domain, value), refl, λ x h. added x (quiet x h))

  abbrev handled : Authz → Action ChallengeError S (Cleanup S)
  handled = (dns01_handler challenges provider).handle_authorization

  Adds-after :
      (s t u : S) (records : List Txt)
      → NoNew stands s t
      → Adds stands t records u
      → Adds stands s records u
  Adds-after s t u records same adds r h = elim (adds r h) [
    | inl old ↦ inl (same r old)
    | inr new ↦ inr new
  ]

  Adds-cons :
      (s t u : S) (r : Txt) (records : List Txt)
      → ((x : Txt) → stands t x ≡ true → (stands s x ≡ true) ⊎ (x ≡ r))
      → Adds stands t records u
      → Adds stands s (r ∷ records) u
  Adds-cons s t u r records first adds x h = elim (adds x h) [
    | inl old ↦ elim (first x old) [ inl older ↦ inl older | inr same ↦ inr (inl same) ]
    | inr new ↦ inr (inr new)
  ]

  process_authorizations-Owes :
      {Params Pair Key : Type 0} (csr : CsrWriter Params Pair) (keys : KeyMaterial Key)
      (formats : Formats) (debug : List String → String) (crypto : Option (CryptoStorage S))
      (cert_key id account_id : String) (self : AcmeSettings S Http Authz)
      (steps : List (Action String S Authz)) (s : CertState S)
      → AreQuiet stands steps
      → Post
          (λ cleanups t. Owes s.stored cleanups t.stored)
          (process_authorizations client csr keys formats debug crypto cert_key id account_id self
            (dns01_handler challenges provider)
            steps
            s)
  unfolding process_authorizations Post
  process_authorizations-Owes csr keys formats debug crypto cert_key id account_id self [] s quiet =
      ([], refl, λ r h. inl h)
  process_authorizations-Owes csr keys formats debug crypto cert_key id account_id self
        (step ∷ steps) s (first, quiet) =
      Post-after (λ authz t. NoNew stands s.stored t.stored) _ _ (calling CertError.acme step s)
        (Post-calling CertError.acme (λ authz t. NoNew stands s.stored t) step s
          (Post-left (λ t. NoNew stands s.stored t) (step s.stored) (first s.stored)))
        λ authz t same. elim (Bool-cases (client.is_valid authz)) [
          | inl valid ↦ rw valid (
              Post-mono (λ cleanups u. Owes t.stored cleanups u.stored) _ _
                (process_authorizations-Owes csr keys formats debug crypto cert_key id account_id
                  self steps t quiet)
                λ cleanups u owes.
                  (owes.0, owes.1, Adds-after s.stored t.stored u.stored owes.0 same owes.2))
          | inr other ↦ rw other (
              Post-after _ _ _ (calling CertError.challenge (handled authz) t)
                (Post-calling CertError.challenge _ (handled authz) t
                  (handle_authorization-Owes authz t.stored))
                λ cleanup u made.
                  Post-after (λ cleanups v. Owes u.stored cleanups v.stored) _ _ _
                    (process_authorizations-Owes csr keys formats debug crypto cert_key id
                      account_id self steps u quiet)
                    λ cleanups v owes. (
                      made.0 ∷ owes.0,
                      rw (made.1, owes.1) refl,
                      Adds-after s.stored t.stored v.stored (made.0 ∷ owes.0) same
                          (Adds-cons t.stored u.stored v.stored made.0 owes.0 made.2 owes.2),
                    ))
        ]

  run_cleanups-removes :
      (records : List Txt) (s : CertState S)
      → (t : CertState S) × (run_cleanups (map undo records) s ≡ (ok tt, t))
        × ((r : Txt) → stands t.stored r ≡ true → (stands s.stored r ≡ true) × ¬ IsIn r records)
  unfolding run_cleanups
  run_cleanups-removes [] s = (s, refl, λ r h. (h, λ x. x))
  run_cleanups-removes (x ∷ records) s =
      let (u, deleted, quiet, gone) = tidy.deletes x.0 x.1 s.stored in
      let (t, ran, removed) = run_cleanups-removes records (record s { stored = u }) in
      (
        t,
        rw deleted ran,
        λ r h.
            let (old, others) = removed r h in
            (
              quiet r old,
              λ i. elim i [
                | inl same ↦ gone (subst (λ (y : Txt). stands u y ≡ true) same old)
                | inr other ↦ others other
              ],
            ),
      )

  -- Over a DNS provider that keeps to its own records and whose deletions succeed, and a client
  -- of ACME that keeps away from them: once the authorizations of an order are processed by the
  -- DNS-01 handler, and the polling of the order answers a state, `poll_order` succeeds exactly
  -- when that state is ready, and every TXT record that stands afterwards stood before the
  -- authorizations were processed.
  pub poll_order-Cleans :
      {Params Pair Key : Type 0} (csr : CsrWriter Params Pair) (keys : KeyMaterial Key)
      (formats : Formats) (debug : List String → String) (crypto : Option (CryptoStorage S))
      (cert_key id account_id : String) (self : AcmeSettings S Http Authz) (order : Order)
      (cleanups : List (Cleanup S)) (is_ready : Bool) (s t : CertState S) (u : S)
      → process_authorizations client csr keys formats debug crypto cert_key id account_id self
          (dns01_handler challenges provider)
          (client.authorizations order)
          s
        ≡ (ok cleanups, t)
      → client.poll_ready order t.stored ≡ (ok is_ready, u)
      → (v : CertState S) × (poll_order client csr keys formats debug crypto cert_key id account_id
            self order cleanups t
          ≡ (
            if is_ready
                then ok tt
                else err (
                    invalidated client csr keys formats debug crypto cert_key id account_id self
                      order),
            v,
          ))
        × NoNew stands s.stored v.stored
  unfolding poll_order Post
  poll_order-Cleans csr keys formats debug crypto cert_key id account_id self order cleanups
        is_ready s t u processed polled =
      let owes : Owes s.stored cleanups t.stored =
        subst (Post (λ made v. Owes s.stored made v.stored)) processed (
          process_authorizations-Owes csr keys formats debug crypto cert_key id account_id self
            (client.authorizations order) s (tidy.fetches order)) in
      let quiet : NoNew stands t.stored u =
        subst (λ (x : Outcome String Bool × S). NoNew stands t.stored x.1) polled
          (tidy.polls order t.stored) in
      let (v, ran, removed) = run_cleanups-removes owes.0 (record t { stored = u }) in
      (
        v,
        rw (polled, owes.1, ran) refl,
        λ r h.
            let (late, others) = removed r h in
            elim (owes.2 r (quiet r late)) [ inl old ↦ old | inr made ↦ absurd (others made) ],
      )
