-- ===== src/Certificates/Acme/Tidy.antt =====
-- The TXT records of the challenges in src/utils/cert_manager/challenge/dns01: what is relied on of
-- a provider, and what holds of the calls that succeed.
use status_list_server.Base.{
  String, Bool, true, List, [], ◌∷◌, Outcome, ok, err, panic, map_err, ◌≡◌, ◌⊎◌,
}
use status_list_server.Base.Action.{Action, after, reword, lift}
use status_list_server.Certificates.Challenge.Records.{DnsProvider}
use status_list_server.Certificates.Manager.{CertError, CertState}
use status_list_server.Certificates.Acme.{AcmeClient, Challenges, calling}

-- `P` of what succeeds.
unfoldable pub Post : {E S A : Type 0} → (A → S → Type 0) → Outcome E A × S → Type 0
Post P (ok a, s) = P a s
Post P (err e, s) = Unit
Post P (panic, s) = Unit

pub Post-after :
    {E S A B : Type 0} (P : A → S → Type 0) (R : B → S → Type 0) (k : A → Action E S B)
    (x : Outcome E A × S)
    → Post P x
    → ((a : A) (s : S) → P a s → Post R (k a s))
    → Post R (after k x)
unfolding Post
Post-after P R k (ok a, s) h next = next a s h
Post-after P R k (err e, s) h next = tt
Post-after P R k (panic, s) h next = tt

pub Post-lift :
    {E S A B : Type 0} (R : B → S → Type 0) (k : A → Action E S B) (x : Outcome E A) (s : S)
    → ((a : A) → Post R (k a s))
    → Post R (after k (lift x s))
unfolding Post
Post-lift R k (ok a) s next = next a
Post-lift R k (err e) s next = tt
Post-lift R k panic s next = tt

pub Post-left :
    {E S A : Type 0} (Q : S → Type 0) (x : Outcome E A × S) → Q x.1 → Post (λ a t. Q t) x
unfolding Post
Post-left Q (ok a, s) h = h
Post-left Q (err e, s) h = tt
Post-left Q (panic, s) h = tt

pub Post-reword :
    {E F S A : Type 0} (f : E → F) (P : A → S → Type 0) (x : Outcome E A × S)
    → Post P x
    → Post P (reword f x)
unfolding Post
Post-reword f P (ok a, s) h = h
Post-reword f P (err e, s) h = tt
Post-reword f P (panic, s) h = tt

pub Post-calling :
    {E S A : Type 0} (f : E → CertError) (P : A → S → Type 0) (m : Action E S A) (s : CertState S)
    → Post P (m s.stored)
    → Post (λ a t. P a t.stored) (calling f m s)
unfolding Post
Post-calling {E} {S} {A} f P m s h = called (m s.stored) h
  where
    called :
        (x : Outcome E A × S)
        → Post P x
        → Post (λ a t. P a t.stored) (map_err f x.0, record s { stored = x.1 })
    called (ok a, t) h = h
    called (err e, t) h = tt
    called (panic, t) h = tt

pub Post-mono :
    {E S A : Type 0} (P R : A → S → Type 0) (x : Outcome E A × S)
    → Post P x
    → ((a : A) (s : S) → P a s → R a s)
    → Post R x
unfolding Post
Post-mono P R (ok a, s) h weaker = weaker a s h
Post-mono P R (err e, s) h weaker = tt
Post-mono P R (panic, s) h weaker = tt

-- A TXT record: the domain and the value.
abbrev pub Txt : Type 0
Txt = String × String

abbrev pub IsIn : Txt → List Txt → Type 0
IsIn r [] = ⊥
IsIn r (x ∷ records) = (r ≡ x) ⊎ IsIn r records

module _ {S : Type 0} (stands : S → Txt → Bool) where
  -- No record stands in the second state that does not in the first.
  abbrev pub NoNew : S → S → Type 0
  NoNew s t = (r : Txt) → stands t r ≡ true → stands s r ≡ true

  -- What a call adds to the records at most.
  abbrev pub Adds : S → List Txt → S → Type 0
  Adds s records t = (r : Txt) → stands t r ≡ true → (stands s r ≡ true) ⊎ IsIn r records

  abbrev pub AreQuiet : {A : Type 0} → List (Action String S A) → Type 0
  AreQuiet [] = Unit
  AreQuiet (m ∷ ms) = ((s : S) → NoNew s (m s).1) × AreQuiet ms

  -- A provider that keeps to its own records, and whose deletions succeed; and a client of ACME
  -- that keeps away from them.
  pub record IsTidy {Http Account Credentials Order Authz Challenge : Type 0}
      (client : AcmeClient S Http Account Credentials Order Authz)
      (challenges : Challenges S Authz Challenge) (provider : DnsProvider S) : Type 0 where
    pub creates :
        (domain value : String) (s : S) (r : Txt)
        → stands (provider.create_txt_record domain value s).1 r ≡ true
        → (stands s r ≡ true) ⊎ (r ≡ (domain, value))
    pub deletes :
        (domain value : String) (s : S)
        → (t : S) × (provider.delete_txt_record domain value s ≡ (ok tt, t))
          × NoNew s t
          × ¬ (stands t (domain, value) ≡ true)
    pub readies : (challenge : Challenge) (s : S) → NoNew s (challenges.set_ready challenge s).1
    pub fetches : (order : Order) → AreQuiet (client.authorizations order)
    pub polls : (order : Order) (s : S) → NoNew s (client.poll_ready order s).1
