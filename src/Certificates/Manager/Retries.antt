-- ===== src/Certificates/Manager/Retries.antt =====
-- The attempts to store a new signing key.
use status_list_server.Base.{
  ℕ, zero, suc, ◌-◌, ◌≤◌, String, none, some, Outcome, ok, err, panic, map_err, ◌≡◌, refl, arith,
}
use status_list_server.Base.Action.{pure, after, resume}
use status_list_server.Certificates.Storage.{
  StorageError, CryptoStorage, load_signing_key, store_signing_key,
}
use status_list_server.Certificates.Manager.{
  CertError, CertState, Formats, store_retrying, max_retries, signing_key_pem,
}

module _ {S : Type 0} (formats : Formats) (crypto : CryptoStorage S) (cert_key id : String)
    (key_pem : String) where
  -- From the state, so many attempts in a row fail, and leave the other one.
  abbrev pub Fails : ℕ → S → S → Type 0
  Fails zero s u = s ≡ u
  Fails (suc n) s u =
      (e : StorageError) × (t : S) × (store_signing_key crypto id key_pem s ≡ (err e, t))
      × Fails n t u

  -- An attempt is the last one when it succeeds, or when `left` have failed before it.
  abbrev pub IsLast : ℕ → ℕ → Outcome StorageError (Unit {0}) → Type 0
  IsLast left n (ok done) = n ≤ left
  IsLast left n (err e) = n ≡ left
  IsLast left n panic = n ≤ left

  abbrev pub answer : Outcome StorageError (Unit {0}) → Outcome StorageError String
  answer (ok done) = ok key_pem
  answer (err e) = err e
  answer panic = panic

  -- How the attempts end: so many failed, and the next one was the last and gave the answer.
  pub record Ending (left : ℕ) (s : S) (x : Outcome StorageError String × S) : Type 0 where
    pub failures : ℕ
    pub before : S
    pub result : Outcome StorageError (Unit {0})
    pub fails : Fails failures s before
    pub attempted : store_signing_key crypto id key_pem before ≡ (result, x.1)
    pub last : IsLast left failures result
    pub answered : x.0 ≡ answer result

  at_once :
      (left : ℕ) (s v : S) (result : Outcome StorageError (Unit {0}))
      → store_signing_key crypto id key_pem s ≡ (result, v)
      → IsLast left 0 result
      → Ending left s (answer result, v)
  at_once left s v result e h = record {
    failures = 0;
    before = s;
    result = result;
    fails = refl;
    attempted = e;
    last = h;
    answered = refl;
  }

  later :
      (left : ℕ) (s t : S) (e : StorageError) (x : Outcome StorageError String × S)
      → store_signing_key crypto id key_pem s ≡ (err e, t)
      → Ending left t x
      → Ending (suc left) s x
  later left s t e x failed h = record {
    failures = suc h.failures;
    before = h.before;
    result = h.result;
    fails = (e, t, failed, h.fails);
    attempted = h.attempted;
    last = one_more h.result h.last;
    answered = h.answered;
  }
    where
      one_more :
          (r : Outcome StorageError (Unit {0}))
          → IsLast left h.failures r
          → IsLast (suc left) (suc h.failures) r
      one_more (ok done) k = omega arith
      one_more (err f) k = omega arith
      one_more panic k = omega arith

  store_retrying-Ending :
      (left : ℕ) (s : S)
      → Ending left s (store_retrying formats (some crypto) cert_key id crypto key_pem left s)
  unfolding store_retrying
  store_retrying-Ending zero s = go (store_signing_key crypto id key_pem s) refl
    where
      go :
          (y : Outcome StorageError (Unit {0}) × S)
          → store_signing_key crypto id key_pem s ≡ y
          → Ending zero s (after (λ _. pure key_pem) y)
      go (ok done, v) e = at_once zero s v (ok tt) e (omega arith)
      go (err f, v) e = at_once zero s v (err f) e refl
      go (panic, v) e = at_once zero s v panic e (omega arith)
  store_retrying-Ending (suc left) s =
      go (store_signing_key crypto id key_pem s) refl (λ v. store_retrying-Ending left v)
    where
      go :
          (y : Outcome StorageError (Unit {0}) × S)
          → store_signing_key crypto id key_pem s ≡ y
          → ((v : S)
              → Ending left v
                  (store_retrying formats (some crypto) cert_key id crypto key_pem left v))
          → Ending (suc left) s (
              resume
                (λ result. elim result [
                  | ok done ↦ pure key_pem
                  | err e ↦ store_retrying formats (some crypto) cert_key id crypto key_pem left
                  | panic ↦ λ t. (panic, t)
                ])
                y)
      go (ok done, v) e rest = at_once (suc left) s v (ok tt) e (omega arith)
      go (err f, v) e rest = later left s v f _ e (rest v)
      go (panic, v) e rest = at_once (suc left) s v panic e (omega arith)

  abbrev pub stored_answer :
      CertState S → Outcome StorageError String × S → Outcome CertError String × CertState S
  stored_answer s x = (map_err CertError.storage x.0, record s { stored = x.1 })

  -- Where a storage is set and no signing key is stored: the manager tries to store the fresh key
  -- until an attempt succeeds, and three times at most; it answers the key when an attempt
  -- succeeded, and the error of the third attempt when all of them failed; an attempt that panics
  -- ends it.
  pub signing_key_pem-Ending :
      (s : CertState S) (t : S)
      → load_signing_key crypto id s.stored ≡ (ok none, t)
      → (x : Outcome StorageError String × S) × (signing_key_pem formats
            (some crypto)
            cert_key
            id
            (ok key_pem)
            s
          ≡ stored_answer s x)
        × Ending (max_retries - 1) t x
  unfolding signing_key_pem
  signing_key_pem-Ending s t missing = (
    store_retrying formats (some crypto) cert_key id crypto key_pem (max_retries - 1) t,
    rw missing refl,
    store_retrying-Ending (max_retries - 1) t,
  )
