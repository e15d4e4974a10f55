-- ===== src/Certificates/Manager/Served.antt =====
-- What `CertManager` of src/utils/cert_manager.rs serves, and the steps that leave it as it was.
use status_list_server.Base.{String, Option, List, Outcome, ok, err, panic, map_err, ◌≡◌, refl}
use status_list_server.Base.Action as Action
use status_list_server.Base.Action.{Action, after, lift}
use status_list_server.Domain.Ports.{SigningMaterial}
use status_list_server.Certificates.Storage.{StorageError}
use status_list_server.Certificates.Manager.{CertError, CertState, within}

-- What is served: the cached chain and the active material.
abbrev pub Served : Type 0
Served = Option (List String) × Option SigningMaterial

abbrev pub served : {S : Type 0} → CertState S → Served
served s = (s.cert_chain_cache, s.active_signing_material)

-- `P` of what succeeds; what does not has left what is served as it was.
unfoldable pub Leaves :
    {S A : Type 0}
    → Served
    → (A → CertState S → Type 0)
    → Outcome CertError A × CertState S
    → Type 0
Leaves m P (ok a, s) = P a s
Leaves m P (err e, s) = served s ≡ m
Leaves m P (panic, s) = served s ≡ m

module _ {S : Type 0} where
  pub Leaves-after :
      {A B : Type 0} (m : Served) (P : A → CertState S → Type 0) (R : B → CertState S → Type 0)
      (k : A → Action CertError (CertState S) B) (x : Outcome CertError A × CertState S)
      → Leaves m P x
      → ((a : A) (s : CertState S) → P a s → Leaves m R (k a s))
      → Leaves m R (after k x)
  unfolding Leaves
  Leaves-after m P R k (ok a, s) h next = next a s h
  Leaves-after m P R k (err e, s) h next = h
  Leaves-after m P R k (panic, s) h next = h

  -- A step that only reads or writes the storage.
  abbrev pub Keeps : {A : Type 0} → Served → Outcome CertError A × CertState S → Type 0
  Keeps m x = Leaves m (λ a s. served s ≡ m) x

  pub within-Keeps :
      {A : Type 0} (m : Served) (step : Action StorageError S A) (s : CertState S)
      → served s ≡ m
      → Keeps m (within step s)
  unfolding Leaves
  within-Keeps {A = A} m step s h = kept (step s.stored)
    where
      kept :
          (x : Outcome StorageError A × S)
          → Keeps m (map_err CertError.storage x.0, record s { stored = x.1 })
      kept (ok a, t) = h
      kept (err e, t) = h
      kept (panic, t) = h

  -- Chains of steps that keep what is served.
  pub Keeps-then :
      {A B : Type 0} (m : Served) (R : B → CertState S → Type 0)
      (k : A → Action CertError (CertState S) B) (x : Outcome CertError A × CertState S)
      → Keeps m x
      → ((a : A) (s : CertState S) → served s ≡ m → Leaves m R (k a s))
      → Leaves m R (after k x)
  Keeps-then m R k x h next = Leaves-after m (λ a s. served s ≡ m) R k x h next

  pub reads_then :
      {A B : Type 0} (m : Served) (first : Action StorageError S A)
      (rest : A → Action StorageError S B) (s : CertState S)
      → served s ≡ m
      → Keeps m (Action.◌>>=◌ (within first) (λ a. within (rest a)) s)
  reads_then m first rest s h =
      Keeps-then m (λ b s. served s ≡ m) (λ a. within (rest a)) (within first s)
        (within-Keeps m first s h) (λ a t k. within-Keeps m (rest a) t k)

  pub lift_then :
      {A B : Type 0} (m : Served) (R : B → CertState S → Type 0)
      (k : A → Action CertError (CertState S) B) (x : Outcome CertError A) (s : CertState S)
      → served s ≡ m
      → ((a : A) → x ≡ ok a → Leaves m R (k a s))
      → Leaves m R (after k (lift x s))
  unfolding Leaves
  lift_then m R k (ok a) s h next = next a refl
  lift_then m R k (err e) s h next = h
  lift_then m R k panic s h next = h

  pub lift-Keeps :
      {A : Type 0} (m : Served) (x : Outcome CertError A) (s : CertState S)
      → served s ≡ m
      → Keeps m (lift x s)
  unfolding Leaves
  lift-Keeps m (ok a) s h = h
  lift-Keeps m (err e) s h = h
  lift-Keeps m panic s h = h

  pub Leaves-mono :
      {A : Type 0} (m : Served) (P R : A → CertState S → Type 0)
      (x : Outcome CertError A × CertState S)
      → Leaves m P x
      → ((a : A) (s : CertState S) → P a s → R a s)
      → Leaves m R x
  unfolding Leaves
  Leaves-mono m P R (ok a, s) h weaker = weaker a s h
  Leaves-mono m P R (err e, s) h weaker = h
  Leaves-mono m P R (panic, s) h weaker = h

  pub pure-Leaves :
      {A : Type 0} (m : Served) (P : A → CertState S → Type 0) (a : A) (s : CertState S)
      → P a s
      → Leaves m P (ok a, s)
  unfolding Leaves
  pure-Leaves m P a s h = h
