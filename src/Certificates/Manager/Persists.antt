-- ===== src/Certificates/Manager/Persists.antt =====
-- What `load_certificate_data` answers after `persist_certificate_data` of src/utils/cert_manager.rs
-- has stored new certificate data.
use mathlib.Core.Path.{subst}
use status_list_server.Base.{
  String, Option, none, some, List, if◌then◌else◌, is_some, Outcome, ok, err, panic, map_err, ◌≡◌,
  refl,
}
use status_list_server.Base.Action.{Action, lift}
use status_list_server.Certificates.Storage.{
  StorageError, CryptoStorage, load_certificate_data, update_certificate_data,
  store_certificate_data,
}
use status_list_server.Certificates.Storage.Told.{Told, after-Told, map-Told}
use status_list_server.Certificates.Storage.Coherence.{
  IsKept, Holds, update_certificate_data-Holds, store_certificate_data-Holds,
  load_certificate_data-Told,
}
use status_list_server.Certificates.Storage.Loads.{Use, AreApart, all_used, Loads, load-all_used}
use status_list_server.Certificates.Manager.{
  CertError, CertificateData, CertState, Formats, on_storage, within, persist_certificate_data,
}

within-Told :
    {S A : Type 0} (Q : A → S → Type 0) (f : Action StorageError S A) (m : CertState S)
    → Told Q (f m.stored)
    → Told (λ a n. Q a n.stored) (within f m)
unfolding Told
within-Told {S} {A} Q f m told = kept (f m.stored) told
  where
    kept : (x : Outcome StorageError A × S) → Told Q x → Told (λ a n. Q a n.stored) (on_storage x m)
    kept (ok a, t) h = h
    kept (err e, t) h = tt
    kept (panic, t) h = tt

written-Told :
    {S : Type 0} (value : Outcome String String) (m : CertState S)
    → Told (λ v n. value ≡ ok v) (lift (map_err CertError.serde value) m)
unfolding Told
written-Told (ok v) m = refl
written-Told (err e) m = tt
written-Told panic m = tt

module _ {S : Type 0} (crypto : CryptoStorage S) (cert_key : String) (slot : String → String)
    (stored cached : S → String → Option String) (laws : IsKept crypto cert_key slot stored cached)
    (formats : Formats) (signing_secret_id : String) where
  -- The text of the data is stored, and no other one is cached.
  abbrev Persisted : CertificateData → Unit {0} → CertState S → Type 0
  Persisted d done n =
      (value : String) × (formats.to_json d ≡ ok value)
      × Holds crypto cert_key slot stored cached value n.stored

  chosen-Told :
      (value : String) (found : Option String) (s : S)
      → (found ≡ none → stored s cert_key ≡ none)
      → Told
          (λ done t. Holds crypto cert_key slot stored cached value t)
          ((if is_some found
              then update_certificate_data crypto cert_key value
              else store_certificate_data crypto cert_key value)
            s)
  chosen-Told value (some v) s free =
      update_certificate_data-Holds crypto cert_key slot stored cached laws value s
  chosen-Told value none s free =
      store_certificate_data-Holds crypto cert_key slot stored cached laws value s (free refl)

  persist_certificate_data-Persisted :
      (d : CertificateData) (m : CertState S)
      → Told
          (Persisted d)
          (persist_certificate_data formats (some crypto) cert_key signing_secret_id d m)
  unfolding persist_certificate_data
  persist_certificate_data-Persisted d m =
      after-Told (λ v n. formats.to_json d ≡ ok v) (Persisted d) _
        (lift (map_err CertError.serde (formats.to_json d)) m) (written-Told (formats.to_json d) m)
        λ v n is_v.
          after-Told (λ found n. found ≡ none → stored n.stored cert_key ≡ none) (Persisted d) _
            (within (load_certificate_data crypto cert_key) n)
            (within-Told (λ found t. found ≡ none → stored t cert_key ≡ none)
              (load_certificate_data crypto cert_key) n
              (load_certificate_data-Told crypto cert_key slot stored cached laws n.stored))
            λ found o free. chosen v is_v found o free
    where
      chosen :
          (v : String)
          → formats.to_json d ≡ ok v
          → (found : Option String) (o : CertState S)
          → (found ≡ none → stored o.stored cert_key ≡ none)
          → Told (Persisted d) (
              within
                (if is_some found
                  then update_certificate_data crypto cert_key v
                  else store_certificate_data crypto cert_key v)
                o)
      chosen v is_v found o free =
          map-Told (λ done n. Holds crypto cert_key slot stored cached v n.stored) (Persisted d)
            (within
              (if is_some found
                then update_certificate_data crypto cert_key v
                else store_certificate_data crypto cert_key v)
              o)
            (λ done n holds. (v, is_v, holds))
            (within-Told (λ done t. Holds crypto cert_key slot stored cached v t)
              (if is_some found
                then update_certificate_data crypto cert_key v
                else store_certificate_data crypto cert_key v)
              o (chosen-Told v found o.stored free))

  -- Over a backend that keeps its values under names made of the keys, may keep what is there on
  -- a store, and may have landed a write that fails, and a cache that holds what was put into it
  -- or forgets it: after `persist_certificate_data` has answered `Ok`, from whatever state, and
  -- after any further loads of the certificate data and any loads, stores and deletions of
  -- secrets, where those that are written have another name, whichever of these failed, a load of
  -- the certificate data answers the text of the persisted data, or with the error or the panic
  -- of the backend's load.
  pub load_certificate_data-Loads :
      (d : CertificateData) (m n : CertState S) (uses : List Use)
      → persist_certificate_data formats (some crypto) cert_key signing_secret_id d m ≡ (ok tt, n)
      → AreApart crypto cert_key slot stored cached uses
      → (value : String) × (formats.to_json d ≡ ok value)
        × Loads crypto cert_key slot stored cached value (
            load_certificate_data crypto cert_key
              (all_used crypto cert_key slot stored cached uses n.stored))
  unfolding Told
  load_certificate_data-Loads d m n uses done apart =
      let told : Told {E = CertError} (Persisted d) (ok tt, n) =
        subst (Told {E = CertError} (Persisted d)) done (persist_certificate_data-Persisted d m) in
      let (value, is_value, holds) = told in
      (
        value,
        is_value,
        load-all_used crypto cert_key slot stored cached laws value uses n.stored apart holds,
      )
