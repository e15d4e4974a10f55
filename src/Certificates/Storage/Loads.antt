-- ===== src/Certificates/Storage/Loads.antt =====
-- Loads of the certificate data while it is held, between other uses of the storage of
-- src/utils/cert_manager/storage.rs.
use status_list_server.Base.{
  String, Option, none, some, List, [], ◌∷◌, Outcome, ok, err, panic, ◌≡◌, refl, ap, ◌∙◌, inl, inr,
}
use status_list_server.Base.Action.{◌>>◌, pure, after}
use status_list_server.Certificates.Storage.Told.{Told}
use status_list_server.Certificates.Storage.Coherence.{Quiet, Elsewhere, IsKept, Holds}
use status_list_server.Certificates.Storage.{
  StorageError, CryptoStorage, load_certificate_data, load_secret, store_secret, delete_secret,
  load_with_cache, put_loaded, load_missing,
}

-- What an operator may do with the storage between two writes of the certificate data.
pub data Use : Type 0 where
  loads : Use
  loads_secret deletes_secret : String → Use
  stores_secret : String → String → Use

some-injective : {A : Type 0} {a b : A} → ◌≡◌ {A = Option A} (some a) (some b) → a ≡ b
some-injective h = cc

module _ {S : Type 0} (crypto : CryptoStorage S) (cert_key : String) (slot : String → String)
    (stored cached : S → String → Option String) where
  -- The state that a call leaves, whatever it answers.
  abbrev pub used : Use → S → S
  used loads s = (load_certificate_data crypto cert_key s).1
  used (loads_secret key) s = (load_secret crypto key s).1
  used (deletes_secret key) s = (delete_secret crypto key s).1
  used (stores_secret key value) s = (store_secret crypto key value s).1

  abbrev pub all_used : List Use → S → S
  all_used [] s = s
  all_used (u ∷ uses) s = all_used uses (used u s)

  -- A secret that is written is kept in another place than the certificate data.
  abbrev pub IsApart : Use → Type 0
  IsApart loads = Unit
  IsApart (loads_secret key) = Unit
  IsApart (deletes_secret key) = ¬ (slot cert_key ≡ slot key)
  IsApart (stores_secret key value) = ¬ (slot cert_key ≡ slot key)

  abbrev pub AreApart : List Use → Type 0
  AreApart [] = Unit
  AreApart (u ∷ uses) = IsApart u × AreApart uses

  -- The load answers the value, unless the backend fails or panics.
  unfoldable pub Loads : String → Outcome StorageError (Option String) × S → Type 0
  Loads value (ok o, t) = o ≡ some value
  Loads value (err e, t) = (s : S) × ((crypto.backend.load cert_key s).0 ≡ err e)
  Loads value (panic, t) = (s : S) × ((crypto.backend.load cert_key s).0 ≡ panic)

  Quiet-Holds :
      (value : String) (s t : S)
      → Quiet crypto cert_key slot stored cached s t
      → Holds crypto cert_key slot stored cached value s
      → Holds crypto cert_key slot stored cached value t
  Quiet-Holds value s t (same, forgets) (held, only) =
      (same cert_key ∙ held, λ v e. only v (forgets cert_key v e))

  Elsewhere-Holds :
      (value key : String) (s t : S)
      → ¬ (slot cert_key ≡ slot key)
      → Elsewhere crypto cert_key slot stored cached key s t
      → Holds crypto cert_key slot stored cached value s
      → Holds crypto cert_key slot stored cached value t
  Elsewhere-Holds value key s t apart (same, forgets) (held, only) =
      (same cert_key apart ∙ held, λ v e. only v (forgets cert_key v e))

  module _ (laws : IsKept crypto cert_key slot stored cached) where
    -- A load, while the value is held.
    Kept : String → Outcome StorageError (Option String) × S → Type 0
    Kept value x = Holds crypto cert_key slot stored cached value x.1 × Loads value x

    put-again :
        (value : String) (s : S)
        → Holds crypto cert_key slot stored cached value s
        → Kept value
            (after (λ done. pure (some value)) (crypto.certificate_cache.put cert_key value s))
    unfolding Kept Loads
    put-again value s (held, only) =
        let (t, done, same, kept) = laws.put cert_key value s in
        rw done (
          (
            same cert_key ∙ held,
            λ v e. elim (kept cert_key v e) [ inl other ↦ absurd (other.0 refl) | inr now ↦ now.1 ],
          ),
          refl,
        )

    loaded-Kept :
        (value : String) (s : S) (x : Outcome StorageError (Option String) × S)
        → crypto.backend.load cert_key s ≡ x
        → Quiet crypto cert_key slot stored cached s x.1
        → Told (λ o t. o ≡ stored s cert_key) x
        → Holds crypto cert_key slot stored cached value s
        → Kept value (
            after
              (λ loaded. put_loaded (some crypto.certificate_cache) cert_key loaded >> pure loaded)
              x)
    unfolding Told Kept Loads
    loaded-Kept value s (ok none, t) is_x quiet e holds =
        (Quiet-Holds value s t quiet holds, e ∙ holds.0)
    loaded-Kept value s (ok (some v), t) is_x quiet e holds =
        let same : v ≡ value = some-injective (e ∙ holds.0) in
        rw same (put-again value t (Quiet-Holds value s t quiet holds))
    loaded-Kept value s (err f, t) is_x quiet e holds =
        (Quiet-Holds value s t quiet holds, (s, ap (λ x. x.0) is_x))
    loaded-Kept value s (panic, t) is_x quiet e holds =
        (Quiet-Holds value s t quiet holds, (s, ap (λ x. x.0) is_x))

    load-Kept :
        (value : String) (s : S)
        → Holds crypto cert_key slot stored cached value s
        → Kept value (load_certificate_data crypto cert_key s)
    unfolding load_certificate_data load_with_cache Kept Loads
    load-Kept value s holds =
        let (o, t, got, quiet, found) = laws.get cert_key s in
        rw got (looked_up o t found (Quiet-Holds value s t quiet holds))
      where
        looked_up :
            (o : Option String) (t : S)
            → ((v : String) → o ≡ some v → cached s cert_key ≡ some v)
            → Holds crypto cert_key slot stored cached value t
            → Kept value (load_missing crypto (some crypto.certificate_cache) cert_key o t)
        looked_up (some v) t found held = (held, ap some (holds.1 v (found v refl)))
        looked_up none t found held =
            loaded-Kept value t (crypto.backend.load cert_key t) refl (laws.load cert_key t)
              (laws.loaded cert_key t) held

    used-Holds :
        (value : String) (u : Use) (s : S)
        → IsApart u
        → Holds crypto cert_key slot stored cached value s
        → Holds crypto cert_key slot stored cached value (used u s)
    unfolding load_secret store_secret delete_secret Kept
    used-Holds value loads s apart h = (load-Kept value s h).0
    used-Holds value (loads_secret key) s apart h = Quiet-Holds value s _ (laws.load key s) h
    used-Holds value (deletes_secret key) s apart h =
        Elsewhere-Holds value key s _ apart (laws.delete key s) h
    used-Holds value (stores_secret key v) s apart h =
        Elsewhere-Holds value key s _ apart (laws.store key v s) h

    all_used-Holds :
        (value : String) (uses : List Use) (s : S)
        → AreApart uses
        → Holds crypto cert_key slot stored cached value s
        → Holds crypto cert_key slot stored cached value (all_used uses s)
    all_used-Holds value [] s apart h = h
    all_used-Holds value (u ∷ uses) s (apart, others) h =
        all_used-Holds value uses (used u s) others (used-Holds value u s apart h)

    pub load-all_used :
        (value : String) (uses : List Use) (s : S)
        → AreApart uses
        → Holds crypto cert_key slot stored cached value s
        → Loads value (load_certificate_data crypto cert_key (all_used uses s))
    unfolding Kept
    load-all_used value uses s apart h =
        (load-Kept value (all_used uses s) (all_used-Holds value uses s apart h)).1
