-- ===== src/Certificates/Storage/Coherence.antt =====
-- The cache of the certificate data in `CryptoStorage` of src/utils/cert_manager/storage.rs, next to
-- what the backend holds, after `persist_certificate_data` of src/utils/cert_manager.rs.
use status_list_server.Base.{
  String, Option, none, some, Outcome, ok, err, panic, ◌≡◌, refl, sym, ◌∙◌, ◌⊎◌, inl, inr,
}
use status_list_server.Base.Action.{◌>>◌, pure, after}
use status_list_server.Certificates.Storage.Told.{Told, after-Told}
use status_list_server.Certificates.Storage.{
  StorageError, CryptoStorage, load_certificate_data, store_certificate_data,
  update_certificate_data, load_with_cache, put_loaded, load_missing,
}

module _ {S : Type 0} (crypto : CryptoStorage S) (cert_key : String) (slot : String → String)
    (stored cached : S → String → Option String) where
  -- A cache may forget at any time.
  abbrev pub Forgets : S → S → Type 0
  Forgets s t = (k v : String) → cached t k ≡ some v → cached s k ≡ some v

  abbrev pub Quiet : S → S → Type 0
  Quiet s t = ((k : String) → stored t k ≡ stored s k) × Forgets s t

  -- Nothing changed but what is stored in the place of the key.
  abbrev pub Elsewhere : String → S → S → Type 0
  Elsewhere key s t = ((k : String) → ¬ (slot k ≡ slot key) → stored t k ≡ stored s k) × Forgets s t

  -- The names under which the backend keeps its values are made of the keys by `slot`. A write
  -- that fails may have landed. A store writes where nothing is stored, and may keep what is there.
  pub record IsKept : Type 0 where
    pub load : (key : String) (s : S) → Quiet s (crypto.backend.load key s).1
    pub loaded : (key : String) (s : S) → Told (λ o t. o ≡ stored s key) (crypto.backend.load key s)
    pub store : (key value : String) (s : S) → Elsewhere key s (crypto.backend.store key value s).1
    pub created :
        (key value : String) (s : S)
        → stored s key ≡ none
        → Told (λ done t. stored t key ≡ some value) (crypto.backend.store key value s)
    pub update :
        (key value : String) (s : S) → Elsewhere key s (crypto.backend.update key value s).1
    pub updated :
        (key value : String) (s : S)
        → Told (λ done t. stored t key ≡ some value) (crypto.backend.update key value s)
    pub delete : (key : String) (s : S) → Elsewhere key s (crypto.backend.delete key s).1
    pub get :
        (key : String) (s : S)
        → (o : Option String) × (t : S) × (crypto.certificate_cache.get key s ≡ (ok o, t))
          × Quiet s t
          × ((v : String) → o ≡ some v → cached s key ≡ some v)
    pub put :
        (key value : String) (s : S)
        → (t : S) × (crypto.certificate_cache.put key value s ≡ (ok tt, t))
          × ((k : String) → stored t k ≡ stored s k)
          × ((k v : String)
              → cached t k ≡ some v
              → ((¬ (k ≡ key)) × (cached s k ≡ some v)) ⊎ ((k ≡ key) × (v ≡ value)))

  -- The value is stored as the certificate data, and no other one is cached as that.
  abbrev pub Holds : String → S → Type 0
  Holds value s =
      (stored s cert_key ≡ some value) × ((v : String) → cached s cert_key ≡ some v → v ≡ value)

  module _ (laws : IsKept) where
    put-Holds :
        (value : String) (s : S)
        → stored s cert_key ≡ some value
        → Told (λ done t. Holds value t) (crypto.certificate_cache.put cert_key value s)
    unfolding Told
    put-Holds value s held =
        let (t, done, same, kept) = laws.put cert_key value s in
        rw done (
          same cert_key ∙ held,
          λ v e. elim (kept cert_key v e) [ inl other ↦ absurd (other.0 refl) | inr now ↦ now.1 ],
        )

    -- A write that is answered with `Ok`, and then cached.
    pub update_certificate_data-Holds :
        (value : String) (s : S)
        → Told (λ done t. Holds value t) (update_certificate_data crypto cert_key value s)
    unfolding update_certificate_data
    update_certificate_data-Holds value s =
        after-Told (λ done t. stored t cert_key ≡ some value) (λ done t. Holds value t)
          (λ done. crypto.certificate_cache.put cert_key value)
          (crypto.backend.update cert_key value s) (laws.updated cert_key value s)
          (λ done t held. put-Holds value t held)

    pub store_certificate_data-Holds :
        (value : String) (s : S)
        → stored s cert_key ≡ none
        → Told (λ done t. Holds value t) (store_certificate_data crypto cert_key value s)
    unfolding store_certificate_data
    store_certificate_data-Holds value s free =
        after-Told (λ done t. stored t cert_key ≡ some value) (λ done t. Holds value t)
          (λ done. crypto.certificate_cache.put cert_key value)
          (crypto.backend.store cert_key value s) (laws.created cert_key value s free)
          (λ done t held. put-Holds value t held)

    -- Where nothing is found, nothing is stored.
    missing-Told :
        (s : S) (x : Outcome StorageError (Option String) × S)
        → Quiet s x.1
        → Told (λ o t. o ≡ stored s cert_key) x
        → Told
            (λ found t. found ≡ none → stored t cert_key ≡ none)
            (after
              (λ loaded. put_loaded (some crypto.certificate_cache) cert_key loaded >> pure loaded)
              x)
    unfolding Told
    missing-Told s (ok none, t) quiet e = λ same. quiet.0 cert_key ∙ sym e
    missing-Told s (ok (some value), t) quiet e =
        let (u, done, same, kept) = laws.put cert_key value t in
        rw done (λ (bad : some value ≡ none). cc)
    missing-Told s (err f, t) quiet e = tt
    missing-Told s (panic, t) quiet e = tt

    pub load_certificate_data-Told :
        (s : S)
        → Told
            (λ found t. found ≡ none → stored t cert_key ≡ none)
            (load_certificate_data crypto cert_key s)
    unfolding load_certificate_data load_with_cache Told
    load_certificate_data-Told s =
        let (o, t, got, quiet, found) = laws.get cert_key s in rw got (looked_up o t)
      where
        looked_up :
            (o : Option String) (t : S)
            → Told
                (λ found u. found ≡ none → stored u cert_key ≡ none)
                (load_missing crypto (some crypto.certificate_cache) cert_key o t)
        looked_up (some value) t = λ (bad : some value ≡ none). cc
        looked_up none t =
            missing-Told t (crypto.backend.load cert_key t) (laws.load cert_key t)
              (laws.loaded cert_key t)
