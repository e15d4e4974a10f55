-- ===== src/Certificates/Storage.antt =====
-- src/utils/cert_manager/storage.rs: the storage of certificates and keys, with its caches. The
-- backend and the caches (moka) are parameters.
pub mod Keys
pub mod Told
pub mod Coherence
pub mod Loads
use status_list_server.Base.{String, Option, none, some}
use status_list_server.Base.Action.{Action, ◌>>=◌, ◌>>◌, pure}

pub data StorageError : Type 0 where
  backend invalid_data : String → StorageError

pub record Storage (S : Type 0) : Type 0 where
  pub store : String → String → Action StorageError S (Unit {0})
  pub load : String → Action StorageError S (Option String)
  pub update : String → String → Action StorageError S (Unit {0})
  pub delete : String → Action StorageError S (Unit {0})

-- The operations of moka do not fail; they have the type of those that are chained with them.
pub record MaterialCache (S : Type 0) : Type 0 where
  pub get : String → Action StorageError S (Option String)
  pub put : String → String → Action StorageError S (Unit {0})
  pub invalidate : String → Action StorageError S (Unit {0})

pub record CryptoStorage (S : Type 0) : Type 0 where
  pub backend : Storage S
  pub certificate_cache : MaterialCache S
  pub signing_key_cache : Option (MaterialCache S)

module _ {S : Type 0} where
  -- `if let Some(cache) = cache { cache.insert(..).await }`.
  abbrev pub put_cached :
      Option (MaterialCache S) → String → String → Action StorageError S (Unit {0})
  put_cached none key value = pure tt
  put_cached (some cache) key value = cache.put key value

  abbrev pub get_cached : Option (MaterialCache S) → String → Action StorageError S (Option String)
  get_cached none key = pure none
  get_cached (some cache) key = cache.get key

  abbrev pub put_loaded :
      Option (MaterialCache S) → String → Option String → Action StorageError S (Unit {0})
  put_loaded cache key none = pure tt
  put_loaded cache key (some value) = put_cached cache key value

module _ {S : Type 0} (crypto : CryptoStorage S) where
  abbrev pub load_missing :
      Option (MaterialCache S) → String → Option String → Action StorageError S (Option String)
  load_missing cache key (some value) = pure (some value)
  load_missing cache key none =
      crypto.backend.load key >>= λ loaded. put_loaded cache key loaded >> pure loaded

  unfoldable pub load_with_cache :
      String → Option (MaterialCache S) → Action StorageError S (Option String)
  load_with_cache key cache = get_cached cache key >>= λ found. load_missing cache key found

  unfoldable pub store_certificate_data : String → String → Action StorageError S (Unit {0})
  store_certificate_data key value =
      crypto.backend.store key value >> crypto.certificate_cache.put key value

  unfoldable pub update_certificate_data : String → String → Action StorageError S (Unit {0})
  update_certificate_data key value =
      crypto.backend.update key value >> crypto.certificate_cache.put key value

  unfoldable pub load_certificate_data : String → Action StorageError S (Option String)
  unfolding load_with_cache
  load_certificate_data key = load_with_cache key (some crypto.certificate_cache)

  unfoldable pub store_signing_key : String → String → Action StorageError S (Unit {0})
  store_signing_key key value =
      crypto.backend.store key value >> put_cached crypto.signing_key_cache key value

  unfoldable pub load_signing_key : String → Action StorageError S (Option String)
  unfolding load_with_cache
  load_signing_key key = load_with_cache key crypto.signing_key_cache

  unfoldable pub update_signing_key : String → String → Action StorageError S (Unit {0})
  update_signing_key key value =
      crypto.backend.update key value >> put_cached crypto.signing_key_cache key value

  unfoldable pub store_secret : String → String → Action StorageError S (Unit {0})
  store_secret key value = crypto.backend.store key value

  unfoldable pub load_secret : String → Action StorageError S (Option String)
  load_secret key = crypto.backend.load key

  unfoldable pub delete_secret : String → Action StorageError S (Unit {0})
  delete_secret key = crypto.backend.delete key

  abbrev forget_cached : Option (MaterialCache S) → String → Action StorageError S (Unit {0})
  forget_cached none key = pure tt
  forget_cached (some cache) key = cache.invalidate key

  unfoldable pub invalidate_signing_key : String → Action StorageError S (Unit {0})
  invalidate_signing_key key = forget_cached crypto.signing_key_cache key
