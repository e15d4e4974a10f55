-- ===== src/Outbound/KeyVault.antt =====
-- Secrets in Azure Key Vault, src/outbound/azure_kv.rs. The client of Azure, the digest and the
-- cache (moka) are parameters; the pauses between the attempts are part of the client's methods.
pub mod Recovery
use Prim.Native.String as Str
use Prim.Native.Nat.{zero, suc}
use status_list_server.Base.{
  ℕ, ◌==◌, Bool, true, false, String, Option, none, some, List, if◌then◌else◌, Outcome, ok, err,
}
use status_list_server.Base.Action.{Action, ◌>>=◌, ◌>>◌, pure, throw, lift}
use status_list_server.Certificates.Storage.{
  StorageError, backend, Storage, MaterialCache, put_cached, get_cached, put_loaded,
}
use status_list_server.Certificates.Storage.Keys.{normalize_key}

pub record AzureError : Type 0 where
  pub http_status : Option ℕ
  pub text : String

-- `SecretClient`. A secret that is got is its value, where its model has one.
pub record SecretClient (S : Type 0) : Type 0 where
  pub set_secret : String → String → Action AzureError S (Unit {0})
  pub recover_deleted_secret : String → Action AzureError S (Unit {0})
  pub get_secret : String → Action AzureError S (Outcome String (Option String))
  pub delete_secret : String → Action AzureError S (Unit {0})
  pub purge_deleted_secret : String → Action AzureError S (Unit {0})

-- What follows from each way in which a method may end.
abbrev handle : {E F S A B : Type 0} → Action E S A → (Outcome E A → Action F S B) → Action F S B
handle m f s = f (m s).0 (m s).1

abbrev has_status : ℕ → AzureError → Bool
has_status status e = by_status e.http_status
  where
    by_status : Option ℕ → Bool
    by_status none = false
    by_status (some n) = n == status

abbrev pub is_conflict : AzureError → Bool
is_conflict e = has_status 409 e

abbrev pub is_not_found : AzureError → Bool
is_not_found e = has_status 404 e

abbrev about : String → String → String → String → StorageError
about before key after_it e = backend (Str.◌++◌ before (Str.◌++◌ key (Str.◌++◌ after_it e)))

abbrev pub max_attempts : ℕ
max_attempts = 10

module _ {S : Type 0} (client : SecretClient S) (digest : List ℕ → String)
    (cache : Option (MaterialCache S)) where
  abbrev pub name_of : String → String
  name_of key = normalize_key digest key

  abbrev unrecovered : String → StorageError
  unrecovered key = about "timeout waiting for Azure secret '" key "' recovery to complete" ""

  abbrev pub polled :
      String
      → Action StorageError S (Unit {0})
      → Outcome AzureError (Unit {0})
      → Action StorageError S (Unit {0})
  polled key again (ok u) s = (ok tt, s)
  polled key again (err e) s =
      if is_conflict e
      then again s
      else (err (about "failed to set Azure secret '" key "' after recovery: " e.text), s)
  polled key again Outcome.panic s = (Outcome.panic, s)

  -- The attempts that are left once the recovery was started.
  unfoldable pub poll : ℕ → String → String → Action StorageError S (Unit {0})
  unfolding normalize_key
  poll zero key value = throw (unrecovered key)
  poll (suc attempts) key value =
      handle (client.set_secret (name_of key) value) (polled key (poll attempts key value))

  abbrev pub recovering :
      String
      → Outcome AzureError (Unit {0})
      → Action StorageError S (Unit {0})
      → Action StorageError S (Unit {0})
  recovering key (ok u) next s = next s
  recovering key (err e) next s =
      (err (about "failed to initiate recovery of soft-deleted Azure secret '" key "': " e.text), s)
  recovering key Outcome.panic next s = (Outcome.panic, s)

  abbrev pub recover : String → String → Action StorageError S (Unit {0})
  recover key value =
      handle (client.recover_deleted_secret (name_of key))
        (λ recovery. recovering key recovery (poll max_attempts key value))

  abbrev pub was_set :
      String → String → Outcome AzureError (Unit {0}) → Action StorageError S (Unit {0})
  was_set key value (ok u) s = (ok tt, s)
  was_set key value (err e) s =
      let recovery = recover key value s in
      if is_conflict e
      then recovery
      else (err (about "failed to set Azure secret '" key "': " e.text), s)
  was_set key value Outcome.panic s = (Outcome.panic, s)

  unfoldable pub store : String → String → Action StorageError S (Unit {0})
  unfolding poll normalize_key
  store key value =
      handle (client.set_secret (name_of key) value) (was_set key value)
      >> put_cached cache key value

  abbrev unparsed : String → String → StorageError
  unparsed key e = about "failed to parse Azure secret response model for '" key "': " e

  abbrev parsed : String → Outcome String (Option String) → Action StorageError S (Option String)
  parsed key (ok value) = put_loaded cache key value >> pure value
  parsed key (err e) = throw (unparsed key e)
  parsed key Outcome.panic = lift Outcome.panic

  abbrev was_got :
      String
      → Outcome AzureError (Outcome String (Option String))
      → Action StorageError S (Option String)
  was_got key (ok model) s = parsed key model s
  was_got key (err e) s =
      if is_not_found e
      then (ok none, s)
      else (err (about "Azure secret load failed for key '" key "': " e.text), s)
  was_got key Outcome.panic s = (Outcome.panic, s)

  abbrev or_got : String → Option String → Action StorageError S (Option String)
  or_got key (some value) = pure (some value)
  or_got key none = handle (client.get_secret (name_of key)) (was_got key)

  unfoldable pub load : String → Action StorageError S (Option String)
  unfolding normalize_key
  load key = get_cached cache key >>= or_got key

  abbrev forget : String → Action StorageError S (Unit {0})
  forget key = dropped cache
    where
      dropped : Option (MaterialCache S) → Action StorageError S (Unit {0})
      dropped none = pure tt
      dropped (some c) = c.invalidate key

  -- A purge that fails is only logged.
  abbrev logged : Outcome AzureError (Unit {0}) → Action StorageError S (Unit {0})
  logged (ok u) s = (ok tt, s)
  logged (err e) s = (ok tt, s)
  logged Outcome.panic s = (Outcome.panic, s)

  abbrev purged : String → Action StorageError S (Unit {0})
  purged key = handle (client.purge_deleted_secret (name_of key)) logged

  abbrev was_deleted : String → Outcome AzureError (Unit {0}) → Action StorageError S (Unit {0})
  was_deleted key (ok u) s = (forget key >> purged key) s
  was_deleted key (err e) s =
      let forgotten = forget key s in
      if is_not_found e
      then forgotten
      else (err (about "Azure secret delete failed for key '" key "': " e.text), s)
  was_deleted key Outcome.panic s = (Outcome.panic, s)

  unfoldable pub delete_secret : String → Action StorageError S (Unit {0})
  unfolding normalize_key
  delete_secret key = handle (client.delete_secret (name_of key)) (was_deleted key)

  abbrev probed :
      Outcome AzureError (Outcome String (Option String)) → Action StorageError S (Unit {0})
  probed (ok model) s = (ok tt, s)
  probed (err e) s =
      if is_not_found e
      then (ok tt, s)
      else (err (about "Azure Key Vault readiness check failed: " "" "" e.text), s)
  probed Outcome.panic s = (Outcome.panic, s)

  unfoldable pub reachable : Action StorageError S (Unit {0})
  reachable = handle (client.get_secret "health-probe-do-not-create") probed

  unfoldable pub storage : Storage S
  unfolding store load delete_secret
  storage = record { store = store; load = load; update = store; delete = delete_secret }
