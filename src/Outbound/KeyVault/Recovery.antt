-- ===== src/Outbound/KeyVault/Recovery.antt =====
-- A secret that was deleted softly is recovered and set.
use Prim.Native.Nat.{zero, suc}
use status_list_server.Base.{
  ℕ, ◌<◌, true, String, Option, none, some, List, ok, err, ◌≡◌, refl, arith, ◌⊎◌, inl, inr,
}
use status_list_server.Certificates.Storage.Keys.{normalize_key}
use status_list_server.Outbound.KeyVault.{
  AzureError, SecretClient, is_conflict, max_attempts, poll, store,
}

-- A vault in which a secret that was deleted softly refuses every write with a conflict until its
-- recovery is started, and then `delay` more writes while the recovery runs. `pending` is none for a
-- deleted secret, and else the number of writes that are still refused.
pub record IsRecovering {S : Type 0} (client : SecretClient S) (delay : ℕ) (pending : S → Option ℕ)
    (stored : S → String → Option String) : Type 0 where
  pub sets :
      (name value : String) (s : S)
      → pending s ≡ some 0
      → (s' : S) × (client.set_secret name value s ≡ (ok tt, s')) × (stored s' name ≡ some value)
  pub refuses :
      (name value : String) (s : S)
      → pending s ≡ none
      → (e : AzureError) × (s' : S) × (client.set_secret name value s ≡ (err e, s'))
        × (is_conflict e ≡ true)
        × (pending s' ≡ none)
  pub waits :
      (name value : String) (s : S) (n : ℕ)
      → pending s ≡ some (suc n)
      → (e : AzureError) × (s' : S) × (client.set_secret name value s ≡ (err e, s'))
        × (is_conflict e ≡ true)
        × (pending s' ≡ some n)
  pub recovers :
      (name : String) (s : S)
      → pending s ≡ none
      → (s' : S) × (client.recover_deleted_secret name s ≡ (ok tt, s')) × (pending s' ≡ some delay)

module _ {S : Type 0} (client : SecretClient S) (delay : ℕ) (pending : S → Option ℕ)
    (stored : S → String → Option String) (digest : List ℕ → String) (key value : String)
    (vault : IsRecovering client delay pending stored) where
  poll-sets :
      (attempts : ℕ) (s : S) (n : ℕ)
      → pending s ≡ some n
      → n < attempts
      → (s' : S) × (poll client digest none attempts key value s ≡ (ok tt, s'))
        × (stored s' (normalize_key digest key) ≡ some value)
  unfolding poll
  poll-sets zero s n e h = absurd (omega arith)
  poll-sets (suc attempts) s zero e h =
      let (s', set, kept) = vault.sets (normalize_key digest key) value s e in
      (s', rw set refl, kept)
  poll-sets (suc attempts) s (suc n) e h =
      let (error, s₁, set, conflict, less) = vault.waits (normalize_key digest key) value s n e in
      let (s', ends, kept) = poll-sets attempts s₁ n less (omega (arith, h)) in
      (s', rw (set, conflict) ends, kept)

  -- Without a cache, over a vault in which a secret that was deleted softly refuses every write
  -- with a conflict until its recovery is started, and then at most nine more: for a secret that
  -- was deleted so, or that nothing is in the way of, `store` succeeds, and the value is stored
  -- under the normalized key.
  pub store-recovers :
      (s : S)
      → (pending s ≡ none) ⊎ (pending s ≡ some 0)
      → delay < max_attempts
      → (s' : S) × (store client digest none key value s ≡ (ok tt, s'))
        × (stored s' (normalize_key digest key) ≡ some value)
  unfolding store
  store-recovers s (inr free) fast =
      let (s', set, kept) = vault.sets (normalize_key digest key) value s free in
      (s', rw set refl, kept)
  store-recovers s (inl deleted) fast =
      let (error, s₁, set, conflict, still) =
        vault.refuses (normalize_key digest key) value s deleted in
      let (s₂, recovered, started) = vault.recovers (normalize_key digest key) s₁ still in
      let (s', ends, kept) = poll-sets max_attempts s₂ delay started fast in
      (s', rw (set, conflict, recovered, ends) refl, kept)
