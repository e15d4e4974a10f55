-- ===== src/Domain/Service.antt =====
-- src/domain/service.rs: the operations over the ports. The clock's reading and the fresh UUID
-- are arguments of the operations that take them.
pub mod Contract
pub mod Effects
pub mod Updates
pub mod Reads
pub mod History
pub mod Admission
use Prim.Native.String.{len}
use text.Mathlib.Text.{◌==◌ as str_eq}
use status_list_server.Base.{
  is_some, ℕ, ℤ, pos, ◌+◌, ◌%◌, ◌^◌, ltb, ltb_ℤ, max_ℤ, add_i64, wrap_signed, if◌then◌else◌, List,
  [], ◌∷◌, length, String, Bool, true, false, not, Option, none, some, ok, err, panic, Outcome,
  ok_or, and_then,
}
use status_list_server.Base.Action.{Action, ◌>>=◌, ◌>>◌, pure, throw, lift, attempt}
use status_list_server.Domain.Model.{
  StatusListError, StatusEntry, StatusListRecord, StatusListSnapshot, Issuer, Credential,
  CredentialError, too_many_statuses, index_too_large, not_found, issuer_mismatch, too_large,
  conflict, historical_not_found,
}
use status_list_server.Domain.Ports.{
  StatusListRepo, CredentialRepo, StatusListCache, StatusListSnapshotRepo, CertificateProvider,
}
use status_list_server.Domain.StatusList.{Codec, create, update}

pub record Service (S : Type 0) : Type 0 where
  pub status_list_repo : StatusListRepo S
  pub credential_repo : CredentialRepo S
  pub status_list_cache : StatusListCache S
  pub snapshot_repo : Option (StatusListSnapshotRepo S)
  pub cert_provider : CertificateProvider S

-- The limits of the configuration that the handlers pass on.
pub record Limits : Type 0 where
  pub token_exp_secs : ℕ
  pub max_status_index : ℤ
  pub max_statuses_per_request : ℕ
  pub max_serialized_list_size : ℕ

abbrev pub snapshots_enabled : {S : Type 0} → Service S → Bool
snapshots_enabled service = is_some service.snapshot_repo

-- `max(now, previous + 1)` of `i64`.
unfoldable pub next_updated_at : ℤ → ℤ → ℤ
unfolding add_i64
next_updated_at previous now = max_ℤ now (add_i64 previous (pos 1))

unfoldable pub build_snapshot : StatusListRecord → ℕ → String → StatusListSnapshot
unfolding add_i64
build_snapshot r token_exp_secs uuid = record {
  snapshot_id = uuid;
  list_id = r.list_id;
  issuer = r.issuer;
  status_list = r.status_list;
  sub = r.sub;
  iat = r.updated_at;
  exp = add_i64 r.updated_at (wrap_signed 64 token_exp_secs);
}

-- `for entry in &statuses { if entry.index > max_status_index { return Err(..) } }`.
unfoldable pub check_indices : ℤ → List StatusEntry → Outcome StatusListError (Unit {0})
check_indices bound [] = ok tt
check_indices bound (entry ∷ statuses) =
    let rest = check_indices bound statuses in
    if ltb_ℤ bound entry.index then err (index_too_large entry.index bound) else rest

unfoldable pub check_statuses : Limits → List StatusEntry → Outcome StatusListError (Unit {0})
unfolding check_indices
check_statuses limits statuses =
    if ltb limits.max_statuses_per_request (length statuses)
    then err (too_many_statuses (length statuses) limits.max_statuses_per_request)
    else check_indices limits.max_status_index statuses

-- Both outcomes are only logged.
unfoldable pub invalidate_after_commit :
    {S : Type 0} → StatusListCache S → String → Action StatusListError S (Unit {0})
invalidate_after_commit cache list_id = attempt (cache.invalidate list_id) (λ _. pure tt)

module _ {S : Type 0} (service : Service S) (codec : Codec) where
  unfoldable pub insert_published :
      StatusListRecord → ℕ → String → Action StatusListError S (Unit {0})
  insert_published r token_exp_secs uuid =
      if snapshots_enabled service
      then service.status_list_repo.insert_with_snapshot r (build_snapshot r token_exp_secs uuid)
      else service.status_list_repo.insert r

  unfoldable pub publish_status_list :
      String
      → Issuer
      → String
      → List StatusEntry
      → Limits
      → ℤ
      → String
      → Action StatusListError S StatusListRecord
  unfolding check_statuses insert_published
  publish_status_list list_id issuer sub statuses limits now uuid = do
    lift (check_statuses limits statuses)
    list ← lift (create codec statuses)
    let r : StatusListRecord = record {
      list_id = list_id;
      issuer = issuer;
      status_list = list;
      sub = sub;
      updated_at = now;
    }
    if ltb limits.max_serialized_list_size (len list.lst)
        then throw too_large
        else (insert_published r limits.token_exp_secs uuid >> pure r)

  unfoldable pub commit_update : StatusListRecord → ℤ → ℕ → String → Action StatusListError S Bool
  commit_update r expected token_exp_secs uuid =
      if snapshots_enabled service
      then service.status_list_repo.update_with_snapshot r expected
          (build_snapshot r token_exp_secs uuid)
      else service.status_list_repo.update r expected

  -- The record that an update writes, from the one that was read.
  unfoldable pub revise :
      StatusListRecord
      → Issuer
      → List StatusEntry
      → Limits
      → ℤ
      → Outcome StatusListError StatusListRecord
  revise existing issuer statuses limits now =
      if not (str_eq existing.issuer.name issuer.name)
      then err issuer_mismatch
      else (and_then (update codec existing.status_list statuses) λ list.
          if ltb limits.max_serialized_list_size (len list.lst)
          then err too_large
          else ok (record existing {
            status_list = list;
            updated_at = next_updated_at existing.updated_at now;
          }))

  -- The write, its guard, and the invalidation after it.
  unfoldable pub finish_update :
      StatusListRecord → ℤ → ℕ → String → Action StatusListError S StatusListRecord
  unfolding commit_update invalidate_after_commit
  finish_update revised expected token_exp_secs uuid = do
    landed ← commit_update revised expected token_exp_secs uuid
    if landed
        then (invalidate_after_commit service.status_list_cache revised.list_id >> pure revised)
        else throw conflict

  unfoldable pub update_statuses :
      Issuer
      → String
      → List StatusEntry
      → Limits
      → ℤ
      → String
      → Action StatusListError S StatusListRecord
  unfolding check_statuses revise finish_update
  update_statuses issuer list_id statuses limits now uuid = do
    lift (check_statuses limits statuses)
    found ← service.status_list_repo.find list_id
    existing ← lift (ok_or found not_found)
    revised ← lift (revise existing issuer statuses limits now)
    finish_update revised existing.updated_at limits.token_exp_secs uuid

  -- The read of the store, and the entry that it leaves in the cache.
  unfoldable pub fetch_and_cache : String → Action StatusListError S StatusListRecord
  fetch_and_cache list_id = do
    found ← service.status_list_repo.find list_id
    r ← lift (ok_or found not_found)
    attempt (service.status_list_cache.put r) (λ _. pure r)

  abbrev pub from_cache :
      Option StatusListRecord
      → Action StatusListError S StatusListRecord
      → Action StatusListError S StatusListRecord
  from_cache none fallback = fallback
  from_cache (some r) fallback = pure r

  -- A failing cache is only logged.
  abbrev pub cache_answer :
      Outcome StatusListError (Option StatusListRecord)
      → Action StatusListError S StatusListRecord
      → Action StatusListError S StatusListRecord
  cache_answer (ok answer) fallback = from_cache answer fallback
  cache_answer (err e) fallback = fallback
  cache_answer panic fallback = lift panic

  unfoldable pub get_status_list : String → Action StatusListError S StatusListRecord
  unfolding fetch_and_cache
  get_status_list list_id =
      attempt (service.status_list_cache.get list_id)
        (λ answer. cache_answer answer (fetch_and_cache list_id))

  unfoldable pub list_uris : Action StatusListError S (List String)
  list_uris = service.status_list_repo.list_uris

  abbrev pub snapshot_at :
      Option (StatusListSnapshotRepo S) → String → ℤ → Action StatusListError S StatusListSnapshot
  snapshot_at none list_id time = throw not_found
  snapshot_at (some repo) list_id time = do
    found ← repo.find_valid_at list_id time
    lift (ok_or found historical_not_found)

  unfoldable pub get_snapshot_at : String → ℤ → Action StatusListError S StatusListSnapshot
  get_snapshot_at list_id time = snapshot_at service.snapshot_repo list_id time

  abbrev pub cleanup : Option (StatusListSnapshotRepo S) → ℤ → Action StatusListError S ℕ
  cleanup none cutoff = pure 0
  cleanup (some repo) cutoff = repo.delete_older_than cutoff

  unfoldable pub cleanup_snapshots : ℤ → Action StatusListError S ℕ
  cleanup_snapshots cutoff = cleanup service.snapshot_repo cutoff

  unfoldable pub publish_credential : Credential → Action CredentialError S (Unit {0})
  publish_credential credential = service.credential_repo.insert credential

  unfoldable pub find_credential : String → Action CredentialError S (Option Credential)
  find_credential issuer = service.credential_repo.find issuer
