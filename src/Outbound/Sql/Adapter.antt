-- ===== src/Outbound/Sql/Adapter.antt =====
-- The ports of src/outbound/sql/mod.rs over the store. Writing and parsing a JSON web key is a
-- parameter.
pub mod Contract
use Prim.Native.String as Str
use status_list_server.Base.{
  ℕ, zero, suc, ℤ, String, Bool, Option, none, some, List, Outcome, ok, err, panic, map_err,
  and_then, map_option,
}
use status_list_server.Base.Action.{Action, ◌>>=◌, ◌>>◌, pure, throw, lift, answering, fmap}
use status_list_server.Domain.Model.{
  StatusListError, StatusListRecord, StatusListSnapshot, Credential, CredentialError,
  invalid_public_jwk, PublicJwk, try_new,
}
use status_list_server.Domain.Ports.{StatusListRepo, CredentialRepo, StatusListSnapshotRepo}
use status_list_server.Outbound.Sql.Errors.{DatabaseErrors, status_list_error, credential_error}
use status_list_server.Outbound.Sql.Rows.{
  ListRow, HistoryRow, Credentials, record_of_row, row_of_record, snapshot_of_row, row_of_snapshot,
}
use status_list_server.Outbound.Sql.Database.{Database}
use status_list_server.Outbound.Sql.Store.{
  find_one_by, insert_one, update_one, update_one_with_snapshot, insert_one_with_snapshot,
  find_all_status_list_uris, insert_history_row, find_history_at, sweep, find_credential_row,
  insert_credential_row,
}

module _ {S E Jwk : Type 0} (errors : DatabaseErrors E) (db : Database S E Jwk) where
  unfoldable pub find : String → Action StatusListError S (Option StatusListRecord)
  find list_id =
      answering status_list_error (fmap (map_option record_of_row) (find_one_by errors db list_id))

  unfoldable pub insert : StatusListRecord → Action StatusListError S (Unit {0})
  insert r = answering status_list_error (insert_one errors db (row_of_record r))

  unfoldable pub update : StatusListRecord → ℤ → Action StatusListError S Bool
  update r expected_updated_at =
      answering status_list_error
        (update_one errors db r.list_id (row_of_record r) expected_updated_at)

  unfoldable pub update_with_snapshot :
      StatusListRecord → ℤ → StatusListSnapshot → Action StatusListError S Bool
  update_with_snapshot r expected_updated_at snapshot = answering status_list_error (
      update_one_with_snapshot errors db r.list_id (row_of_record r) expected_updated_at
        (row_of_snapshot snapshot))

  unfoldable pub insert_with_snapshot :
      StatusListRecord → StatusListSnapshot → Action StatusListError S (Unit {0})
  insert_with_snapshot r snapshot =
      answering status_list_error
        (insert_one_with_snapshot errors db (row_of_record r) (row_of_snapshot snapshot))

  unfoldable pub list_uris : Action StatusListError S (List String)
  list_uris = answering status_list_error (find_all_status_list_uris errors db)

  abbrev pub status_lists : StatusListRepo S
  status_lists = record {
    find = find;
    insert = insert;
    update = update;
    update_with_snapshot = update_with_snapshot;
    insert_with_snapshot = insert_with_snapshot;
    list_uris = list_uris;
  }

  unfoldable pub insert_snapshot : StatusListSnapshot → Action StatusListError S (Unit {0})
  insert_snapshot x = answering status_list_error (insert_history_row errors db (row_of_snapshot x))

  unfoldable pub find_valid_at : String → ℤ → Action StatusListError S (Option StatusListSnapshot)
  find_valid_at list_id time =
      answering status_list_error
        (fmap (map_option snapshot_of_row) (find_history_at errors db list_id time))

  -- The loop over the batches runs until one is short; `fuel` bounds its rounds.
  unfoldable pub delete_older_than : ℕ → ℤ → Action StatusListError S (Option ℕ)
  delete_older_than fuel cutoff = answering status_list_error (sweep errors db fuel cutoff 0)

  -- `serde_json::to_vec`, `serde_json::from_slice` into a key, and the parser of `try_new`.
  module _ (to_vec : Jwk → Outcome String (List ℕ)) (from_slice : List ℕ → Outcome String Jwk)
      (parse : List ℕ → Outcome String Bool) where
    abbrev to_credential : Option (Credentials Jwk) → Outcome CredentialError (Option Credential)
    to_credential none = ok none
    to_credential (some row) =
        and_then
          (map_err (λ e. invalid_public_jwk (Str.◌++◌ "serialization failed: " e))
            (to_vec row.public_key))
          λ bytes. and_then (try_new parse bytes) λ public_key.
            ok (some (record { issuer = record { name = row.issuer }; public_key = public_key }))

    unfoldable pub find_credential : String → Action CredentialError S (Option Credential)
    find_credential issuer =
        answering credential_error (find_credential_row errors db issuer) >>= λ found.
        lift (to_credential found)

    unfoldable pub insert_credential : Credential → Action CredentialError S (Unit {0})
    insert_credential credential =
        lift (
          map_err (λ e. invalid_public_jwk (Str.◌++◌ "parse failed: " e))
            (from_slice credential.public_key.bytes))
        >>= λ public_key. answering credential_error (
            insert_credential_row errors db
              (record { issuer = credential.issuer.name; public_key = public_key }))

    abbrev pub credentials : CredentialRepo S
    credentials = record { find = find_credential; insert = insert_credential }
