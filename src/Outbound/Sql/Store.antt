-- ===== src/Outbound/Sql/Store.antt =====
-- `SeaOrmStore` of src/outbound/sql/store.rs, over the statements of the database. The measurement
-- of the queries is not modelled.
pub mod Endings
pub mod Atomic
pub mod Guarded
pub mod Lands
pub mod Sweep
use Prim.Native.String as Str
use text.Mathlib.Text.{◌==◌ as str_eq}
use status_list_server.Base.{
  ℕ, zero, suc, ◌+◌, ◌%◌, ◌^◌, ltb, ◌==◌, ℤ, leb_ℤ, String, Bool, true, false, not, ◌||◌, Option,
  none, some, is_some, List, if◌then◌else◌, Outcome, ok, err, panic, show_ℕ, show_ℤ,
}
use status_list_server.Base.Action.{Action, ◌>>=◌, ◌>>◌, pure, throw, answering, attempt, fmap}
use status_list_server.Outbound.Sql.Errors.{
  RepositoryError, insert_error, update_error, DatabaseErrors, map_insert_err, map_update_err,
  map_snapshot_insert_err, map_delete_err, find_err,
}
use status_list_server.Outbound.Sql.Rows.{ListRow, HistoryRow, Credentials}
use status_list_server.Outbound.Sql.Database.{
  all, by_issuer, by_sub, DatabaseBackend, postgres, mysql, sqlite, Database,
}

abbrev pub sentence : String → String → String → String → String
sentence a x b y = Str.◌++◌ a (Str.◌++◌ x (Str.◌++◌ b y))

abbrev stale_message : ℤ → ℤ → String
stale_message new expected =
    Str.◌++◌
      (sentence "guarded update requires a strictly newer updated_at (new=" (show_ℤ new)
        ", expected-guard=" (show_ℤ expected))
      "); a non-advancing stamp would silently reintroduce the same-second lost update"

abbrev pub batch_size : ℕ
batch_size = 500

module _ {S E Jwk : Type 0} (errors : DatabaseErrors E) (db : Database S E Jwk) where
  unfoldable pub begin_read_committed : Action E S (Unit {0})
  begin_read_committed s = elim (db.get_database_backend s) [
    | postgres ↦ db.begin_at_read_committed s
    | mysql ↦ db.begin_at_read_committed s
    | sqlite ↦ db.begin s
  ]

  -- `if let Err(e) = statement { txn.rollback().await.map_err(failed)?; return Err(classify(e)) }`.
  unfoldable pub undo :
      {A : Type 0}
      → (E → E → RepositoryError)
      → (E → RepositoryError)
      → Outcome E A × S
      → Outcome RepositoryError A × S
  undo failed classify (ok a, s) = (ok a, s)
  undo failed classify (err e, s) = (answering (failed e) db.rollback >> throw (classify e)) s
  undo failed classify (panic, s) = (panic, s)

  unfoldable pub or_rollback :
      {A : Type 0}
      → Action E S A
      → (E → E → RepositoryError)
      → (E → RepositoryError)
      → Action RepositoryError S A
  unfolding undo
  or_rollback statement failed classify s = undo failed classify (statement s)

  abbrev pub insert_failed : E → E → RepositoryError
  insert_failed e r = insert_error (
      sentence "status list insert failed (" (errors.show e)
        "); rolling the transaction back also failed: " (errors.show r))

  unfoldable pub insert_one : ListRow → Action RepositoryError S (Unit {0})
  insert_one entity =
      answering (map_insert_err errors) begin_read_committed
      >> or_rollback (db.insert_list entity) insert_failed (map_insert_err errors)
      >> answering (map_insert_err errors) db.commit

  abbrev pub history_failed : String → E → E → RepositoryError
  history_failed undone e r = insert_error (
      sentence "history snapshot insert failed (" (errors.show e)
        (sentence "); rolling back the " undone " also failed: " "") (errors.show r))

  unfoldable pub insert_one_with_snapshot :
      ListRow → HistoryRow → Action RepositoryError S (Unit {0})
  insert_one_with_snapshot entity snapshot =
      if not (str_eq snapshot.list_id entity.list_id)
      then throw (
          insert_error (
            Str.◌++◌
              (sentence "snapshot list_id (" snapshot.list_id ") does not match entity list_id ("
                entity.list_id)
              ")"))
      else (answering (map_insert_err errors) begin_read_committed
          >> or_rollback (db.insert_list entity) insert_failed (map_insert_err errors)
          >> or_rollback (db.insert_history snapshot) (history_failed "status list insert")
              (map_snapshot_insert_err errors)
          >> answering (map_insert_err errors) db.commit)

  unfoldable pub find_one_by : String → Action RepositoryError S (Option ListRow)
  find_one_by value = answering (find_err errors) (db.find_list value)

  unfoldable pub find_all_by : String → Action RepositoryError S (List ListRow)
  find_all_by issuer = answering (find_err errors) (db.find_lists (by_issuer issuer))

  abbrev pub update_failed : E → E → RepositoryError
  update_failed e r = update_error (
      sentence "guarded update failed (" (errors.show e)
        "); rolling the transaction back also failed: " (errors.show r))

  unfoldable pub update_one : String → ListRow → ℤ → Action RepositoryError S Bool
  update_one list_id entity expected_updated_at =
      if leb_ℤ entity.updated_at expected_updated_at
      then throw (update_error (stale_message entity.updated_at expected_updated_at))
      else (answering (map_update_err errors) begin_read_committed
          >> or_rollback (db.update_lists list_id expected_updated_at entity) update_failed
              (map_update_err errors)
          >>= λ rows_affected.
              answering (map_update_err errors) db.commit >> pure (ltb 0 rows_affected))

  -- A failing rollback of the empty transaction is only logged.
  abbrev pub give_up : Action RepositoryError S Bool
  give_up = attempt (answering (find_err errors) db.rollback) (λ _. pure false)

  unfoldable pub update_one_with_snapshot :
      String → ListRow → ℤ → HistoryRow → Action RepositoryError S Bool
  update_one_with_snapshot list_id entity expected_updated_at snapshot =
      if not (str_eq snapshot.list_id list_id) || not (str_eq entity.list_id list_id)
      then throw (
          update_error (
            Str.◌++◌
              (sentence "snapshot list_id (" snapshot.list_id ") or entity list_id ("
                entity.list_id)
              (sentence ") does not match list_id (" list_id ")" "")))
      else if leb_ℤ entity.updated_at expected_updated_at
      then throw (update_error (stale_message entity.updated_at expected_updated_at))
      else (answering (map_update_err errors) begin_read_committed
          >> or_rollback (db.update_lists list_id expected_updated_at entity) update_failed
              (map_update_err errors)
          >>= λ rows_affected.
              if rows_affected == 0
              then give_up
              else (or_rollback (db.insert_history snapshot) (history_failed "row update")
                    (map_snapshot_insert_err errors)
                  >> answering (map_update_err errors) db.commit
                  >> pure true))

  unfoldable pub delete_by : String → Action RepositoryError S Bool
  delete_by value =
      answering (map_delete_err errors) (db.delete_list value) >>= λ rows. pure (ltb 0 rows)

  -- The filter is on the column `sub`.
  unfoldable pub find_by_issuer : String → Action RepositoryError S (List ListRow)
  find_by_issuer issuer = answering (find_err errors) (db.find_lists (by_sub issuer))

  unfoldable pub find_all : Action RepositoryError S (List ListRow)
  find_all = answering (find_err errors) (db.find_lists all)

  unfoldable pub find_all_status_list_uris : Action RepositoryError S (List String)
  find_all_status_list_uris = answering (find_err errors) db.list_subs

  unfoldable pub insert_history_row : HistoryRow → Action RepositoryError S (Unit {0})
  insert_history_row entity =
      answering (map_snapshot_insert_err errors) (db.insert_history_alone entity)

  unfoldable pub find_history_at : String → ℤ → Action RepositoryError S (Option HistoryRow)
  find_history_at list_id time = answering (find_err errors) (db.find_history list_id time)

  -- The loop over the batches, with the rows deleted so far; out of fuel it answers `none`.
  unfoldable pub sweep : ℕ → ℤ → ℕ → Action RepositoryError S (Option ℕ)
  sweep zero cutoff total_deleted = pure none
  sweep (suc fuel) cutoff total_deleted =
      answering (map_delete_err errors) (db.delete_history cutoff batch_size) >>= λ count.
      let rest = sweep fuel cutoff ((total_deleted + count) % 2 ^ 64) in
      if ltb count batch_size then pure (some ((total_deleted + count) % 2 ^ 64)) else rest

  abbrev credential_failed : E → E → RepositoryError
  credential_failed e r = insert_error (
      sentence "credential insert failed (" (errors.show e)
        "); rolling the transaction back also failed: " (errors.show r))

  unfoldable pub insert_credential_row : Credentials Jwk → Action RepositoryError S (Unit {0})
  insert_credential_row entity =
      answering (map_insert_err errors) begin_read_committed
      >> or_rollback (db.insert_credentials entity) credential_failed (map_insert_err errors)
      >> answering (map_insert_err errors) db.commit

  unfoldable pub find_credential_row : String → Action RepositoryError S (Option (Credentials Jwk))
  find_credential_row value = answering (find_err errors) (db.find_credentials value)

  unfoldable pub update_credential_row : String → Credentials Jwk → Action RepositoryError S Bool
  update_credential_row issuer entity =
      answering (find_err errors) (db.find_credentials issuer) >>= λ existing.
      if is_some existing
      then (answering (map_update_err errors) (db.update_credentials entity) >> pure true)
      else pure false

  unfoldable pub delete_credential_row : String → Action RepositoryError S Bool
  delete_credential_row value =
      answering (map_delete_err errors) (db.delete_credentials value) >>= λ rows. pure (ltb 0 rows)
