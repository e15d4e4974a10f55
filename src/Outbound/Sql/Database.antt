-- ===== src/Outbound/Sql/Database.antt =====
-- The statements that src/outbound/sql/store.rs runs through sea-orm. A statement of a transaction
-- acts on the tables as the transaction sees them, until `commit` publishes them.
pub mod Contract
use status_list_server.Base.{ℕ, ℤ, String, Option, List}
use status_list_server.Base.Action.{Action}
use status_list_server.Outbound.Sql.Rows.{ListRow, HistoryRow, Credentials}

pub data DatabaseBackend : Type 0 where
  postgres mysql sqlite : DatabaseBackend

-- The `WHERE` of a query for lists.
pub data ListFilter : Type 0 where
  all : ListFilter
  by_issuer by_sub : String → ListFilter

pub record Database (S E Jwk : Type 0) : Type 0 where
  pub get_database_backend : S → DatabaseBackend
  -- `begin`, and `begin_with_config` at READ COMMITTED.
  pub begin : Action E S (Unit {0})
  pub begin_at_read_committed : Action E S (Unit {0})
  pub commit : Action E S (Unit {0})
  pub rollback : Action E S (Unit {0})
  pub insert_list : ListRow → Action E S (Unit {0})
  pub insert_history : HistoryRow → Action E S (Unit {0})
  pub insert_credentials : Credentials Jwk → Action E S (Unit {0})
  -- `UPDATE status_lists SET .. WHERE list_id = ? AND updated_at = ?`: the rows affected.
  pub update_lists : String → ℤ → ListRow → Action E S ℕ
  -- Outside of a transaction.
  pub find_list : String → Action E S (Option ListRow)
  pub find_lists : ListFilter → Action E S (List ListRow)
  -- The rows affected.
  pub delete_list : String → Action E S ℕ
  pub list_subs : Action E S (List String)
  pub insert_history_alone : HistoryRow → Action E S (Unit {0})
  -- The row with the latest `iat` of those of the list with `iat <= time < exp`.
  pub find_history : String → ℤ → Action E S (Option HistoryRow)
  -- `DELETE` of rows with `exp < cutoff`, a batch at most: the rows affected.
  pub delete_history : ℤ → ℕ → Action E S ℕ
  pub find_credentials : String → Action E S (Option (Credentials Jwk))
  -- `UPDATE` of the row with the key of the model, an error where there is none.
  pub update_credentials : Credentials Jwk → Action E S (Unit {0})
  pub delete_credentials : String → Action E S ℕ
