-- ===== src/Outbound/Sql/Errors.antt =====
-- src/outbound/sql/error.rs and the classification of src/outbound/sql/store.rs. The error type of
-- the database library is a parameter; the code for MySQL and for PostgreSQL is both compiled in.
pub mod Answers
use Prim.Native.String as Str
use text.Mathlib.Text.{◌==◌ as str_eq}
use status_list_server.Base.{ℕ, ◌==◌, String, Bool, Option, none, some, if◌then◌else◌}
use status_list_server.Domain.Model.{StatusListError, CredentialError}

pub data RepositoryError : Type 0 where
  insert_error find_error update_error delete_error : String → RepositoryError
  could_not_store_entity repository_not_set duplicate_entry : RepositoryError
  contention : (code : String) → RepositoryError

-- The error that a server sent, as the driver of its kind gives it.
pub data ServerError : Type 0 where
  mysql : (number : ℕ) → ServerError
  postgres : (sqlstate : String) → ServerError
  other_server : ServerError

-- What the code reads of a `DbErr`.
pub record DatabaseErrors (E : Type 0) : Type 0 where
  -- Whether `sql_err` is a violated unique constraint.
  pub is_unique_violation : E → Bool
  -- The server's error, where an execution or a query failed with one.
  pub server_error : E → Option ServerError
  pub show : E → String

unfoldable pub classify_postgres : String → Option String
classify_postgres sqlstate =
    if str_eq sqlstate "40001"
    then some "40001"
    else if str_eq sqlstate "40P01"
    then some "40P01"
    else none

unfoldable pub classify_mysql : ℕ → Option String
classify_mysql number =
    if number == 1205 then some "1205" else if number == 1213 then some "1213" else none

abbrev pub classify_server : Option ServerError → Option String
classify_server none = none
classify_server (some (mysql number)) = classify_mysql number
classify_server (some (postgres sqlstate)) = classify_postgres sqlstate
classify_server (some other_server) = none

-- `contention_err(&e).unwrap_or_else(..)`.
abbrev pub or_contention : Option String → RepositoryError → RepositoryError
or_contention none other = other
or_contention (some code) other = contention code

module _ {E : Type 0} (errors : DatabaseErrors E) where
  unfoldable pub contention_code : E → Option String
  unfolding classify_mysql classify_postgres
  contention_code e = classify_server (errors.server_error e)

  unfoldable pub map_insert_err : E → RepositoryError
  unfolding contention_code
  map_insert_err e =
      if errors.is_unique_violation e
      then duplicate_entry
      else or_contention (contention_code e) (insert_error (errors.show e))

  unfoldable pub map_update_err : E → RepositoryError
  unfolding contention_code
  map_update_err e = or_contention (contention_code e) (update_error (errors.show e))

  unfoldable pub map_snapshot_insert_err : E → RepositoryError
  unfolding contention_code
  map_snapshot_insert_err e = or_contention (contention_code e) (insert_error (errors.show e))

  unfoldable pub map_delete_err : E → RepositoryError
  unfolding contention_code
  map_delete_err e = or_contention (contention_code e) (delete_error (errors.show e))

  unfoldable pub find_err : E → RepositoryError
  find_err e = find_error (errors.show e)

-- `Display`.
unfoldable pub show_repository_error : RepositoryError → String
show_repository_error (insert_error e) = Str.◌++◌ "Insert error: " e
show_repository_error (find_error e) = Str.◌++◌ "Find error: " e
show_repository_error (update_error e) = Str.◌++◌ "Update error: " e
show_repository_error (delete_error e) = Str.◌++◌ "Delete error: " e
show_repository_error could_not_store_entity = "Could not store entity"
show_repository_error repository_not_set = "Repository not set"
show_repository_error duplicate_entry = "Duplicate entry"
show_repository_error (contention code) =
    Str.◌++◌ "Write contention ("
      (Str.◌++◌ code "): the transaction lost a lock race and may be retried")

-- `From<RepositoryError>` for the errors of the domain.
unfoldable pub status_list_error : RepositoryError → StatusListError
status_list_error duplicate_entry = StatusListError.already_exists
status_list_error (contention code) = StatusListError.contention code
status_list_error (insert_error e) =
    StatusListError.backend (show_repository_error (insert_error e))
status_list_error (find_error e) = StatusListError.backend (show_repository_error (find_error e))
status_list_error (update_error e) =
    StatusListError.backend (show_repository_error (update_error e))
status_list_error (delete_error e) =
    StatusListError.backend (show_repository_error (delete_error e))
status_list_error could_not_store_entity =
    StatusListError.backend (show_repository_error could_not_store_entity)
status_list_error repository_not_set =
    StatusListError.backend (show_repository_error repository_not_set)

unfoldable pub credential_error : RepositoryError → CredentialError
credential_error duplicate_entry = CredentialError.already_exists
credential_error (contention code) = CredentialError.contention code
credential_error (insert_error e) = CredentialError.backend (show_repository_error (insert_error e))
credential_error (find_error e) = CredentialError.backend (show_repository_error (find_error e))
credential_error (update_error e) = CredentialError.backend (show_repository_error (update_error e))
credential_error (delete_error e) = CredentialError.backend (show_repository_error (delete_error e))
credential_error could_not_store_entity =
    CredentialError.backend (show_repository_error could_not_store_entity)
credential_error repository_not_set =
    CredentialError.backend (show_repository_error repository_not_set)
