-- ===== src/Tests/Sql.antt =====
-- The theorems on the SQL store, at a database in memory.
mod Fixture
use text.Mathlib.Text.{◌==◌ as str_eq}
use status_list_server.Base.{
  ℕ, ◌<◌, ◌+◌, ◌%◌, ◌^◌, ◌<ℤ◌, pos, String, Bool, true, false, Option, none, some, if◌then◌else◌,
  Outcome, ok, ◌≡◌, refl, arith, ◌⊎◌,
}
use status_list_server.Domain.Service.Contract.{IsRepo}
use status_list_server.Server.Error.{ApiError, in_conflict}
use status_list_server.Outbound.Sql.Errors.{map_insert_err}
use status_list_server.Outbound.Sql.Errors.Answers.{insert-Answers}
use status_list_server.Outbound.Sql.Rows.{ListRow, HistoryRow}
use status_list_server.Outbound.Sql.Database.Contract.{Tables, put_list, put_history, set_row, Ends}
use status_list_server.Outbound.Sql.Store.{
  insert_one_with_snapshot, update_one_with_snapshot, sweep,
}
use status_list_server.Outbound.Sql.Store.Guarded.{Swapped, update_one_with_snapshot-Ends}
use status_list_server.Outbound.Sql.Store.Lands.{
  Succeeds, insert_one_with_snapshot-Succeeds, update_one_with_snapshot-Succeeds,
}
use status_list_server.Outbound.Sql.Store.Sweep.{Sweeps, sweep-Sweeps}
use status_list_server.Outbound.Sql.Adapter.{status_lists}
use status_list_server.Outbound.Sql.Adapter.Contract.{list_records, IsSettled, status_lists-IsRepo}
use status_list_server.Outbound.Sql.Store.Atomic.{Method}
use status_list_server.Tests.Sql.Fixture.{
  Memory, failures, memory, seen, drafted, opened, memory-IsDatabase, memory-IsSure,
  memory-IsAvailable, memory-IsSweepable,
}

abbrev row : String → ℕ → ListRow
row id time = record {
  list_id = id;
  issuer = "alice";
  status_list = record { bits = 1; lst = "aab" };
  sub = "https://example.com/l";
  updated_at = pos time;
}

abbrev entry : String → String → HistoryRow
entry key id = record {
  snapshot_id = key;
  list_id = id;
  issuer = "alice";
  status_list = record { bits = 1; lst = "aab" };
  sub = "https://example.com/l";
  iat = pos 60;
  exp = pos 660;
}

-- One list, at the version 50.
abbrev tables : Tables
tables = record {
  lists = λ id. if str_eq "l" id then some (row "l" 50) else none;
  history = λ key. none;
}

abbrev start : Memory
start = record { published = tables; pending = tables; expired = 1200; begun = 0 }

status_lists-IsRepo_example :
    IsRepo (list_records seen) (status_lists failures memory)
    × IsSettled opened (status_lists failures memory)
status_lists-IsRepo_example =
    status_lists-IsRepo seen drafted opened failures memory memory-IsDatabase memory-IsSure

update_one_with_snapshot-Ends_example :
    Method seen drafted opened failures memory memory-IsDatabase tables 0
      (Swapped seen drafted opened failures memory memory-IsDatabase tables 0 "l"
        (pos 50)
        (put_history (entry "x" "l") (put_list (row "l" 60) tables)))
      (update_one_with_snapshot failures memory "l" (row "l" 60) (pos 50) (entry "x" "l") start)
update_one_with_snapshot-Ends_example =
    update_one_with_snapshot-Ends seen drafted opened failures memory memory-IsDatabase tables 0 "l"
      (pos 50) (row "l" 60) (entry "x" "l") start refl refl

update_one_with_snapshot-Succeeds_example :
    Succeeds
      (λ replaced s'.
        (replaced ≡ true)
        × (s'.published ≡ put_history (entry "x" "l") (put_list (row "l" 60) tables)))
      (update_one_with_snapshot failures memory "l" (row "l" 60) (pos 50) (entry "x" "l") start)
update_one_with_snapshot-Succeeds_example =
    update_one_with_snapshot-Succeeds seen drafted failures memory memory-IsAvailable "l"
      (row "l" 50) (row "l" 60) (entry "x" "l") start refl refl (omega arith) refl refl

sweep-Sweeps_example :
    Sweeps
      (λ cutoff s. s.expired)
      failures
      memory
      (pos 60)
      0
      start
      (sweep failures memory 3 (pos 60) 0 start)
sweep-Sweeps_example =
    sweep-Sweeps (λ cutoff s. s.expired) failures memory memory-IsSweepable 3 (pos 60) 0 start
      (omega arith)
