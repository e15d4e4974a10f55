-- ===== src/Tests/Sql/Fixture.antt =====
-- A database in memory that meets what the store relies on.
use text.Mathlib.Text.{◌==◌ as str_eq}
use status_list_server.Base.{
  ℕ, suc, ◌-◌, min, ℤ, pos, negsuc, leb_ℤ, String, Bool, true, Bool-cases, ◌&&◌, Option, none, some,
  [], if◌then◌else◌, Outcome, ok, err, ◌≡◌, refl, ap, arith, inl, inr,
}
use status_list_server.Outbound.Sql.Errors.{DatabaseErrors, postgres}
use status_list_server.Outbound.Sql.Rows.{ListRow, HistoryRow}
use status_list_server.Outbound.Sql.Database.{Database, sqlite}
use status_list_server.Outbound.Sql.Database.Contract.{
  Tables, put_list, put_history, set_row, Ends, IsUpdate, Works, IsDatabase,
}
use status_list_server.Outbound.Sql.Adapter.Contract.{IsSure}
use status_list_server.Outbound.Sql.Store.Lands.{IsAvailable}
use status_list_server.Outbound.Sql.Store.Sweep.{IsSweepable}

-- The tables as they stand, as the transaction sees them, and the rows of the history to delete.
pub record Memory : Type 0 where
  pub published : Tables
  pub pending : Tables
  pub expired : ℕ
  pub begun : ℕ

abbrev pub failures : DatabaseErrors String
failures = record {
  is_unique_violation = λ e. str_eq e "taken";
  server_error = λ e. if str_eq e "busy" then some (postgres "40001") else none;
  show = λ e. e;
}

abbrev put_new : ListRow → Memory → Option ListRow → Outcome String (Unit {0}) × Memory
put_new row s none = (ok tt, record s { pending = put_list row s.pending })
put_new row s (some other) = (err "taken", s)

abbrev put_entry : HistoryRow → Memory → Option HistoryRow → Outcome String (Unit {0}) × Memory
put_entry row s none = (ok tt, record s { pending = put_history row s.pending })
put_entry row s (some other) = (err "taken", s)

-- Two stamps are equal where neither is later.
abbrev same_stamp : ℤ → ℤ → Bool
same_stamp a b = leb_ℤ a b && leb_ℤ b a

abbrev replace : String → ℤ → ListRow → Memory → Option ListRow → Outcome String ℕ × Memory
replace id expected row s none = (ok 0, s)
replace id expected row s (some current) =
    if same_stamp current.updated_at expected
    then (ok 1, record s { pending = put_list (set_row id row) s.pending })
    else (ok 0, s)

abbrev pub memory : Database Memory String String
memory = record {
  get_database_backend = λ s. sqlite;
  begin = λ s. (ok tt, record s { pending = s.published; begun = suc s.begun });
  begin_at_read_committed = λ s. (ok tt, record s { pending = s.published; begun = suc s.begun });
  commit = λ s. (ok tt, record s { published = s.pending; begun = s.begun - 1 });
  rollback = λ s. (ok tt, record s { pending = s.published; begun = s.begun - 1 });
  insert_list = λ row s. put_new row s (s.pending.lists row.list_id);
  insert_history = λ row s. put_entry row s (s.pending.history row.snapshot_id);
  insert_credentials = λ row s. (ok tt, s);
  update_lists = λ id expected row s. replace id expected row s (s.pending.lists id);
  find_list = λ id s. (ok (s.published.lists id), s);
  find_lists = λ filter s. (ok [], s);
  delete_list = λ id s. (ok 0, s);
  list_subs = λ s. (ok [], s);
  insert_history_alone = λ row s. (ok tt, s);
  find_history = λ id time s. (ok none, s);
  delete_history = λ cutoff batch s.
      (ok (min batch s.expired), record s { expired = s.expired - min batch s.expired });
  find_credentials = λ issuer s. (ok none, s);
  update_credentials = λ row s. (ok tt, s);
  delete_credentials = λ issuer s. (ok 0, s);
}

abbrev pub seen : Memory → Tables
seen s = s.published

abbrev pub opened : Memory → ℕ
opened s = s.begun

abbrev pub drafted : Memory → Tables
drafted s = s.pending

same_stamp-eq : (a b : ℤ) → same_stamp a b ≡ true → a ≡ b
same_stamp-eq (pos n) (pos m) h = ap pos (ground arith)
same_stamp-eq (pos n) (negsuc m) h = absurd (ground arith)
same_stamp-eq (negsuc n) (pos m) h = absurd (ground arith)
same_stamp-eq (negsuc n) (negsuc m) h = ap negsuc (ground arith)

same_stamp_refl : (a : ℤ) → same_stamp a a ≡ true
same_stamp_refl a = ground arith

replaces :
    (id : String) (expected : ℤ) (row : ListRow) (s : Memory) (found : Option ListRow)
    → s.pending.lists id ≡ found
    → Ends
        (λ s'. (s'.published ≡ s.published) × (s'.begun ≡ s.begun))
        (λ s'. s'.published ≡ s.published)
        (IsUpdate seen drafted memory opened id expected row s)
        (replace id expected row s found)
replaces id expected row s none e = (refl, refl, refl)
replaces id expected row s (some current) e =
    elim (Bool-cases (same_stamp current.updated_at expected)) [
      | inl same ↦
          rw same ((current, e, same_stamp-eq current.updated_at expected same), (refl, refl, refl))
      | inr other ↦ rw other (refl, refl, refl)
    ]

pub memory-IsDatabase : IsDatabase seen drafted memory opened
memory-IsDatabase = record {
  begins = λ s. (refl, refl, refl);
  begins_at_read_committed = λ s. (refl, refl, refl);
  commits = λ s. (refl, refl);
  rolls_back = λ s. (refl, refl);
  inserts_list = λ row s. inserts row s (s.pending.lists row.list_id) refl;
  inserts_history = λ row s. enters row s (s.pending.history row.snapshot_id);
  updates_lists = λ id expected row s. replaces id expected row s (s.pending.lists id) refl;
  finds_list = λ id s. ((refl, refl), refl);
}
  where
    inserts :
        (row : ListRow) (s : Memory) (found : Option ListRow)
        → s.pending.lists row.list_id ≡ found
        → Ends
            (λ s'. (s'.published ≡ s.published) × (s'.begun ≡ s.begun))
            (λ s'. s'.published ≡ s.published)
            (λ done s'.
              (s.pending.lists row.list_id ≡ none)
              × Works seen drafted memory opened s (put_list row s.pending) s')
            (put_new row s found)
    inserts row s none e = (e, (refl, refl, refl))
    inserts row s (some other) e = (refl, refl)

    enters :
        (row : HistoryRow) (s : Memory) (found : Option HistoryRow)
        → Ends
            (λ s'. (s'.published ≡ s.published) × (s'.begun ≡ s.begun))
            (λ s'. s'.published ≡ s.published)
            (λ done s'. Works seen drafted memory opened s (put_history row s.pending) s')
            (put_entry row s found)
    enters row s none = (refl, refl, refl)
    enters row s (some other) = (refl, refl)

pub memory-IsSure : IsSure memory
memory-IsSure = record { commits = λ s s' x. x; rolls_back = λ s s' x. x }

pub memory-IsAvailable : IsAvailable seen drafted failures memory
memory-IsAvailable = record {
  begins = λ s. (refl, refl);
  begins_at_read_committed = λ s. (refl, refl);
  commits = λ s. refl;
  inserts_list = λ row s e. rw e (refl, refl);
  inserts_history = λ row s e. rw e (refl, refl);
  updates_list =
      λ id current row s e. rw (e, same_stamp_refl current.updated_at) (omega arith, (refl, refl));
}

pub memory-IsSweepable : IsSweepable (λ cutoff s. s.expired) failures memory
memory-IsSweepable cutoff batch s = (refl, omega arith)
