-- ===== src/Outbound/Sql/Database/Contract.antt =====
-- What the store relies on of the database: transactions, the primary keys, and the counts.
use text.Mathlib.Text.{◌==◌ as str_eq}
use status_list_server.Base.{
  ◌-◌, ℕ, zero, suc, ℤ, String, Option, none, some, if◌then◌else◌, Outcome, ok, err, panic, ◌≡◌,
  ◌⊎◌,
}
use status_list_server.Outbound.Sql.Rows.{ListRow, HistoryRow}
use status_list_server.Outbound.Sql.Database.{Database}

-- The two tables, by their primary keys.
pub record Tables : Type 0 where
  pub lists : String → Option ListRow
  pub history : String → Option HistoryRow

abbrev pub put_list : ListRow → Tables → Tables
put_list row t = record t { lists = λ id. if str_eq row.list_id id then some row else t.lists id }

abbrev pub put_history : HistoryRow → Tables → Tables
put_history row t = record t {
  history = λ id. if str_eq row.snapshot_id id then some row else t.history id;
}

-- The `SET` part of the update: every column but the key.
abbrev pub set_row : String → ListRow → ListRow
set_row id row = record row { list_id = id }

-- What holds of each way in which a call may end: answered, failed, stopped by a panic.
abbrev pub Ends :
    {E A S : Type 0} → (S → Type 0) → (S → Type 0) → (A → S → Type 0) → Outcome E A × S → Type 0
Ends F G P (ok a, s) = P a s
Ends F G P (err e, s) = F s
Ends F G P (panic, s) = G s

module _ {S E Jwk : Type 0} (published pending : S → Tables) (db : Database S E Jwk) where
  abbrev pub IsOpened : S → Unit {0} → S → Type 0
  IsOpened s done s' = (published s' ≡ published s) × (pending s' ≡ published s)

  -- The statement works on the pending tables.
  abbrev pub IsPending : S → Tables → S → Type 0
  IsPending s t s' = (published s' ≡ published s) × (pending s' ≡ t)

  -- A count of rows: none is no row at that version, one is the row replaced.

  -- `opened` counts the transactions that are begun and neither committed nor rolled back.
  module _ (opened : S → ℕ) where
    abbrev pub Unmoved : S → S → Type 0
    Unmoved s s' = published s' ≡ published s

    abbrev pub Same : S → S → Type 0
    Same s s' = (published s' ≡ published s) × (opened s' ≡ opened s)

    abbrev pub Begun : S → Unit {0} → S → Type 0
    Begun s done s' =
        (published s' ≡ published s) × (pending s' ≡ published s) × (opened s' ≡ suc (opened s))

    abbrev pub Works : S → Tables → S → Type 0
    Works s t s' = (published s' ≡ published s) × (pending s' ≡ t) × (opened s' ≡ opened s)

    -- A count of rows: none is no row at that version, one is the row replaced.
    abbrev pub IsUpdate : String → ℤ → ListRow → S → ℕ → S → Type 0
    IsUpdate id expected row s zero s' = Works s (pending s) s'
    IsUpdate id expected row s (suc n) s' =
        ((current : ListRow) × ((pending s).lists id ≡ some current)
          × (current.updated_at ≡ expected))
        × Works s (put_list (set_row id row) (pending s)) s'

    -- A commit or a rollback that is not answered with success may have landed all the same, with
    -- all of the transaction or with nothing of it.
    abbrev pub MayLand : S → S → Type 0
    MayLand s s' = (published s' ≡ published s) ⊎ (published s' ≡ pending s)

    pub record IsDatabase : Type 0 where
      pub begins : (s : S) → Ends (Same s) (Unmoved s) (Begun s) (db.begin s)
      pub begins_at_read_committed :
          (s : S) → Ends (Same s) (Unmoved s) (Begun s) (db.begin_at_read_committed s)
      pub commits :
          (s : S)
          → Ends
              (MayLand s)
              (MayLand s)
              (λ done s'. (published s' ≡ pending s) × (opened s' ≡ opened s - 1))
              (db.commit s)
      pub rolls_back :
          (s : S)
          → Ends
              (MayLand s)
              (MayLand s)
              (λ done s'. (published s' ≡ published s) × (opened s' ≡ opened s - 1))
              (db.rollback s)
      pub inserts_list :
          (row : ListRow) (s : S)
          → Ends
              (Same s)
              (Unmoved s)
              (λ done s'.
                ((pending s).lists row.list_id ≡ none) × Works s (put_list row (pending s)) s')
              (db.insert_list row s)
      pub inserts_history :
          (row : HistoryRow) (s : S)
          → Ends
              (Same s)
              (Unmoved s)
              (λ done s'. Works s (put_history row (pending s)) s')
              (db.insert_history row s)
      pub updates_lists :
          (id : String) (expected : ℤ) (row : ListRow) (s : S)
          → Ends
              (Same s)
              (Unmoved s)
              (IsUpdate id expected row s)
              (db.update_lists id expected row s)
      pub finds_list :
          (id : String) (s : S)
          → Ends
              (Same s)
              (Unmoved s)
              (λ found s'. Same s s' × (found ≡ (published s).lists id))
              (db.find_list id s)
