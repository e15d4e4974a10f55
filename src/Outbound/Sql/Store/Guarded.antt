-- ===== src/Outbound/Sql/Store/Guarded.antt =====
-- The guarded updates of src/outbound/sql/store.rs as single steps on the published tables, and
-- what they leave of their transactions.
use text.Mathlib.Text.{◌==◌ as str_eq}
use mathlib.Core.Path.{subst}
use status_list_server.Base.{
  ◌-◌, lt→ltb, ℕ, zero, suc, ℤ, ltb, ◌==◌, leb_ℤ, String, Bool, true, false, Bool-cases, not, ◌||◌,
  some, if◌then◌else◌, Outcome, ok, err, panic, ◌≡◌, refl, sym, ap, ◌∙◌, arith, inl, inr, ◌⊎◌,
}
use status_list_server.Base.Action.{◌>>◌, pure, reword, answering, resume}
use status_list_server.Outbound.Sql.Errors.{
  DatabaseErrors, map_update_err, map_snapshot_insert_err, find_err,
}
use status_list_server.Outbound.Sql.Rows.{ListRow, HistoryRow}
use status_list_server.Outbound.Sql.Database.{Database}
use status_list_server.Outbound.Sql.Database.Contract.{
  Tables, put_list, put_history, set_row, Ends, IsUpdate, MayLand, IsDatabase,
}
use status_list_server.Outbound.Sql.Store.{
  begin_read_committed, or_rollback, history_failed, update_failed, update_one,
  update_one_with_snapshot, give_up,
}
use status_list_server.Outbound.Sql.Store.Endings.{IsFailure}
use status_list_server.Outbound.Sql.Store.Atomic.{
  Method-after, Ends-statement, InDoubt, Method, In, doubt, one_less, begun, history_inserted,
  settled,
}

-- The published row is at the version that the update expects.
abbrev pub IsAt : String → ℤ → Tables → Type 0
IsAt id expected t =
    (current : ListRow) × (t.lists id ≡ some current) × (current.updated_at ≡ expected)

module _ {S E Jwk : Type 0} (published pending : S → Tables) (opened : S → ℕ)
    (errors : DatabaseErrors E) (db : Database S E Jwk)
    (laws : IsDatabase published pending db opened) (t : Tables) (n : ℕ) where
  abbrev Rows : String → ℤ → ListRow → ℕ → S → Type 0
  Rows id expected row zero s' = In published pending opened errors db laws t n t s'
  Rows id expected row (suc k) s' =
      IsAt id expected t
      × In published pending opened errors db laws t n (put_list (set_row id row) t) s'

  Rows-of :
      (id : String) (expected : ℤ) (row : ListRow) (s : S)
      → In published pending opened errors db laws t n t s
      → (k : ℕ) (s' : S) → IsUpdate published pending db opened id expected row s k s'
      → Rows id expected row k s'
  Rows-of id expected row s (same, sees, count) zero s' h = (h.0 ∙ same, h.1 ∙ sees, h.2 ∙ count)
  Rows-of id expected row s (same, sees, count) (suc k) s' ((current, at, version), h) = (
    (current, sym (ap (λ (u : Tables). u.lists id) sees) ∙ at, version),
    (h.0 ∙ same, h.1 ∙ ap (put_list (set_row id row)) sees, h.2 ∙ count),
  )

  -- The beginning of an update: the transaction, and the guarded statement.
  updating :
      (id : String) (expected : ℤ) (row : ListRow) (s : S)
      → published s ≡ t
      → opened s ≡ n
      → Method published pending opened errors db laws t n (Rows id expected row) (
          (answering (map_update_err errors) (begin_read_committed errors db)
              >> or_rollback errors db
                  (db.update_lists id expected row)
                  (update_failed errors db)
                  (map_update_err errors))
            s)
  updating id expected row s same count =
      Method-after published pending opened errors db laws t n
        (λ done. In published pending opened errors db laws t n t) (Rows id expected row)
        (λ done.
          or_rollback errors db (db.update_lists id expected row) (update_failed errors db)
            (map_update_err errors))
        (answering (map_update_err errors) (begin_read_committed errors db) s)
        (begun published pending opened errors db laws t n (map_update_err errors) s same count)
        (λ done s' h.
          Ends-statement published pending opened errors db laws t n
            (IsUpdate published pending db opened id expected row s') (Rows id expected row)
            (db.update_lists id expected row) (update_failed errors db) (map_update_err errors) s'
            h.0 h.2 (Rows-of id expected row s' h) (laws.updates_lists id expected row s'))

  -- `true` is a write over the expected version, with the tables `u` published; `false` is no write,
  -- and only a failed rollback leaves its transaction.
  abbrev pub Swapped : String → ℤ → Tables → Bool → S → Type 0
  Swapped id expected u true s' = IsAt id expected t × (published s' ≡ u) × (opened s' ≡ n)
  Swapped id expected u false s' =
      (published s' ≡ t) × ((opened s' ≡ n) ⊎ InDoubt published pending opened db t s')

  finishing :
      (id : String) (expected : ℤ) (row : ListRow) (k : ℕ) (s : S)
      → Rows id expected row k s
      → Method published pending opened errors db laws t n
          (Swapped id expected (put_list (set_row id row) t))
          ((answering (map_update_err errors) db.commit >> pure (ltb 0 k)) s)
  finishing id expected row zero s h =
      Method-after published pending opened errors db laws t n
        (λ done s'. Unit {0} × (published s' ≡ t) × (opened s' ≡ n))
        (Swapped id expected (put_list (set_row id row) t)) (λ done. pure false) _
        (settled published pending opened errors db laws t n (map_update_err errors) (Unit {0}) t s
          tt h)
        (λ done s' e. (e.1, inl e.2))
  finishing id expected row (suc k) s (at, sees) =
      let u = put_list (set_row id row) t in
      Method-after published pending opened errors db laws t n
        (λ done s'. IsAt id expected t × (published s' ≡ u) × (opened s' ≡ n))
        (Swapped id expected u) (λ done. pure (ltb 0 (suc k))) _
        (settled published pending opened errors db laws t n (map_update_err errors)
          (IsAt id expected t) u s at sees)
        (λ done s' e. rw (lt→ltb 0 (suc k) (omega arith)) e)

  pub update_one-Ends :
      (id : String) (expected : ℤ) (row : ListRow) (s : S)
      → published s ≡ t
      → opened s ≡ n
      → Method published pending opened errors db laws t n
          (Swapped id expected (put_list (set_row id row) t))
          (update_one errors db id row expected s)
  unfolding update_one
  update_one-Ends id expected row s same count = elim (Bool-cases (leb_ℤ row.updated_at expected)) [
    | inl stale ↦ rw stale (inl (same, count))
    | inr newer ↦ rw newer (
        Method-after published pending opened errors db laws t n (Rows id expected row)
          (Swapped id expected (put_list (set_row id row) t))
          (λ k. answering (map_update_err errors) db.commit >> pure (ltb 0 k)) _
          (updating id expected row s same count) (finishing id expected row))
  ]

  -- No row was affected: the transaction is given up, and whether that fails is only logged.
  given_up :
      (id : String) (expected : ℤ) (u : Tables) (s : S) (x : Outcome E (Unit {0}) × S)
      → In published pending opened errors db laws t n t s
      → db.rollback s ≡ x
      → Ends
          (MayLand published pending db opened s)
          (MayLand published pending db opened s)
          (λ done s'. (published s' ≡ published s) × (opened s' ≡ opened s - 1))
          x
      → Method published pending opened errors db laws t n
          (Swapped id expected u)
          (resume {B = Bool} (λ _. pure false) (reword (find_err errors) x))
  given_up id expected u s (ok done, s') (same, sees, count) ran h = (
    h.0 ∙ same,
    inl (one_less published pending opened errors db laws t n (opened s') s h.1 count),
  )
  given_up id expected u s (err e, s') (same, sees, count) ran h = (
    elim h [ inl kept ↦ kept ∙ same | inr landed ↦ landed ∙ sees ],
    inr (
        doubt published pending opened errors db laws t n s s' same
          (inr (subst (λ y. IsFailure y s') (sym ran) refl)) h),
  )
  given_up id expected u s (panic, s') (same, sees, count) ran h = inr (
      doubt published pending opened errors db laws t n s s' same
        (inr (subst (λ y. IsFailure y s') (sym ran) refl)) h)

  snapshotting :
      (id : String) (expected : ℤ) (row : ListRow) (x : HistoryRow) (k : ℕ) (s : S)
      → Rows id expected row k s
      → Method published pending opened errors db laws t n
          (Swapped id expected (put_history x (put_list (set_row id row) t)))
          ((if k == 0
              then give_up errors db
              else (or_rollback errors db
                    (db.insert_history x)
                    (history_failed errors db "row update")
                    (map_snapshot_insert_err errors)
                  >> answering (map_update_err errors) db.commit
                  >> pure true))
            s)
  snapshotting id expected row x zero s h =
      given_up id expected (put_history x (put_list (set_row id row) t)) s (db.rollback s) h refl
        (laws.rolls_back s)
  snapshotting id expected row x (suc k) s (at, sees) =
      let u = put_history x (put_list (set_row id row) t) in
      let some_rows : (suc k == 0) ≡ false = ground arith in
      rw some_rows (
        Method-after published pending opened errors db laws t n
          (λ done s'. IsAt id expected t × (published s' ≡ u) × (opened s' ≡ n))
          (Swapped id expected u) (λ done. pure true) _
          (Method-after published pending opened errors db laws t n
            (λ done. In published pending opened errors db laws t n u)
            (λ done s'. IsAt id expected t × (published s' ≡ u) × (opened s' ≡ n))
            (λ done. answering (map_update_err errors) db.commit) _
            (history_inserted published pending opened errors db laws t n x
              (put_list (set_row id row) t) s (history_failed errors db "row update")
              (map_snapshot_insert_err errors) sees)
            (λ done s' e.
              settled published pending opened errors db laws t n (map_update_err errors)
                (IsAt id expected t) u s' at e))
          (λ done s' e. e))

  -- Over a database with transactions (what a statement did is seen outside when its transaction
  -- is committed) and in which a commit or a rollback that fails may have landed as a whole or
  -- not at all: a guarded update with a snapshot that answers `true` found the list at the
  -- expected version, has published both the new row and the history entry, and has ended its
  -- transaction. One that answers `false` has published nothing, and has ended its transaction
  -- unless the rollback failed. One that answers an error has published nothing and left no
  -- transaction open, unless its last call was a commit or a rollback that failed; one that
  -- panics has published nothing, with the same exception. In that case either nothing or the
  -- whole of the transaction is published.
  pub update_one_with_snapshot-Ends :
      (id : String) (expected : ℤ) (row : ListRow) (x : HistoryRow) (s : S)
      → published s ≡ t
      → opened s ≡ n
      → Method published pending opened errors db laws t n
          (Swapped id expected (put_history x (put_list (set_row id row) t)))
          (update_one_with_snapshot errors db id row expected x s)
  unfolding update_one_with_snapshot
  update_one_with_snapshot-Ends id expected row x s same count =
      elim (Bool-cases (not (str_eq x.list_id id) || not (str_eq row.list_id id))) [
        | inl other ↦ rw other (inl (same, count))
        | inr named ↦ elim (Bool-cases (leb_ℤ row.updated_at expected)) [
          | inl stale ↦ rw (named, stale) (inl (same, count))
          | inr newer ↦
              rw (named, newer)
                (Method-after published pending opened errors db laws t n (Rows id expected row)
                  (Swapped id expected (put_history x (put_list (set_row id row) t)))
                  (λ k.
                    if k == 0
                    then give_up errors db
                    else (or_rollback errors db (db.insert_history x)
                          (history_failed errors db "row update") (map_snapshot_insert_err errors)
                        >> answering (map_update_err errors) db.commit
                        >> pure true))
                  _ (updating id expected row s same count) (snapshotting id expected row x))
        ]
      ]
