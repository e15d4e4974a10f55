-- ===== src/Outbound/Sql/Store/Lands.antt =====
-- A write of src/outbound/sql/store.rs that may be made, on a database where the statements
-- succeed, is made.
use text.Mathlib.TextEquality.{eq_iff}
use status_list_server.Base.{
  ℕ, zero, suc, ◌<◌, ◌<ℤ◌, ◌==◌, leb_ℤ, String, true, false, none, some, if◌then◌else◌, Outcome, ok,
  err, panic, ◌≡◌, refl, ap, ◌∙◌, arith,
}
use status_list_server.Base.Action.{Action, ◌>>◌, pure, after, reword, answering}
use status_list_server.Outbound.Sql.Errors.{
  RepositoryError, DatabaseErrors, map_insert_err, map_update_err, map_snapshot_insert_err,
}
use status_list_server.Outbound.Sql.Rows.{ListRow, HistoryRow}
use status_list_server.Outbound.Sql.Database.{Database, postgres, mysql, sqlite}
use status_list_server.Outbound.Sql.Database.Contract.{
  Tables, put_list, put_history, set_row, IsOpened, IsPending,
}
use status_list_server.Outbound.Sql.Store.{
  begin_read_committed, undo, or_rollback, insert_failed, history_failed, update_failed, give_up,
  insert_one_with_snapshot, update_one_with_snapshot,
}

abbrev pub Succeeds : {E A S : Type 0} → (A → S → Type 0) → Outcome E A × S → Type 0
Succeeds P (ok a, s) = P a s
Succeeds P (err e, s) = ⊥
Succeeds P (panic, s) = ⊥

Succeeds-after :
    {E A B S : Type 0} (P : A → S → Type 0) (R : B → S → Type 0) (k : A → Action E S B)
    (x : Outcome E A × S)
    → Succeeds P x
    → ((a : A) (s : S) → P a s → Succeeds R (k a s))
    → Succeeds R (after k x)
Succeeds-after P R k (ok a, s) h next = next a s h
Succeeds-after P R k (err e, s) h next = absurd h
Succeeds-after P R k (panic, s) h next = absurd h

Succeeds-reword :
    {E F A S : Type 0} (P R : A → S → Type 0) (f : E → F) (x : Outcome E A × S)
    → ((a : A) (s : S) → P a s → R a s)
    → Succeeds P x
    → Succeeds R (reword f x)
Succeeds-reword P R f (ok a, s) weaken h = weaken a s h
Succeeds-reword P R f (err e, s) weaken h = h
Succeeds-reword P R f (panic, s) weaken h = h

module _ {S E Jwk : Type 0} (published pending : S → Tables) (errors : DatabaseErrors E)
    (db : Database S E Jwk) where
  -- No statement fails but for what stands in the tables.
  pub record IsAvailable : Type 0 where
    pub begins : (s : S) → Succeeds (IsOpened published pending db s) (db.begin s)
    pub begins_at_read_committed :
        (s : S) → Succeeds (IsOpened published pending db s) (db.begin_at_read_committed s)
    pub commits : (s : S) → Succeeds (λ done s'. published s' ≡ pending s) (db.commit s)
    pub inserts_list :
        (row : ListRow) (s : S)
        → (pending s).lists row.list_id ≡ none
        → Succeeds
            (λ done s'. IsPending published pending db s (put_list row (pending s)) s')
            (db.insert_list row s)
    pub inserts_history :
        (row : HistoryRow) (s : S)
        → (pending s).history row.snapshot_id ≡ none
        → Succeeds
            (λ done s'. IsPending published pending db s (put_history row (pending s)) s')
            (db.insert_history row s)
    pub updates_list :
        (id : String) (current row : ListRow) (s : S)
        → (pending s).lists id ≡ some current
        → Succeeds
            (λ n s'.
              (0 < n) × IsPending published pending db s (put_list (set_row id row) (pending s)) s')
            (db.update_lists id current.updated_at row s)

  Succeeds-or_rollback :
      {A : Type 0} (P R : A → S → Type 0) (m : Action E S A) (failed : E → E → RepositoryError)
      (classify : E → RepositoryError) (s : S)
      → ((a : A) (s' : S) → P a s' → R a s')
      → Succeeds P (m s)
      → Succeeds R (or_rollback errors db m failed classify s)
  unfolding or_rollback
  Succeeds-or_rollback {A = A} P R m failed classify s weaken h = done (m s) h
    where
      done : (x : Outcome E A × S) → Succeeds P x → Succeeds R (undo errors db failed classify x)
      done (ok a, s') h = weaken a s' h
      done (err e, s') h = absurd h
      done (panic, s') h = absurd h

  module _ (laws : IsAvailable) where
    -- A transaction whose tables are `u` is open.
    abbrev At : {A : Type 0} → Tables → A → S → Type 0
    At u a s = pending s ≡ u

    opens :
        (f : E → RepositoryError) (s : S)
        → Succeeds (At (published s)) (answering f (begin_read_committed errors db) s)
    unfolding begin_read_committed
    opens f s =
        Succeeds-reword (IsOpened published pending db s) (At (published s)) f
          (begin_read_committed errors db s) (λ done s' h. h.1)
          (elim (db.get_database_backend s)
            as (λ b. Succeeds {E = E} (IsOpened published pending db s) (elim b [
              | postgres ↦ db.begin_at_read_committed s
              | mysql ↦ db.begin_at_read_committed s
              | sqlite ↦ db.begin s
            ])) [
              | postgres ↦ laws.begins_at_read_committed s
              | mysql ↦ laws.begins_at_read_committed s
              | sqlite ↦ laws.begins s
            ])

    pub commits_at :
        (f : E → RepositoryError) (u : Tables) (s : S)
        → pending s ≡ u
        → Succeeds (λ done s'. published s' ≡ u) (answering f db.commit s)
    commits_at f u s e =
        Succeeds-reword (λ done s'. published s' ≡ pending s) (λ done s'. published s' ≡ u) f
          (db.commit s) (λ done s' h. h ∙ e) (laws.commits s)

    puts_list :
        (row : ListRow) (u : Tables) (failed : E → E → RepositoryError)
        (classify : E → RepositoryError) (s : S)
        → pending s ≡ u
        → u.lists row.list_id ≡ none
        → Succeeds
            (At (put_list row u))
            (or_rollback errors db (db.insert_list row) failed classify s)
    puts_list row u failed classify s e free =
        Succeeds-or_rollback
          (λ done s'. IsPending published pending db s (put_list row (pending s)) s')
          (At (put_list row u)) (db.insert_list row) failed classify s
          (λ done s' h. h.1 ∙ ap (put_list row) e)
          (laws.inserts_list row s (ap (λ (t : Tables). t.lists row.list_id) e ∙ free))

    puts_history :
        (row : HistoryRow) (u : Tables) (failed : E → E → RepositoryError)
        (classify : E → RepositoryError) (s : S)
        → pending s ≡ u
        → u.history row.snapshot_id ≡ none
        → Succeeds
            (At (put_history row u))
            (or_rollback errors db (db.insert_history row) failed classify s)
    puts_history row u failed classify s e free =
        Succeeds-or_rollback
          (λ done s'. IsPending published pending db s (put_history row (pending s)) s')
          (At (put_history row u)) (db.insert_history row) failed classify s
          (λ done s' h. h.1 ∙ ap (put_history row) e)
          (laws.inserts_history row s (ap (λ (t : Tables). t.history row.snapshot_id) e ∙ free))

    replaces :
        (id : String) (current row : ListRow) (u : Tables) (failed : E → E → RepositoryError)
        (classify : E → RepositoryError) (s : S)
        → pending s ≡ u
        → u.lists id ≡ some current
        → Succeeds
            (λ n s'. (0 < n) × At (put_list (set_row id row) u) n s')
            (or_rollback errors db (db.update_lists id current.updated_at row) failed classify s)
    replaces id current row u failed classify s e here =
        Succeeds-or_rollback
          (λ n s'.
            (0 < n) × IsPending published pending db s (put_list (set_row id row) (pending s)) s')
          (λ n s'. (0 < n) × At (put_list (set_row id row) u) n s')
          (db.update_lists id current.updated_at row) failed classify s
          (λ n s' h. (h.0, h.1.1 ∙ ap (put_list (set_row id row)) e))
          (laws.updates_list id current row s (ap (λ (t : Tables). t.lists id) e ∙ here))

    -- Where no statement of the database fails but for what stands in the tables: the insertion
    -- of a row under a fresh identifier with a snapshot of the same list under a fresh key
    -- succeeds and has published both rows.
    pub insert_one_with_snapshot-Succeeds :
        (row : ListRow) (x : HistoryRow) (s : S)
        → x.list_id ≡ row.list_id
        → (published s).lists row.list_id ≡ none
        → (published s).history x.snapshot_id ≡ none
        → Succeeds
            (λ done s'. published s' ≡ put_history x (put_list row (published s)))
            (insert_one_with_snapshot errors db row x s)
    unfolding insert_one_with_snapshot
    insert_one_with_snapshot-Succeeds row x s same new_list new_entry =
        let t = published s in
        let f = map_insert_err errors in
        let u = put_history x (put_list row t) in
        rw ((eq_iff x.list_id row.list_id).1 same) (
          Succeeds-after (At u) (λ done s'. published s' ≡ u) (λ _. answering f db.commit) _
            (Succeeds-after (At (put_list row t)) (At u)
              (λ _.
                or_rollback errors db (db.insert_history x)
                  (history_failed errors db "status list insert") (map_snapshot_insert_err errors))
              _
              (Succeeds-after (At t) (At (put_list row t))
                (λ _. or_rollback errors db (db.insert_list row) (insert_failed errors db) f) _
                (opens f s) (λ _ s' e. puts_list row t (insert_failed errors db) f s' e new_list))
              (λ _ s' e. puts_history x (put_list row t) _ _ s' e new_entry))
            (λ _ s' e. commits_at f u s' e))

    -- Where no statement of the database fails but for what stands in the tables: a guarded
    -- update with a snapshot of the same list, a later time than the stored row's, that row's own
    -- version as the expected one, and a fresh key for the snapshot answers `true` and has
    -- published both rows.
    pub update_one_with_snapshot-Succeeds :
        (id : String) (current row : ListRow) (x : HistoryRow) (s : S)
        → x.list_id ≡ id
        → row.list_id ≡ id
        → current.updated_at <ℤ row.updated_at
        → (published s).lists id ≡ some current
        → (published s).history x.snapshot_id ≡ none
        → Succeeds
            (λ replaced s'.
              (replaced ≡ true)
              × (published s' ≡ put_history x (put_list (set_row id row) (published s))))
            (update_one_with_snapshot errors db id row current.updated_at x s)
    unfolding update_one_with_snapshot
    update_one_with_snapshot-Succeeds id current row x s entry key newer here new_entry =
        let t = published s in
        let f = map_update_err errors in
        rw ((eq_iff x.list_id id).1 entry, (eq_iff row.list_id id).1 key, is_newer)
          (Succeeds-after (λ n s'. (0 < n) × At (put_list (set_row id row) t) n s') _ _ _
            (Succeeds-after (At t) (λ n s'. (0 < n) × At (put_list (set_row id row) t) n s')
              (λ _.
                or_rollback errors db (db.update_lists id current.updated_at row)
                  (update_failed errors db) f)
              _ (opens f s)
              (λ _ s' e. replaces id current row t (update_failed errors db) f s' e here))
            finishes)
      where
        is_newer : leb_ℤ row.updated_at current.updated_at ≡ false
        is_newer = ground arith

        is_some_row : (n : ℕ) → (suc n == 0) ≡ false
        is_some_row n = ground arith

        finishes :
            (n : ℕ) (s' : S)
            → (0 < n) × At (put_list (set_row id row) (published s)) n s'
            → Succeeds
                (λ replaced s'.
                  (replaced ≡ true)
                  × (published s' ≡ put_history x (put_list (set_row id row) (published s))))
                ((if n == 0
                    then give_up errors db
                    else (or_rollback errors db
                          (db.insert_history x)
                          (history_failed errors db "row update")
                          (map_snapshot_insert_err errors)
                        >> answering (map_update_err errors) db.commit
                        >> pure true))
                  s')
        finishes zero s' h = absurd (omega arith)
        finishes (suc n) s' h =
            let u = put_list (set_row id row) (published s) in
            rw (is_some_row n) (
              Succeeds-after (λ done s'. published s' ≡ put_history x u) _ (λ _. pure true) _
                (Succeeds-after (At (put_history x u)) (λ done s'. published s' ≡ put_history x u)
                  (λ _. answering (map_update_err errors) db.commit) _
                  (puts_history x u _ _ s' h.1 new_entry)
                  (λ _ s' e. commits_at (map_update_err errors) (put_history x u) s' e))
                (λ _ s' e. (refl, e)))
