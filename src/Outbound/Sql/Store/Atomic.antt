-- ===== src/Outbound/Sql/Store/Atomic.antt =====
-- The writes of src/outbound/sql/store.rs as single steps on the published tables, and what they
-- leave of their transactions.
use text.Mathlib.Text.{◌==◌ as str_eq}
use mathlib.Core.Path.{subst}
use status_list_server.Base.{
  ◌-◌, Bool-cases, none, Outcome, ok, err, panic, ◌≡◌, refl, sym, ap, ◌∙◌, inl, inr, ◌⊎◌, ℕ, suc,
  arith,
}
use status_list_server.Base.Action.{Action, ◌>>◌, throw, after, reword, answering}
use status_list_server.Outbound.Sql.Errors.{
  RepositoryError, DatabaseErrors, map_insert_err, map_snapshot_insert_err,
}
use status_list_server.Outbound.Sql.Rows.{ListRow, HistoryRow}
use status_list_server.Outbound.Sql.Database.{Database, postgres, mysql, sqlite}
use status_list_server.Outbound.Sql.Database.Contract.{
  Tables, put_list, put_history, Ends, Same, Unmoved, Begun, MayLand, IsDatabase,
}
use status_list_server.Outbound.Sql.Store.{
  begin_read_committed, undo, or_rollback, insert_failed, history_failed, insert_one,
  insert_one_with_snapshot,
}
use status_list_server.Outbound.Sql.Store.Endings.{Ends-after, Ends-reword, Ends-mono, IsFailure}

module _ {S E Jwk : Type 0} (published pending : S → Tables) (opened : S → ℕ)
    (db : Database S E Jwk) where
  -- The last call was a commit or a rollback of a transaction over the tables `t`, and it failed:
  -- the transaction may have landed as a whole.
  pub record InDoubt (t : Tables) (s : S) : Type 0 where
    pub before : S
    pub base : published before ≡ t
    pub failed : IsFailure (db.commit before) s ⊎ IsFailure (db.rollback before) s
    pub lands : (published s ≡ t) ⊎ (published s ≡ pending before)

  -- A method that answered an error: nothing is published and no transaction is left open, unless
  -- the failing call was a commit or a rollback.
  abbrev pub Undone : Tables → ℕ → S → Type 0
  Undone t n s = ((published s ≡ t) × (opened s ≡ n)) ⊎ InDoubt t s

  -- A panic runs no rollback.
  abbrev pub Stopped : Tables → S → Type 0
  Stopped t s = (published s ≡ t) ⊎ InDoubt t s

  -- The transaction stands: nothing is published, and these are the tables that it sees.
  abbrev pub Sees : Tables → ℕ → Tables → S → Type 0
  Sees t n u s = (published s ≡ t) × (pending s ≡ u) × (opened s ≡ suc n)

module _ {S E Jwk : Type 0} (published pending : S → Tables) (opened : S → ℕ)
    (errors : DatabaseErrors E) (db : Database S E Jwk)
    (laws : IsDatabase published pending db opened) (t : Tables) (n : ℕ) where
  abbrev pub Method : {F A : Type 0} → (A → S → Type 0) → Outcome F A × S → Type 0
  Method P x =
      Ends (Undone published pending opened db t n) (Stopped published pending opened db t) P x

  pub Method-after :
      {F A B : Type 0} (P : A → S → Type 0) (R : B → S → Type 0) (k : A → Action F S B)
      (x : Outcome F A × S)
      → Method P x
      → ((a : A) (s : S) → P a s → Method R (k a s))
      → Method R (after k x)
  Method-after P R k x h next =
      Ends-after (Undone published pending opened db t n) (Stopped published pending opened db t) P
        R k x h next

  Method-mono :
      {F A : Type 0} (P Q : A → S → Type 0) (x : Outcome F A × S)
      → ((a : A) (s : S) → P a s → Q a s)
      → Method P x
      → Method Q x
  Method-mono P Q x weaken h =
      Ends-mono (Undone published pending opened db t n) (Stopped published pending opened db t) _ _
        P Q x (λ s k. k) (λ s k. k) weaken h

  abbrev pub In : Tables → S → Type 0
  In u s = Sees published pending opened db t n u s

  pub one_less : (a : ℕ) (s : S) → a ≡ opened s - 1 → opened s ≡ suc n → a ≡ n
  one_less a s e h = omega (arith, e, h)

  pub doubt :
      (s s' : S)
      → published s ≡ t
      → IsFailure (db.commit s) s' ⊎ IsFailure (db.rollback s) s'
      → MayLand published pending db opened s s'
      → InDoubt published pending opened db t s'
  doubt s s' base failed lands = record {
    before = s;
    base = base;
    failed = failed;
    lands = elim lands [ inl same ↦ inl (same ∙ base) | inr landed ↦ inr landed ];
  }

  opens :
      (s : S)
      → Ends
          (Same published pending db opened s)
          (Unmoved published pending db opened s)
          (Begun published pending db opened s)
          (begin_read_committed errors db s)
  unfolding begin_read_committed
  opens s =
      elim (db.get_database_backend s)
        as (λ b.
          Ends {E = E} (Same published pending db opened s) (Unmoved published pending db opened s)
            (Begun published pending db opened s)
            (elim b [
              | postgres ↦ db.begin_at_read_committed s
              | mysql ↦ db.begin_at_read_committed s
              | sqlite ↦ db.begin s
            ])) [
              | postgres ↦ laws.begins_at_read_committed s
              | mysql ↦ laws.begins_at_read_committed s
              | sqlite ↦ laws.begins s
            ]

  pub begun :
      (f : E → RepositoryError) (s : S)
      → published s ≡ t
      → opened s ≡ n
      → Method (λ done s'. In t s') (answering f (begin_read_committed errors db) s)
  begun f s same count =
      Ends-reword _ _ (λ done s'. In t s') f (begin_read_committed errors db s)
        (Ends-mono _ _ _ _ (Begun published pending db opened s) (λ done s'. In t s')
          (begin_read_committed errors db s) (λ s' h. inl (h.0 ∙ same, h.1 ∙ count))
          (λ s' h. inl (h ∙ same)) (λ done s' h. (h.0 ∙ same, h.1 ∙ same, h.2 ∙ ap suc count))
          (opens s))

  -- A rollback on the way out, and how it may fail too.
  rolled_back :
      {A : Type 0} (P : A → S → Type 0) (f : E → RepositoryError) (e : RepositoryError) (s : S)
      (x : Outcome E (Unit {0}) × S)
      → published s ≡ t
      → opened s ≡ suc n
      → db.rollback s ≡ x
      → Ends
          (MayLand published pending db opened s)
          (MayLand published pending db opened s)
          (λ done s'. (published s' ≡ published s) × (opened s' ≡ opened s - 1))
          x
      → Method P (after (λ _. throw e) (reword f x))
  rolled_back P f e s (ok done, s') same count ran h =
      inl (h.0 ∙ same, one_less (opened s') s h.1 count)
  rolled_back P f e s (err r, s') same count ran h =
      inr (doubt s s' same (inr (subst (λ y. IsFailure y s') (sym ran) refl)) h)
  rolled_back P f e s (panic, s') same count ran h =
      inr (doubt s s' same (inr (subst (λ y. IsFailure y s') (sym ran) refl)) h)

  Ends-undo :
      {A : Type 0} (P : A → S → Type 0) (failed : E → E → RepositoryError)
      (classify : E → RepositoryError) (s : S) (x : Outcome E A × S)
      → published s ≡ t
      → opened s ≡ suc n
      → Ends (Same published pending db opened s) (Unmoved published pending db opened s) P x
      → Method P (undo errors db failed classify x)
  unfolding undo
  Ends-undo P failed classify s (ok a, s') same count h = h
  Ends-undo P failed classify s (err e, s') same count h =
      rolled_back P (failed e) (classify e) s' (db.rollback s') (h.0 ∙ same) (h.1 ∙ count) refl
        (laws.rolls_back s')
  Ends-undo P failed classify s (panic, s') same count h = inl (h ∙ same)

  -- A statement of a transaction over the tables `t`.
  pub Ends-statement :
      {A : Type 0} (P R : A → S → Type 0) (m : Action E S A) (failed : E → E → RepositoryError)
      (classify : E → RepositoryError) (s : S)
      → published s ≡ t
      → opened s ≡ suc n
      → ((a : A) (s' : S) → P a s' → R a s')
      → Ends (Same published pending db opened s) (Unmoved published pending db opened s) P (m s)
      → Method R (or_rollback errors db m failed classify s)
  unfolding or_rollback
  Ends-statement P R m failed classify s same count weaken h =
      Ends-undo R failed classify s (m s) same count
        (Ends-mono _ _ _ _ P R (m s) (λ s' k. k) (λ s' k. k) weaken h)

  committed :
      (u : Tables) (f : E → RepositoryError) (s : S) (x : Outcome E (Unit {0}) × S)
      → In u s
      → db.commit s ≡ x
      → Ends
          (MayLand published pending db opened s)
          (MayLand published pending db opened s)
          (λ done s'. (published s' ≡ pending s) × (opened s' ≡ opened s - 1))
          x
      → Method (λ done s'. (published s' ≡ u) × (opened s' ≡ n)) (reword f x)
  committed u f s (ok done, s') (same, sees, count) ran h =
      (h.0 ∙ sees, one_less (opened s') s h.1 count)
  committed u f s (err r, s') (same, sees, count) ran h =
      inr (doubt s s' same (inl (subst (λ y. IsFailure y s') (sym ran) refl)) h)
  committed u f s (panic, s') (same, sees, count) ran h =
      inr (doubt s s' same (inl (subst (λ y. IsFailure y s') (sym ran) refl)) h)

  -- The end of a transaction in which `new` has been seen to hold.
  pub settled :
      (f : E → RepositoryError) (new : Type 0) (u : Tables) (s : S)
      → new
      → In u s
      → Method (λ done s'. new × (published s' ≡ u) × (opened s' ≡ n)) (answering f db.commit s)
  settled f new u s holds sees =
      Ends-mono _ _ _ _ (λ done s'. (published s' ≡ u) × (opened s' ≡ n))
        (λ done s'. new × (published s' ≡ u) × (opened s' ≡ n)) (answering f db.commit s)
        (λ s' k. k) (λ s' k. k) (λ done s' h. (holds, h.0, h.1))
        (committed u f s (db.commit s) sees refl (laws.commits s))

  -- Within the transaction the row stands under a new key.
  abbrev pub Listed : ListRow → S → Type 0
  Listed row s = (t.lists row.list_id ≡ none) × In (put_list row t) s

  list_inserted :
      (row : ListRow) (s : S) (failed : E → E → RepositoryError) (classify : E → RepositoryError)
      → In t s
      → Method (λ done. Listed row) (or_rollback errors db (db.insert_list row) failed classify s)
  list_inserted row s failed classify (same, sees, count) =
      Ends-statement _ (λ done. Listed row) (db.insert_list row) failed classify s same count
        (λ done s' h. (
          sym (ap (λ (u : Tables). u.lists row.list_id) sees) ∙ h.0,
          (h.1.0 ∙ same, h.1.1 ∙ ap (put_list row) sees, h.1.2 ∙ count),
        ))
        (laws.inserts_list row s)

  pub history_inserted :
      (row : HistoryRow) (u : Tables) (s : S) (failed : E → E → RepositoryError)
      (classify : E → RepositoryError)
      → In u s
      → Method
          (λ done. In (put_history row u))
          (or_rollback errors db (db.insert_history row) failed classify s)
  history_inserted row u s failed classify (same, sees, count) =
      Ends-statement _ (λ done. In (put_history row u)) (db.insert_history row) failed classify s
        same count (λ done s' h. (h.0 ∙ same, h.1 ∙ ap (put_history row) sees, h.2 ∙ count))
        (laws.inserts_history row s)

  -- The beginning of a publication: the transaction, and the row of the list.
  listing :
      (row : ListRow) (s : S)
      → published s ≡ t
      → opened s ≡ n
      → Method
          (λ done. Listed row)
          ((answering (map_insert_err errors) (begin_read_committed errors db)
              >> or_rollback errors db
                  (db.insert_list row)
                  (insert_failed errors db)
                  (map_insert_err errors))
            s)
  listing row s same count =
      Method-after (λ done. In t) (λ done. Listed row)
        (λ done.
          or_rollback errors db (db.insert_list row) (insert_failed errors db)
            (map_insert_err errors))
        (answering (map_insert_err errors) (begin_read_committed errors db) s)
        (begun (map_insert_err errors) s same count)
        (λ done s' h. list_inserted row s' (insert_failed errors db) (map_insert_err errors) h)

  abbrev pub Inserted : ListRow → Tables → Unit {0} → S → Type 0
  Inserted row u done s' = (t.lists row.list_id ≡ none) × (published s' ≡ u) × (opened s' ≡ n)

  pub insert_one-Ends :
      (row : ListRow) (s : S)
      → published s ≡ t
      → opened s ≡ n
      → Method (Inserted row (put_list row t)) (insert_one errors db row s)
  unfolding insert_one
  insert_one-Ends row s same count =
      Method-after (λ done. Listed row) (Inserted row (put_list row t))
        (λ done. answering (map_insert_err errors) db.commit) _ (listing row s same count)
        (λ done s' h.
          settled (map_insert_err errors) (t.lists row.list_id ≡ none) (put_list row t) s' h.0 h.1)

  pub insert_one_with_snapshot-Ends :
      (row : ListRow) (x : HistoryRow) (s : S)
      → published s ≡ t
      → opened s ≡ n
      → Method
          (Inserted row (put_history x (put_list row t)))
          (insert_one_with_snapshot errors db row x s)
  unfolding insert_one_with_snapshot
  insert_one_with_snapshot-Ends row x s same count =
      elim (Bool-cases (str_eq x.list_id row.list_id)) [
        | inr other ↦ rw other (inl (same, count))
        | inl named ↦
            let u = put_history x (put_list row t) in
            rw named (
              Method-after (λ done s'. (t.lists row.list_id ≡ none) × In u s') (Inserted row u)
                (λ done. answering (map_insert_err errors) db.commit) _
                (Method-after (λ done. Listed row)
                  (λ done s'. (t.lists row.list_id ≡ none) × In u s')
                  (λ done.
                    or_rollback errors db (db.insert_history x)
                      (history_failed errors db "status list insert")
                      (map_snapshot_insert_err errors))
                  _ (listing row s same count)
                  (λ done s' h.
                    Method-mono (λ done. In u) (λ done s''. (t.lists row.list_id ≡ none) × In u s'')
                      _ (λ done s'' k. (h.0, k))
                      (history_inserted x (put_list row t) s'
                        (history_failed errors db "status list insert")
                        (map_snapshot_insert_err errors) h.1)))
                (λ done s' h.
                  settled (map_insert_err errors) (t.lists row.list_id ≡ none) u s' h.0 h.1))
      ]
