-- ===== src/Outbound/Sql/Adapter/Contract.antt =====
-- The SQL adapter of src/outbound/sql/mod.rs against the contract that the service relies on.
use text.Mathlib.Text.{◌==◌ as str_eq}
use status_list_server.Base.{
  ℤ, String, Bool, true, false, Option, none, some, if◌then◌else◌, Outcome, ok, err, panic, ◌≡◌,
  refl, sym, ap, ◌∙◌, map_option, ℕ, inl, inr,
}
use status_list_server.Base.Action.{reword, after, pure}
use status_list_server.Domain.Model.{StatusListRecord, StatusListSnapshot}
use status_list_server.Domain.Ports.{StatusListRepo}
use status_list_server.Domain.Service.Contract.{View, Keeps, Puts, Swaps, Inserts, Finds, IsRepo}
use status_list_server.Outbound.Sql.Errors.{
  RepositoryError, DatabaseErrors, status_list_error, find_err,
}
use status_list_server.Outbound.Sql.Rows.{ListRow, record_of_row, row_of_record, row_of_snapshot}
use status_list_server.Outbound.Sql.Database.{Database}
use status_list_server.Outbound.Sql.Database.Contract.{
  Tables, put_list, put_history, set_row, Ends, Same, Unmoved, IsDatabase,
}
use status_list_server.Outbound.Sql.Store.{
  insert_one, insert_one_with_snapshot, update_one, update_one_with_snapshot, find_one_by,
}
use status_list_server.Outbound.Sql.Store.Endings.{IsFailure}
use status_list_server.Outbound.Sql.Store.Atomic.{
  InDoubt, Undone, Stopped, Method, Inserted, insert_one-Ends, insert_one_with_snapshot-Ends,
}
use status_list_server.Outbound.Sql.Store.Guarded.{
  Swapped, update_one-Ends, update_one_with_snapshot-Ends,
}
use status_list_server.Outbound.Sql.Adapter.{
  find, insert, update, update_with_snapshot, insert_with_snapshot, status_lists,
}

-- The records of the published table.
abbrev pub list_records : {S : Type 0} → (S → Tables) → View S
list_records published s id = map_option record_of_row ((published s).lists id)

-- No commit and no rollback fails.
pub record IsSure {S E Jwk : Type 0} (db : Database S E Jwk) : Type 0 where
  pub commits : (s s' : S) → ¬ IsFailure (db.commit s) s'
  pub rolls_back : (s s' : S) → ¬ IsFailure (db.rollback s) s'

abbrev pub Closes : {S E A : Type 0} → (S → ℕ) → S → Outcome E A × S → Type 0
Closes opened s x =
    Ends (λ s'. opened s' ≡ opened s) (λ s'. Unit {0}) (λ a s'. opened s' ≡ opened s) x

-- Every write that does not panic leaves as many open transactions as it found.
pub record IsSettled {S : Type 0} (opened : S → ℕ) (repo : StatusListRepo S) : Type 0 where
  pub insert : (r : StatusListRecord) (s : S) → Closes opened s (repo.insert r s)
  pub insert_with_snapshot :
      (r : StatusListRecord) (x : StatusListSnapshot) (s : S)
      → Closes opened s (repo.insert_with_snapshot r x s)
  pub update : (r : StatusListRecord) (t : ℤ) (s : S) → Closes opened s (repo.update r t s)
  pub update_with_snapshot :
      (r : StatusListRecord) (t : ℤ) (x : StatusListSnapshot) (s : S)
      → Closes opened s (repo.update_with_snapshot r t x s)

module _ {S E Jwk : Type 0} (published pending : S → Tables) (opened : S → ℕ)
    (errors : DatabaseErrors E) (db : Database S E Jwk)
    (laws : IsDatabase published pending db opened) (sure : IsSure db) where
  keeps :
      (t : Tables) (s s' : S)
      → published s ≡ t
      → published s' ≡ t
      → Keeps (list_records published) s s'
  keeps t s s' before now id =
      ap (λ (u : Tables). map_option record_of_row (u.lists id)) (now ∙ sym before)

  map-none : (o : Option ListRow) → o ≡ none → map_option record_of_row o ≡ none
  map-none o e = ap (map_option record_of_row) e

  -- A table with the row put has the record put.
  puts :
      (r : StatusListRecord) (t u : Tables) (s s' : S)
      → published s ≡ t
      → u.lists ≡ (put_list (row_of_record r) t).lists
      → published s' ≡ u
      → Puts (list_records published) r s s'
  puts r t u s s' before shape now id =
      ap (λ (w : Tables). map_option record_of_row (w.lists id)) now
      ∙ ap (λ (f : String → Option ListRow). map_option record_of_row (f id)) shape
      ∙ put_here (str_eq r.list_id id)
      ∙ ap
          (λ (w : Tables).
            if str_eq r.list_id id then some r else map_option record_of_row (w.lists id))
          (sym before)
    where
      put_here :
          (b : Bool)
          → map_option record_of_row (if b then some (row_of_record r) else t.lists id)
            ≡ (if b then some r else map_option record_of_row (t.lists id))
      put_here true = refl
      put_here false = refl

  certain : (t : Tables) (s : S) → ¬ InDoubt published pending opened db t s
  certain t s doubt = elim doubt.failed [
    | inl commit ↦ sure.commits doubt.before s commit
    | inr rollback ↦ sure.rolls_back doubt.before s rollback
  ]

  undone :
      (t : Tables) (n : ℕ) (s : S)
      → Undone published pending opened db t n s
      → (published s ≡ t) × (opened s ≡ n)
  undone t n s (inl h) = h
  undone t n s (inr doubt) = absurd (certain t s doubt)

  stopped : (t : Tables) (s : S) → Stopped published pending opened db t s → published s ≡ t
  stopped t s (inl h) = h
  stopped t s (inr doubt) = absurd (certain t s doubt)

  inserted :
      (r : StatusListRecord) (u : Tables) (s : S) (x : Outcome RepositoryError (Unit {0}) × S)
      → u.lists ≡ (put_list (row_of_record r) (published s)).lists
      → Method published pending opened errors db laws
          (published s)
          (opened s)
          (Inserted published pending opened errors db laws
            (published s)
            (opened s)
            (row_of_record r)
            u)
          x
      → Inserts (list_records published) r s (reword status_list_error x)
        × Closes opened s (reword status_list_error x)
  inserted r u s (ok done, s') shape (new, now, count) = (
    (map-none ((published s).lists r.list_id) new, puts r (published s) u s s' refl shape now),
    count,
  )
  inserted r u s (err e, s') shape h =
      let (same, count) = undone (published s) (opened s) s' h in
      (keeps (published s) s s' refl same, count)
  inserted r u s (panic, s') shape h =
      (keeps (published s) s s' refl (stopped (published s) s' h), tt)

  swapped :
      (r : StatusListRecord) (expected : ℤ) (u : Tables) (s : S)
      (x : Outcome RepositoryError Bool × S)
      → u.lists ≡ (put_list (row_of_record r) (published s)).lists
      → Method published pending opened errors db laws
          (published s)
          (opened s)
          (Swapped published pending opened errors db laws
            (published s)
            (opened s)
            r.list_id
            expected
            u)
          x
      → Swaps (list_records published) r expected s (reword status_list_error x)
        × Closes opened s (reword status_list_error x)
  swapped r expected u s (ok true, s') shape ((current, at, version), now, count) = (
    (
      (record_of_row current, ap (map_option record_of_row) at, version),
      puts r (published s) u s s' refl shape now,
    ),
    count,
  )
  swapped r expected u s (ok false, s') shape (same, ended) = (
    keeps (published s) s s' refl same,
    elim ended [ inl count ↦ count | inr doubt ↦ absurd (certain (published s) s' doubt) ],
  )
  swapped r expected u s (err e, s') shape h =
      let (same, count) = undone (published s) (opened s) s' h in
      (keeps (published s) s s' refl same, count)
  swapped r expected u s (panic, s') shape h =
      (keeps (published s) s s' refl (stopped (published s) s' h), tt)

  found :
      (id : String) (s : S) (x : Outcome E (Option ListRow) × S)
      → Ends
          (Same published pending db opened s)
          (Unmoved published pending db opened s)
          (λ o s'. Same published pending db opened s s' × (o ≡ (published s).lists id))
          x
      → Finds (list_records published) id s (
          reword status_list_error
            (after (λ o. pure (map_option record_of_row o)) (reword (find_err errors) x)))
  found id s (ok o, s') (same, row) =
      (ap (map_option record_of_row) row, keeps (published s) s s' refl same.0)
  found id s (err e, s') same = keeps (published s) s s' refl same.0
  found id s (panic, s') same = keeps (published s) s s' refl same

  -- One write each, with what it leaves of its transaction.
  insert_both :
      (r : StatusListRecord) (s : S)
      → Inserts (list_records published) r s ((status_lists errors db).insert r s)
        × Closes opened s ((status_lists errors db).insert r s)
  unfolding insert
  insert_both r s =
      inserted r (put_list (row_of_record r) (published s)) s
        (insert_one errors db (row_of_record r) s) refl
        (insert_one-Ends published pending opened errors db laws (published s) (opened s)
          (row_of_record r) s refl refl)

  insert_with_snapshot_both :
      (r : StatusListRecord) (x : StatusListSnapshot) (s : S)
      → Inserts (list_records published) r s ((status_lists errors db).insert_with_snapshot r x s)
        × Closes opened s ((status_lists errors db).insert_with_snapshot r x s)
  unfolding insert_with_snapshot
  insert_with_snapshot_both r x s =
      inserted r (put_history (row_of_snapshot x) (put_list (row_of_record r) (published s))) s
        (insert_one_with_snapshot errors db (row_of_record r) (row_of_snapshot x) s) refl
        (insert_one_with_snapshot-Ends published pending opened errors db laws (published s)
          (opened s) (row_of_record r) (row_of_snapshot x) s refl refl)

  update_both :
      (r : StatusListRecord) (t : ℤ) (s : S)
      → Swaps (list_records published) r t s ((status_lists errors db).update r t s)
        × Closes opened s ((status_lists errors db).update r t s)
  unfolding update
  update_both r t s =
      swapped r t (put_list (set_row r.list_id (row_of_record r)) (published s)) s
        (update_one errors db r.list_id (row_of_record r) t s) refl
        (update_one-Ends published pending opened errors db laws (published s) (opened s) r.list_id
          t (row_of_record r) s refl refl)

  update_with_snapshot_both :
      (r : StatusListRecord) (t : ℤ) (x : StatusListSnapshot) (s : S)
      → Swaps (list_records published) r t s ((status_lists errors db).update_with_snapshot r t x s)
        × Closes opened s ((status_lists errors db).update_with_snapshot r t x s)
  unfolding update_with_snapshot
  update_with_snapshot_both r t x s =
      swapped r t
        (put_history (row_of_snapshot x)
          (put_list (set_row r.list_id (row_of_record r)) (published s)))
        s (update_one_with_snapshot errors db r.list_id (row_of_record r) t (row_of_snapshot x) s)
        refl
        (update_one_with_snapshot-Ends published pending opened errors db laws (published s)
          (opened s) r.list_id t (row_of_record r) (row_of_snapshot x) s refl refl)

  -- Over a database with transactions (what a statement did is seen outside when its transaction
  -- is committed) in which no commit and no rollback fails: the SQL adapter keeps the contract
  -- that the service relies on of a store: finds answer what is published, an insertion writes
  -- only under an identifier without a record, a guarded update writes only over the expected
  -- version, and what is refused or fails changes no record; and every write that does not panic
  -- leaves as many transactions open as it found.
  pub status_lists-IsRepo :
      IsRepo (list_records published) (status_lists errors db)
      × IsSettled opened (status_lists errors db)
  unfolding find find_one_by
  status_lists-IsRepo = (
    record {
      finds = λ id s. found id s (db.find_list id s) (laws.finds_list id s);
      inserts = λ r s. (insert_both r s).0;
      inserts_with_snapshot = λ r x s. (insert_with_snapshot_both r x s).0;
      swaps = λ r t s. (update_both r t s).0;
      swaps_with_snapshot = λ r t x s. (update_with_snapshot_both r t x s).0;
    },
    record {
      insert = λ r s. (insert_both r s).1;
      insert_with_snapshot = λ r x s. (insert_with_snapshot_both r x s).1;
      update = λ r t s. (update_both r t s).1;
      update_with_snapshot = λ r t x s. (update_with_snapshot_both r t x s).1;
    },
  )
