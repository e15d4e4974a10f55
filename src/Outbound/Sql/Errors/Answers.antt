-- ===== src/Outbound/Sql/Errors/Answers.antt =====
-- From a database error to the answer of the server.
use status_list_server.Base.{
  ℕ, String, true, false, Bool-cases, Option, none, some, ◌≡◌, refl, arith, ◌⊎◌, inl, inr, ◌==◌,
}
use text.Mathlib.Text.{◌==◌ as str_eq}
use text.Mathlib.TextEquality.{eq_iff}
use status_list_server.Server.Error.{
  ApiError, into_api_error, write_contention, internal, in_conflict,
}
use status_list_server.Outbound.Sql.Errors.{
  RepositoryError, DatabaseErrors, classify_server, ServerError, mysql, postgres, other_server,
  contention_code, classify_mysql, classify_postgres, map_insert_err, status_list_error,
  or_contention, insert_error,
}

-- The server reports that the statement lost a race for a lock and was rolled back.
abbrev pub LostRace : Option ServerError → Type 0
LostRace none = ⊥
LostRace (some (mysql number)) = (number ≡ 1205) ⊎ (number ≡ 1213)
LostRace (some (postgres sqlstate)) = (sqlstate ≡ "40001") ⊎ (sqlstate ≡ "40P01")
LostRace (some other_server) = ⊥

module _ {E : Type 0} (errors : DatabaseErrors E) where
  abbrev Classified : Option ServerError → Option String → Type 0
  Classified server none = ¬ (LostRace server)
  Classified server (some code) = LostRace server

  mysql_code : (number : ℕ) → Classified (some (mysql number)) (classify_mysql number)
  unfolding classify_mysql
  mysql_code number = elim (Bool-cases (number == 1205)) [
    | inl timeout ↦ rw timeout (inl (ground arith))
    | inr other ↦ elim (Bool-cases (number == 1213)) [
      | inl deadlock ↦ rw (other, deadlock) (inr (ground arith))
      | inr none_of ↦ rw (other, none_of) (λ h. ground arith)
    ]
  ]

  postgres_code :
      (sqlstate : String) → Classified (some (postgres sqlstate)) (classify_postgres sqlstate)
  unfolding classify_postgres
  postgres_code sqlstate = elim (Bool-cases (str_eq sqlstate "40001")) [
    | inl failure ↦ rw failure (inl ((eq_iff sqlstate "40001").0 failure))
    | inr other ↦ elim (Bool-cases (str_eq sqlstate "40P01")) [
      | inl deadlock ↦ rw (other, deadlock) (inr ((eq_iff sqlstate "40P01").0 deadlock))
      | inr none_of ↦
          rw (other, none_of)
            (λ h. ground (arith, eq_iff sqlstate "40001", eq_iff sqlstate "40P01"))
    ]
  ]

  contention_code-Classified :
      (e : E) → Classified (errors.server_error e) (contention_code errors e)
  unfolding contention_code
  contention_code-Classified e = classified (errors.server_error e)
    where
      classified : (server : Option ServerError) → Classified server (classify_server server)
      classified none = λ h. h
      classified (some (mysql number)) = mysql_code number
      classified (some (postgres sqlstate)) = postgres_code sqlstate
      classified (some other_server) = λ h. h

  -- What the client is told of an error of the database.
  abbrev answer : (E → RepositoryError) → E → ApiError
  answer classify e = into_api_error (status_list_error (classify e))

  -- A lost race may be tried again; any other failure is internal.
  abbrev pub Retryable : E → ApiError → Type 0
  Retryable e a =
      ((a ≡ write_contention) × LostRace (errors.server_error e))
      ⊎ ((a ≡ internal "") × ¬ (LostRace (errors.server_error e)))

  retryable :
      (e : E) (code : Option String) (other : RepositoryError)
      → into_api_error (status_list_error other) ≡ internal ""
      → Classified (errors.server_error e) code
      → Retryable e (into_api_error (status_list_error (or_contention code other)))
  unfolding into_api_error status_list_error
  retryable e none other fails c = inr (fails, c)
  retryable e (some code) other fails c = inl (refl, c)

  -- An error of the database in the insertion of a list is answered as a conflict that the list
  -- exists when a unique constraint was violated; otherwise as a contention when the server
  -- reported a lost race, and as an internal error when it did not.
  pub insert-Answers :
      (e : E)
      → ((errors.is_unique_violation e ≡ true)
          × (answer (map_insert_err errors) e
              ≡ in_conflict "status_list_already_exists" "Status list already exists"))
        ⊎ ((errors.is_unique_violation e ≡ false) × Retryable e (answer (map_insert_err errors) e))
  unfolding map_insert_err into_api_error status_list_error
  insert-Answers e = elim (Bool-cases (errors.is_unique_violation e)) [
    | inl taken ↦ inl (taken, rw taken refl)
    | inr free ↦ inr (
      free,
      rw free (
          retryable e (contention_code errors e) (insert_error (errors.show e)) refl
            (contention_code-Classified e)),
    )
  ]
