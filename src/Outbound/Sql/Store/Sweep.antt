-- ===== src/Outbound/Sql/Store/Sweep.antt =====
-- The loop of `delete_older_than` of src/outbound/sql/store.rs ends, and has deleted all that it was
-- to delete.
use status_list_server.Base.{
  ℕ, zero, suc, ◌+◌, ◌*◌, ◌%◌, ◌^◌, ◌<◌, min, ltb, ltb→lt, ltb→le, ℤ, Bool-cases, Option, none,
  some, if◌then◌else◌, Outcome, ok, err, panic, ◌≡◌, ◌∙◌, arith, inl, inr,
}
use status_list_server.Base.Action.{pure, after, reword}
use status_list_server.Outbound.Sql.Errors.{RepositoryError, DatabaseErrors, map_delete_err}
use status_list_server.Outbound.Sql.Database.{Database}
use status_list_server.Outbound.Sql.Store.{sweep, batch_size}

module _ {S E Jwk : Type 0} (expired : ℤ → S → ℕ) (errors : DatabaseErrors E)
    (db : Database S E Jwk) where
  -- A batch deletes what there is, up to its size, and counts it.
  abbrev Deletes : ℤ → ℕ → S → Outcome E ℕ × S → Type 0
  Deletes cutoff batch s (ok n, s') =
      (n ≡ min batch (expired cutoff s)) × (expired cutoff s' + n ≡ expired cutoff s)
  Deletes cutoff batch s (err e, s') = Unit {0}
  Deletes cutoff batch s (panic, s') = Unit {0}

  abbrev pub IsSweepable : Type 0
  IsSweepable =
      (cutoff : ℤ) (batch : ℕ) (s : S) → Deletes cutoff batch s (db.delete_history cutoff batch s)

  -- The rounds were enough; nothing expired is left; and the answer counts what was deleted.
  abbrev pub Sweeps : ℤ → ℕ → S → Outcome RepositoryError (Option ℕ) × S → Type 0
  Sweeps cutoff total s (ok none, s') = ⊥
  Sweeps cutoff total s (ok (some n), s') =
      (n ≡ (total + expired cutoff s) % 2 ^ 64) × (expired cutoff s' ≡ 0)
  Sweeps cutoff total s (err e, s') = Unit {0}
  Sweeps cutoff total s (panic, s') = Unit {0}

  swept_total :
      (total n m e : ℕ) → m + n ≡ e → ((total + n) % 2 ^ 64 + m) % 2 ^ 64 ≡ (total + e) % 2 ^ 64
  swept_total total n m e h = omega arith

  Sweeps-later :
      (cutoff : ℤ) (total n : ℕ) (s t : S) (x : Outcome RepositoryError (Option ℕ) × S)
      → expired cutoff t + n ≡ expired cutoff s
      → Sweeps cutoff ((total + n) % 2 ^ 64) t x
      → Sweeps cutoff total s x
  Sweeps-later cutoff total n s t (ok none, s') e h = h
  Sweeps-later cutoff total n s t (ok (some m), s') e h =
      (h.0 ∙ swept_total total n (expired cutoff t) (expired cutoff s) e, h.1)
  Sweeps-later cutoff total n s t (err f, s') e h = h
  Sweeps-later cutoff total n s t (panic, s') e h = h

  -- Over a database that deletes of the expired rows as many as there are, up to the batch, and
  -- counts them: with one round more than there are full batches of expired rows the loop comes
  -- to its end, where no statement fails; then no expired row is left, and the answer is the
  -- number of the deleted rows modulo 2^64.
  pub sweep-Sweeps :
      IsSweepable
      → (fuel : ℕ) (cutoff : ℤ) (total : ℕ) (s : S) → expired cutoff s < batch_size * fuel
      → Sweeps cutoff total s (sweep errors db fuel cutoff total s)
  unfolding sweep
  sweep-Sweeps laws zero cutoff total s h = absurd (omega arith)
  sweep-Sweeps laws (suc fuel) cutoff total s h =
      go (db.delete_history cutoff batch_size s) (laws cutoff batch_size s)
        (λ t n k. sweep-Sweeps laws fuel cutoff ((total + n) % 2 ^ 64) t k)
    where
      go :
          (x : Outcome E ℕ × S)
          → Deletes cutoff batch_size s x
          → ((t : S) (n : ℕ)
              → expired cutoff t < batch_size * fuel
              → Sweeps cutoff
                  ((total + n) % 2 ^ 64)
                  t
                  (sweep errors db fuel cutoff ((total + n) % 2 ^ 64) t))
          → Sweeps cutoff total s (
              after
                (λ count.
                  let rest = sweep errors db fuel cutoff ((total + count) % 2 ^ 64) in
                  if ltb count batch_size then pure (some ((total + count) % 2 ^ 64)) else rest)
                (reword (map_delete_err errors) x))
      go (ok n, t) (counted, left) next = elim (Bool-cases (ltb n batch_size)) [
        | inl short ↦
            rw short
              (omega (arith, ltb→lt n batch_size short), omega (arith, ltb→lt n batch_size short))
        | inr full ↦ rw full (
            Sweeps-later cutoff total n s t (sweep errors db fuel cutoff ((total + n) % 2 ^ 64) t)
              left (next t n (omega (arith, ltb→le n batch_size full))))
      ]
      go (err e, t) d next = tt
      go (panic, t) d next = tt
