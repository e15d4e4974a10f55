-- ===== src/Domain/Service/History.antt =====
-- Interleavings: the store's primitives are single steps, so a run of concurrent requests is a
-- sequence of the steps below, in which a writer may commit a revision of a version that it read
-- long before.
use text.Mathlib.Text.{◌==◌ as str_eq}
use text.Mathlib.TextEquality.{eq_iff}
use mathlib.Core.Path.{subst}
use status_list_server.Base.{
  ℕ, ℤ, pos, negsuc, ◌+◌, ◌^◌, ◌<◌, String, Option, none, some, List, [], ◌∷◌, false, Bool-cases,
  Outcome, ok, err, panic, ◌≡◌, refl, ap, arith, inl, inr, ◌⊎◌, ◌<ℤ◌, is_negative, pos_part,
  neg_part, add_i64-pos,
}
use status_list_server.Domain.Model.{StatusListError, StatusListRecord}
use status_list_server.Domain.StatusList.{Codec}
use status_list_server.Domain.Service.{
  Service, next_updated_at, insert_published, finish_update, get_status_list,
}
use status_list_server.Domain.Service.Contract.{View, Keeps, Puts, Inserts, IsRepo, IsApart}
use status_list_server.Domain.Service.Effects.{
  insert_published-Inserts, Finishes, finish_update-Finishes,
}
use status_list_server.Domain.Service.Reads.{get_status_list-Keeps}

-- A Unix time that an `i64` can still count up from.
abbrev pub IsTime : ℤ → Type 0
IsTime t = (is_negative t ≡ false) × (pos_part t + 1 < 2 ^ 63)

-- For a previous time that an `i64` can count up from and is not negative, the next time is
-- later, whatever the clock says.
pub lt-next_updated_at :
    (previous now : ℤ) → IsTime previous → previous <ℤ next_updated_at previous now
unfolding next_updated_at
lt-next_updated_at (pos t) (pos now) h = ground (arith, add_i64-pos t 1)
lt-next_updated_at (pos t) (negsuc now) h = ground (arith, add_i64-pos t 1)
lt-next_updated_at (negsuc t) now h = cc

-- What may become of one identifier: a record is kept, or replaced by a later one.
abbrev pub Advances : Option StatusListRecord → Option StatusListRecord → Type 0
Advances none later = Unit {0}
Advances (some a) later =
    (later ≡ some a) ⊎ ((b : StatusListRecord) × (later ≡ some b) × (a.updated_at <ℤ b.updated_at))

Advances-refl : (a : Option StatusListRecord) → Advances a a
Advances-refl none = tt
Advances-refl (some a) = inl refl

Advances-later :
    (a x : StatusListRecord) (c : Option StatusListRecord)
    → a.updated_at <ℤ x.updated_at
    → Advances (some x) c
    → Advances (some a) c
Advances-later a x c l (inl e) = inr (x, e, l)
Advances-later a x c l (inr (y, e, m)) = inr (y, e, omega arith)

Advances-trans : (a b c : Option StatusListRecord) → Advances a b → Advances b c → Advances a c
Advances-trans none b c p q = tt
Advances-trans (some a) b c (inl e) q = rw e at q
Advances-trans (some a) b c (inr (x, e, l)) q = Advances-later a x c l (rw e at q)

-- A step of some request: the insertion of a published record, the commit of a revision, or a
-- read through the cache.
pub data Step : Type 0 where
  inserting : StatusListRecord → ℕ → String → Step
  committing : (read revised : StatusListRecord) → ℕ → String → Step
  reading : String → Step

-- A commit is of a revision as `revise` makes it, from any version that may have been read.
abbrev pub IsRevision : Step → Type 0
IsRevision (inserting r t uuid) = Unit {0}
IsRevision (committing read revised t uuid) =
    IsTime read.updated_at
    × ((now : ℤ) × (revised.updated_at ≡ next_updated_at read.updated_at now))
IsRevision (reading id) = Unit {0}

abbrev pub AllRevisions : List Step → Type 0
AllRevisions [] = Unit {0}
AllRevisions (step ∷ steps) = IsRevision step × AllRevisions steps

module _ {S : Type 0} (service : Service S) (codec : Codec) where
  unfoldable pub take_step : Step → S → S
  take_step (inserting r t uuid) s = (insert_published service codec r t uuid s).1
  take_step (committing read revised t uuid) s =
      (finish_update service codec revised read.updated_at t uuid s).1
  take_step (reading id) s = (get_status_list service codec id s).1

  unfoldable pub take_steps : List Step → S → S
  unfolding take_step
  take_steps [] s = s
  take_steps (step ∷ steps) s = take_steps steps (take_step step s)

module _ {S : Type 0} (view : View S) (service : Service S) (codec : Codec)
    (repo : IsRepo view service.status_list_repo)
    (cache : IsApart view service.status_list_cache) where
  Keeps-Advances : (s s' : S) (id : String) → Keeps view s s' → Advances (view s id) (view s' id)
  Keeps-Advances s s' id keeps = rw (keeps id) (Advances-refl (view s id))

  -- A write over `old`, or under a new identifier.
  Puts-Advances :
      (r : StatusListRecord) (s s' : S) (id : String)
      → Advances (view s r.list_id) (some r)
      → Puts view r s s'
      → Advances (view s id) (view s' id)
  Puts-Advances r s s' id later puts = elim (Bool-cases (str_eq r.list_id id)) [
    | inl here ↦
        rw (puts id, here)
          (subst (λ k. Advances (view s k) (some r)) ((eq_iff r.list_id id).0 here) later)
    | inr other ↦ rw (puts id, other) (Advances-refl (view s id))
  ]

  insert-Advances :
      (r : StatusListRecord) (s : S) (id : String) (x : Outcome StatusListError (Unit {0}) × S)
      → Inserts view r s x
      → Advances (view s id) (view x.1 id)
  insert-Advances r s id (ok done, s') (new, puts) = Puts-Advances r s s' id (rw new tt) puts
  insert-Advances r s id (err e, s') keeps = Keeps-Advances s s' id keeps
  insert-Advances r s id (panic, s') keeps = Keeps-Advances s s' id keeps

  finish-Advances :
      (read revised : StatusListRecord) (s : S) (id : String)
      (x : Outcome StatusListError StatusListRecord × S)
      → read.updated_at <ℤ revised.updated_at
      → Finishes view service codec repo cache revised read.updated_at s x
      → Advances (view s id) (view x.1 id)
  finish-Advances read revised s id (ok done, s') l (same, (current, stored, version), puts) =
      Puts-Advances revised s s' id (rw stored (inr (revised, refl, rw version l))) puts
  finish-Advances read revised s id (err e, s') l keeps = Keeps-Advances s s' id keeps
  finish-Advances read revised s id (panic, s') l (inl keeps) = Keeps-Advances s s' id keeps
  finish-Advances read revised s id (panic, s') l (inr (current, stored, version, puts)) =
      Puts-Advances revised s s' id (rw stored (inr (revised, refl, rw version l))) puts

  take_step-Advances :
      (step : Step) (s : S) (id : String)
      → IsRevision step
      → Advances (view s id) (view (take_step service codec step s) id)
  unfolding take_step
  take_step-Advances (inserting r t uuid) s id h =
      insert-Advances r s id (insert_published service codec r t uuid s)
        (insert_published-Inserts view service codec repo cache r t uuid s)
  take_step-Advances (committing read revised t uuid) s id (time, (now, later)) =
      finish-Advances read revised s id
        (finish_update service codec revised read.updated_at t uuid s)
        (rw later (lt-next_updated_at read.updated_at now time))
        (finish_update-Finishes view service codec repo cache revised read.updated_at t uuid s)
  take_step-Advances (reading key) s id h =
      Keeps-Advances s (get_status_list service codec key s).1 id
        (get_status_list-Keeps view service codec repo cache key s)

  -- Over a store and a cache that keep their contracts: along any interleaving of insertions,
  -- commits of revisions (at the next time of a version that was read, whose time is not negative
  -- and below 2^63 - 1) and cached reads, a record that is stored under an identifier is kept as
  -- it is or replaced by one with a later time; it is never lost and its time never goes back.
  pub take_steps-Advances :
      (steps : List Step) (s : S) (id : String)
      → AllRevisions steps
      → Advances (view s id) (view (take_steps service codec steps s) id)
  unfolding take_steps
  take_steps-Advances [] s id h = Advances-refl (view s id)
  take_steps-Advances (step ∷ steps) s id (h, hs) =
      Advances-trans (view s id) (view (take_step service codec step s) id) _
        (take_step-Advances step s id h)
        (take_steps-Advances steps (take_step service codec step s) id hs)

  same_version :
      (old current : StatusListRecord) (lists : Option StatusListRecord)
      → Advances (some old) lists
      → lists ≡ some current
      → current.updated_at ≡ old.updated_at
      → lists ≡ some old
  same_version old current lists (inl e) stored version = e
  same_version old current lists (inr (b, e, l)) stored version =
      let same : b ≡ current = cc in
      absurd (
        omega (
          arith,
          ap (λ (r : StatusListRecord). pos_part r.updated_at) same,
          ap (λ (r : StatusListRecord). neg_part r.updated_at) same,
          ap pos_part version,
          ap neg_part version,
        ))

  -- Over a store and a cache that keep their contracts: when a request read the version `old` of
  -- a list, other requests then took any steps, each commit among them of a revision (at the next
  -- time of a version that was read, whose time is not negative and below 2^63 - 1), and the
  -- request's own commit is answered with success, then the store still held `old` at the commit,
  -- and the commit replaced it by the revision and changed no other record.
  pub finish_update-no_lost_update :
      (old revised : StatusListRecord) (t : ℕ) (uuid : String) (steps : List Step) (s s' : S)
      (r : StatusListRecord)
      → AllRevisions steps
      → view s revised.list_id ≡ some old
      → finish_update service codec revised old.updated_at t uuid (take_steps service codec steps s)
        ≡ (ok r, s')
      → (view (take_steps service codec steps s) revised.list_id ≡ some old)
        × Puts view revised (take_steps service codec steps s) s'
  finish_update-no_lost_update old revised t uuid steps s s' r h stored done =
      let now = take_steps service codec steps s in
      let (same, (current, at, version), puts) =
        subst (Finishes view service codec repo cache revised old.updated_at now) done (
          finish_update-Finishes view service codec repo cache revised old.updated_at t uuid now) in
      (
        same_version old current (view now revised.list_id)
            (subst (λ o. Advances o (view now revised.list_id)) stored
              (take_steps-Advances steps s revised.list_id h))
            at version,
        puts,
      )
