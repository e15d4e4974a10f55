-- ===== src/Domain/Service/Contract.antt =====
-- What the service relies on of the store behind `StatusListRepo` (src/domain/ports.rs): its
-- writes are guarded, each in one step, and what fails changes nothing.
use text.Mathlib.Text.{◌==◌ as str_eq}
use status_list_server.Base.{
  ℤ, String, Bool, true, false, Option, none, some, if◌then◌else◌, Outcome, ok, err, panic, ◌≡◌,
}
use status_list_server.Domain.Model.{StatusListError, StatusListRecord, StatusListSnapshot}
use status_list_server.Domain.Ports.{StatusListRepo, StatusListCache}

-- The records of a state, by list identifier.
abbrev pub View : Type 0 → Type 0
View S = S → String → Option StatusListRecord

abbrev pub put_record :
    StatusListRecord → (String → Option StatusListRecord) → String → Option StatusListRecord
put_record r lists id = if str_eq r.list_id id then some r else lists id

module _ {S : Type 0} (view : View S) where
  abbrev pub Keeps : S → S → Type 0
  Keeps s s' = (id : String) → view s' id ≡ view s id

  abbrev pub Puts : StatusListRecord → S → S → Type 0
  Puts r s s' = (id : String) → view s' id ≡ put_record r (view s) id

  -- `Ok(true)` is a write over the version that was expected; all else writes nothing.
  abbrev pub Swaps : StatusListRecord → ℤ → S → Outcome StatusListError Bool × S → Type 0
  Swaps r expected s (ok true, s') =
      ((current : StatusListRecord) × (view s r.list_id ≡ some current)
        × (current.updated_at ≡ expected))
      × Puts r s s'
  Swaps r expected s (ok false, s') = Keeps s s'
  Swaps r expected s (err e, s') = Keeps s s'
  Swaps r expected s (panic, s') = Keeps s s'

  -- `Ok(())` is a write under a new identifier; all else writes nothing.
  abbrev pub Inserts : StatusListRecord → S → Outcome StatusListError (Unit {0}) × S → Type 0
  Inserts r s (ok done, s') = (view s r.list_id ≡ none) × Puts r s s'
  Inserts r s (err e, s') = Keeps s s'
  Inserts r s (panic, s') = Keeps s s'

  abbrev pub Finds : String → S → Outcome StatusListError (Option StatusListRecord) × S → Type 0
  Finds id s (ok found, s') = (found ≡ view s id) × Keeps s s'
  Finds id s (err e, s') = Keeps s s'
  Finds id s (panic, s') = Keeps s s'

  pub record IsRepo (repo : StatusListRepo S) : Type 0 where
    pub finds : (id : String) (s : S) → Finds id s (repo.find id s)
    pub inserts : (r : StatusListRecord) (s : S) → Inserts r s (repo.insert r s)
    pub inserts_with_snapshot :
        (r : StatusListRecord) (x : StatusListSnapshot) (s : S)
        → Inserts r s (repo.insert_with_snapshot r x s)
    pub swaps : (r : StatusListRecord) (t : ℤ) (s : S) → Swaps r t s (repo.update r t s)
    pub swaps_with_snapshot :
        (r : StatusListRecord) (t : ℤ) (x : StatusListSnapshot) (s : S)
        → Swaps r t s (repo.update_with_snapshot r t x s)

  abbrev pub Ignores : {A : Type 0} → S → Outcome StatusListError A × S → Type 0
  Ignores s (r, s') = Keeps s s'

  -- The cache is another store: it leaves the records alone.
  pub record IsApart (cache : StatusListCache S) : Type 0 where
    pub get_apart : (id : String) (s : S) → Ignores s (cache.get id s)
    pub put_apart : (r : StatusListRecord) (s : S) → Ignores s (cache.put r s)
    pub invalidate_apart : (id : String) (s : S) → Ignores s (cache.invalidate id s)
