-- ===== src/Domain/Service/Effects.antt =====
-- What the writing operations of src/domain/service.rs do to the records, over any store that
-- keeps its contract.
use Prim.Native.String.{len}
use mathlib.Core.Path.{subst}
use status_list_server.Base.{
  ℕ, ℤ, String, Bool, true, false, none, some, List, if◌then◌else◌, Bool-cases, Outcome, ok, err,
  panic, ltb, ◌≡◌, refl, ◌∙◌, ◌⊎◌, inl, inr,
}
use status_list_server.Base.Action.{bind_rule, lift_rule, ◌>>◌, pure, throw, after, resume}
use status_list_server.Domain.Model.{
  StatusListError, StatusEntry, StatusListRecord, Issuer, conflict,
}
use status_list_server.Domain.StatusList.{Codec, create}
use status_list_server.Domain.Service.{
  Service, Limits, snapshots_enabled, check_statuses, build_snapshot, insert_published,
  publish_status_list, commit_update, finish_update, invalidate_after_commit,
}
use status_list_server.Domain.Service.Contract.{
  View, Keeps, Puts, Swaps, Inserts, Ignores, IsRepo, IsApart,
}

module _ {S : Type 0} (view : View S) (service : Service S) (codec : Codec)
    (repo : IsRepo view service.status_list_repo)
    (cache : IsApart view service.status_list_cache) where
  pub insert_published-Inserts :
      (r : StatusListRecord) (t : ℕ) (uuid : String) (s : S)
      → Inserts view r s (insert_published service codec r t uuid s)
  unfolding insert_published
  insert_published-Inserts r t uuid s = elim (Bool-cases (snapshots_enabled service)) [
    | inl on ↦ rw on (repo.inserts_with_snapshot r (build_snapshot r t uuid) s)
    | inr off ↦ rw off (repo.inserts r s)
  ]

  commit_update-Swaps :
      (r : StatusListRecord) (expected : ℤ) (t : ℕ) (uuid : String) (s : S)
      → Swaps view r expected s (commit_update service codec r expected t uuid s)
  unfolding commit_update
  commit_update-Swaps r expected t uuid s = elim (Bool-cases (snapshots_enabled service)) [
    | inl on ↦ rw on (repo.swaps_with_snapshot r expected (build_snapshot r t uuid) s)
    | inr off ↦ rw off (repo.swaps r expected s)
  ]

  -- A write that is answered with success landed on the version that was expected; any other
  -- answer leaves the records as they were.
  abbrev pub Finishes :
      StatusListRecord → ℤ → S → Outcome StatusListError StatusListRecord × S → Type 0
  Finishes r expected s (ok done, s') =
      (done ≡ r)
      × ((current : StatusListRecord) × (view s r.list_id ≡ some current)
          × (current.updated_at ≡ expected))
      × Puts view r s s'
  Finishes r expected s (err e, s') = Keeps view s s'
  Finishes r expected s (panic, s') =
      Keeps view s s'
      ⊎ ((current : StatusListRecord) × (view s r.list_id ≡ some current)
          × (current.updated_at ≡ expected)
          × Puts view r s s')

  after_landing :
      (r : StatusListRecord) (expected : ℤ) (s s' : S) (x : Outcome StatusListError (Unit {0}) × S)
      → Swaps view r expected s (ok true, s')
      → Ignores view s' x
      → Finishes r expected s (after (λ _. pure r) (resume (λ _. pure tt) x))
  after_landing r expected s s' (ok done, s'') (current, puts) keeps =
      (refl, current, λ id. keeps id ∙ puts id)
  after_landing r expected s s' (err e, s'') (current, puts) keeps =
      (refl, current, λ id. keeps id ∙ puts id)
  after_landing r expected s s' (panic, s'') ((current, stored, version), puts) keeps =
      inr (current, stored, version, λ id. keeps id ∙ puts id)

  after_commit :
      (r : StatusListRecord) (expected : ℤ) (s s' : S) (landed : Bool)
      → Swaps view r expected s (ok landed, s')
      → Finishes r expected s (
          (if landed
              then (invalidate_after_commit service.status_list_cache r.list_id >> pure r)
              else throw conflict)
            s')
  unfolding invalidate_after_commit
  after_commit r expected s s' true swapped =
      after_landing r expected s s' (service.status_list_cache.invalidate r.list_id s') swapped
        (cache.invalidate_apart r.list_id s')
  after_commit r expected s s' false keeps = keeps

  -- Over a store and a cache that keep their contracts: a commit that is answered with success
  -- found the expected version in the store and wrote the revision over it and nothing else; one
  -- that is answered with an error changed no record, whatever the cache answers; one that panics
  -- changed none, or landed on the expected version.
  pub finish_update-Finishes :
      (r : StatusListRecord) (expected : ℤ) (t : ℕ) (uuid : String) (s : S)
      → Finishes r expected s (finish_update service codec r expected t uuid s)
  unfolding finish_update
  finish_update-Finishes r expected t uuid s =
      let swaps = commit_update-Swaps r expected t uuid s in
      bind_rule (Finishes r expected s) (commit_update service codec r expected t uuid) _ s
        (λ landed s' e.
          after_commit r expected s s' landed (subst (Swaps view r expected s) e swaps))
        (λ e s' h. subst (Swaps view r expected s) h swaps)
        (λ s' h. inl (subst (Swaps view r expected s) h swaps))

  -- The record that `publish_status_list` writes.
  abbrev pub IsPublished :
      String → Issuer → String → List StatusEntry → Limits → ℤ → StatusListRecord → Type 0
  IsPublished list_id issuer sub statuses limits now r =
      (r.list_id ≡ list_id)
      × (r.issuer ≡ issuer)
      × (r.sub ≡ sub)
      × (r.updated_at ≡ now)
      × (create codec statuses ≡ ok r.status_list)
      × (check_statuses limits statuses ≡ ok tt)
      × (ltb limits.max_serialized_list_size (len r.status_list.lst) ≡ false)

  -- A publication that is answered with success has written a new record, and one that is refused
  -- has changed no record.
  abbrev pub Publishes :
      String
      → Issuer
      → String
      → List StatusEntry
      → Limits
      → ℤ
      → S
      → Outcome StatusListError StatusListRecord × S
      → Type 0
  Publishes list_id issuer sub statuses limits now s (ok r, s') =
      IsPublished list_id issuer sub statuses limits now r
      × (view s list_id ≡ none)
      × Puts view r s s'
  Publishes list_id issuer sub statuses limits now s (err e, s') = Keeps view s s'
  Publishes list_id issuer sub statuses limits now s (panic, s') = Keeps view s s'

  after_insert :
      (list_id : String) (issuer : Issuer) (sub : String) (statuses : List StatusEntry)
      (limits : Limits) (now : ℤ) (r : StatusListRecord) (s : S)
      (x : Outcome StatusListError (Unit {0}) × S)
      → IsPublished list_id issuer sub statuses limits now r
      → Inserts view r s x
      → Publishes list_id issuer sub statuses limits now s (after (λ _. pure r) x)
  after_insert list_id issuer sub statuses limits now r s (ok done, s') p (new, puts) =
      (p, (rw (p.0) at new), puts)
  after_insert list_id issuer sub statuses limits now r s (err e, s') p keeps = keeps
  after_insert list_id issuer sub statuses limits now r s (panic, s') p keeps = keeps

  -- Over a store and a cache that keep their contracts: a publication that is answered with
  -- success had an identifier without a record, a batch within the limits and a list within the
  -- size limit, and has written the record of the created list at the given time and changed no
  -- other; one that is answered with an error, or panics, has changed no record.
  pub publish_status_list-Publishes :
      (list_id : String) (issuer : Issuer) (sub : String) (statuses : List StatusEntry)
      (limits : Limits) (now : ℤ) (uuid : String) (s : S)
      → Publishes list_id issuer sub statuses limits now s
          (publish_status_list service codec list_id issuer sub statuses limits now uuid s)
  unfolding publish_status_list
  publish_status_list-Publishes list_id issuer sub statuses limits now uuid s =
      let Q = Publishes list_id issuer sub statuses limits now s in
      lift_rule Q (check_statuses limits statuses) _ s
        (λ done checked.
          lift_rule Q (create codec statuses) _ s
            (λ list created.
              let r : StatusListRecord = record {
                list_id = list_id;
                issuer = issuer;
                status_list = list;
                sub = sub;
                updated_at = now;
              } in
              elim (Bool-cases (ltb limits.max_serialized_list_size (len list.lst))) [
                | inl large ↦ rw large (λ id. refl)
                | inr small ↦ rw small (
                    after_insert list_id issuer sub statuses limits now r s _
                      (refl, refl, refl, refl, created, checked, small)
                      (insert_published-Inserts r limits.token_exp_secs uuid s))
              ])
            (λ e id. refl) (λ id. refl))
        (λ e id. refl) (λ id. refl)
