-- ===== src/Domain/Service/Updates.antt =====
-- What `update_statuses` of src/domain/service.rs does to the records.
use Prim.Native.String.{len}
use text.Mathlib.Text.{◌==◌ as str_eq}
use mathlib.Core.Path.{subst}
use status_list_server.Base.{
  ℤ, String, true, false, Option, none, some, List, if◌then◌else◌, Bool-cases, Outcome, ok, err,
  panic, ok_or, ltb, ◌≡◌, refl, sym, ap, ◌∙◌, inl, inr, ◌⊎◌, >>=-eq-ok, err-ne-ok, ok-injective,
}
use status_list_server.Base.Action.{bind_rule, lift_rule, lift, ◌>>=◌}
use status_list_server.Domain.Model.{
  StatusListError, StatusEntry, StatusListRecord, Issuer, not_found,
}
use status_list_server.Domain.StatusList.{Codec, update}
use status_list_server.Domain.Service.{
  Service, Limits, check_statuses, revise, finish_update, update_statuses, next_updated_at,
}
use status_list_server.Domain.Service.Contract.{View, Keeps, Puts, Finds, IsRepo, IsApart}
use status_list_server.Domain.Service.Effects.{Finishes, finish_update-Finishes}

module _ (codec : Codec) where
  -- The record that an update writes over the one that it read.
  abbrev pub IsRevised :
      StatusListRecord → Issuer → List StatusEntry → Limits → ℤ → StatusListRecord → Type 0
  IsRevised old issuer statuses limits now r =
      (r.list_id ≡ old.list_id)
      × (r.issuer ≡ old.issuer)
      × (r.sub ≡ old.sub)
      × (r.updated_at ≡ next_updated_at old.updated_at now)
      × (str_eq old.issuer.name issuer.name ≡ true)
      × (update codec old.status_list statuses ≡ ok r.status_list)
      × (ltb limits.max_serialized_list_size (len r.status_list.lst) ≡ false)

module _ {S : Type 0} (view : View S) (service : Service S) (codec : Codec)
    (repo : IsRepo view service.status_list_repo)
    (cache : IsApart view service.status_list_cache) where
  revise_owned-IsRevised :
      (old : StatusListRecord) (issuer : Issuer) (statuses : List StatusEntry) (limits : Limits)
      (now : ℤ) (r : StatusListRecord)
      → str_eq old.issuer.name issuer.name ≡ true
      → revise service codec old issuer statuses limits now ≡ ok r
      → IsRevised codec old issuer statuses limits now r
  unfolding revise
  revise_owned-IsRevised old issuer statuses limits now r owner h =
      let (list, updated, rest) =
        >>=-eq-ok (update codec old.status_list statuses) _ (rw owner at h) in
      elim (Bool-cases (ltb limits.max_serialized_list_size (len list.lst))) [
        | inl large ↦ absurd (err-ne-ok (rw large at rest))
        | inr small ↦
            let same : ◌≡◌ {A = StatusListRecord}
                (record old { status_list = list; updated_at = next_updated_at old.updated_at now })
                r =
              ok-injective (rw small at rest) in
            subst (IsRevised codec old issuer statuses limits now) same
              (refl, refl, refl, refl, owner, updated, small)
      ]

  pub revise-IsRevised :
      (old : StatusListRecord) (issuer : Issuer) (statuses : List StatusEntry) (limits : Limits)
      (now : ℤ) (r : StatusListRecord)
      → revise service codec old issuer statuses limits now ≡ ok r
      → IsRevised codec old issuer statuses limits now r
  unfolding revise
  revise-IsRevised old issuer statuses limits now r h =
      elim (Bool-cases (str_eq old.issuer.name issuer.name)) [
        | inl owner ↦ revise_owned-IsRevised old issuer statuses limits now r owner h
        | inr other ↦ absurd (err-ne-ok (rw other at h))
      ]

  -- An update that is answered with success was asked by the owner of the stored record, and has
  -- written its revision; one that is refused has changed no record.
  abbrev pub Updates :
      Issuer
      → String
      → List StatusEntry
      → Limits
      → ℤ
      → S
      → Outcome StatusListError StatusListRecord × S
      → Type 0
  Updates issuer list_id statuses limits now s (ok r, s') =
      ((old : StatusListRecord) × (view s list_id ≡ some old)
        × IsRevised codec old issuer statuses limits now r)
      × Puts view r s s'
  Updates issuer list_id statuses limits now s (err e, s') = Keeps view s s'
  Updates issuer list_id statuses limits now s (panic, s') =
      Keeps view s s' ⊎ ((r : StatusListRecord) × Puts view r s s')

  Puts-after-Keeps :
      (r : StatusListRecord) (s t s' : S) → Keeps view s t → Puts view r t s' → Puts view r s s'
  Puts-after-Keeps r s t s' keeps puts id =
      puts id ∙ ap (λ o. if str_eq r.list_id id then some r else o) (keeps id)

  after_finish :
      (issuer : Issuer) (list_id : String) (statuses : List StatusEntry) (limits : Limits) (now : ℤ)
      (s t : S) (old r : StatusListRecord) (x : Outcome StatusListError StatusListRecord × S)
      → Keeps view s t
      → view s list_id ≡ some old
      → IsRevised codec old issuer statuses limits now r
      → Finishes view service codec repo cache r old.updated_at t x
      → Updates issuer list_id statuses limits now s x
  after_finish issuer list_id statuses limits now s t old r (ok done, s') keeps stored revised
        (same, current, puts) =
      subst (λ x. Updates issuer list_id statuses limits now s (ok x, s')) (sym same)
        ((old, stored, revised), Puts-after-Keeps r s t s' keeps puts)
  after_finish issuer list_id statuses limits now s t old r (err e, s') keeps stored revised f =
      λ id. f id ∙ keeps id
  after_finish issuer list_id statuses limits now s t old r (panic, s') keeps stored revised
        (inl f) =
      inl (λ id. f id ∙ keeps id)
  after_finish issuer list_id statuses limits now s t old r (panic, s') keeps stored revised
        (inr (current, at, version, f)) =
      inr (r, Puts-after-Keeps r s t s' keeps f)

  after_find :
      (issuer : Issuer) (list_id : String) (statuses : List StatusEntry) (limits : Limits) (now : ℤ)
      (uuid : String) (s t : S) (found : Option StatusListRecord)
      → Keeps view s t
      → found ≡ view s list_id
      → Updates issuer list_id statuses limits now s (
          (lift (ok_or found not_found) >>= λ existing.
          lift (revise service codec existing issuer statuses limits now) >>= λ revised.
          finish_update service codec revised existing.updated_at limits.token_exp_secs uuid)
            t)
  after_find issuer list_id statuses limits now uuid s t none keeps same = keeps
  after_find issuer list_id statuses limits now uuid s t (some old) keeps same =
      lift_rule (Updates issuer list_id statuses limits now s)
        (revise service codec old issuer statuses limits now) _ t
        (λ r revised.
          after_finish issuer list_id statuses limits now s t old r _ keeps (sym same)
            (revise-IsRevised old issuer statuses limits now r revised)
            (finish_update-Finishes view service codec repo cache r old.updated_at
              limits.token_exp_secs uuid t))
        (λ e. keeps) (inl keeps)

  -- Over a store and a cache that keep their contracts: an update that is answered with success
  -- was asked by the owner of the stored record, and has replaced that record by its revision
  -- (the updated list, within the size limit, at the next time) and no other; one that is
  -- answered with an error has changed no record; one that panics has changed none or has written
  -- one record.
  pub update_statuses-Updates :
      (issuer : Issuer) (list_id : String) (statuses : List StatusEntry) (limits : Limits) (now : ℤ)
      (uuid : String) (s : S)
      → Updates issuer list_id statuses limits now s
          (update_statuses service codec issuer list_id statuses limits now uuid s)
  unfolding update_statuses
  update_statuses-Updates issuer list_id statuses limits now uuid s =
      let Q = Updates issuer list_id statuses limits now s in
      let finds = repo.finds list_id s in
      lift_rule Q (check_statuses limits statuses) _ s
        (λ done checked.
          bind_rule Q (service.status_list_repo.find list_id) _ s
            (λ found s' e.
              let (same, keeps) = subst (Finds view list_id s) e finds in
              after_find issuer list_id statuses limits now uuid s s' found keeps same)
            (λ e s' h. subst (Finds view list_id s) h finds)
            (λ s' h. inl (subst (Finds view list_id s) h finds)))
        (λ e id. refl) (inl (λ id. refl))
