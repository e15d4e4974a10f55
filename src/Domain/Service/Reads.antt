-- ===== src/Domain/Service/Reads.antt =====
-- The reading operations of src/domain/service.rs.
use mathlib.Core.Path.{subst}
use status_list_server.Base.{String, Option, none, some, Outcome, ok, err, panic, ok_or, ◌∙◌}
use status_list_server.Base.Action.{bind_rule, lift_rule, attempt_rule, pure}
use status_list_server.Domain.Model.{StatusListError, StatusListRecord, not_found}
use status_list_server.Domain.StatusList.{Codec}
use status_list_server.Domain.Service.{Service, get_status_list, fetch_and_cache, cache_answer}
use status_list_server.Domain.Service.Contract.{View, Keeps, Finds, Ignores, IsRepo, IsApart}

module _ {S : Type 0} (view : View S) (service : Service S) (codec : Codec)
    (repo : IsRepo view service.status_list_repo)
    (cache : IsApart view service.status_list_cache) where
  Keeps-trans : (s t u : S) → Keeps view s t → Keeps view t u → Keeps view s u
  Keeps-trans s t u p q id = q id ∙ p id

  fetch_and_cache-Keeps :
      (id : String) (s : S) → Keeps view s (fetch_and_cache service codec id s).1
  unfolding fetch_and_cache
  fetch_and_cache-Keeps id s =
      let Q : Outcome StatusListError StatusListRecord × S → Type 0 = λ x. Keeps view s x.1 in
      let finds = repo.finds id s in
      bind_rule Q (service.status_list_repo.find id) _ s
        (λ found t e.
          lift_rule Q (ok_or found not_found) _ t
            (λ r same.
              attempt_rule Q (service.status_list_cache.put r) (λ _. pure r) t
                (λ answer u h.
                  Keeps-trans s t u (subst (Finds view id s) e finds).1
                    (subst (Ignores view t) h (cache.put_apart r t)))
                (λ u h.
                  Keeps-trans s t u (subst (Finds view id s) e finds).1
                    (subst (Ignores view t) h (cache.put_apart r t))))
            (λ e'. (subst (Finds view id s) e finds).1) (subst (Finds view id s) e finds).1)
        (λ e t h. subst (Finds view id s) h finds) (λ t h. subst (Finds view id s) h finds)

  answered :
      (id : String) (s t : S) (answer : Outcome StatusListError (Option StatusListRecord))
      → Keeps view s t
      → Keeps view s (cache_answer service codec answer (fetch_and_cache service codec id) t).1
  answered id s t (ok none) keeps = Keeps-trans s t _ keeps (fetch_and_cache-Keeps id t)
  answered id s t (ok (some r)) keeps = keeps
  answered id s t (err e) keeps = Keeps-trans s t _ keeps (fetch_and_cache-Keeps id t)
  answered id s t panic keeps = keeps

  -- Over a store and a cache that keep their contracts, a read through the cache changes no
  -- record, whether the cache answers, misses or fails.
  pub get_status_list-Keeps :
      (id : String) (s : S) → Keeps view s (get_status_list service codec id s).1
  unfolding get_status_list
  get_status_list-Keeps id s =
      let Q : Outcome StatusListError StatusListRecord × S → Type 0 = λ x. Keeps view s x.1 in
      let apart = cache.get_apart id s in
      attempt_rule Q (service.status_list_cache.get id)
        (λ answer. cache_answer service codec answer (fetch_and_cache service codec id)) s
        (λ answer t h. answered id s t answer (subst (Ignores view s) h apart))
        (λ t h. subst (Ignores view s) h apart)
