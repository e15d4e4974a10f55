-- ===== src/Server/Health/Verdict.antt =====
-- The verdict on the checks does not depend on the order in which they end.
use mathlib.Core.List.{Perm, Permᴰ}
use mathlib.Core.Bool.{Bool-set}
use mathlib.Core.Logic.{∥∥₁_elim}
use status_list_server.Base.{
  ℕ, suc, ◌+◌, ◌-◌, ◌<◌, ◌≤◌, le→ltb, lt→ltb, ◌==◌, Bool, true, false, ◌&&◌, String, Option, none,
  some, List, [], ◌∷◌, length, Outcome, ok, err, ◌≡◌, refl, sym, ap, ◌∙◌, ◌⊎◌, inl, inr, arith,
}
use status_list_server.Server.Health.{
  Ending, finished, timed_out, ReadinessCheck, CheckResult, CachedReadinessReport, Readiness,
  readiness_cache_ttl, joined, all_passed, results_of, report_of, run_checks, run, ready,
}

-- Every check of the list ends with `Ok` in the state.
abbrev pub AllPass : {S : Type 0} → List (ReadinessCheck S) → S → Type 0
AllPass [] s = Unit {0}
AllPass (check ∷ checks) s = (check.check s ≡ finished (ok tt)) × AllPass checks s

-- `JoinSet`: each task ends once, in some order.
abbrev pub IsJoinOrder : (List CheckResult → List CheckResult) → Type 0
IsJoinOrder join_order = (results : List CheckResult) → Perm results (join_order results)

all_passed-Permᴰ : {xs ys : List CheckResult} → Permᴰ xs ys → all_passed xs ≡ all_passed ys
unfolding all_passed
all_passed-Permᴰ Permᴰ.nil = refl
all_passed-Permᴰ (Permᴰ.cons e d) = rw (e, all_passed-Permᴰ d) refl
all_passed-Permᴰ (Permᴰ.swap {a} {b} {a'} {b'} {l} e f) =
    rw (e, f) (swapped b'.passed a'.passed (all_passed l))
  where
    swapped : (x y z : Bool) → (x && (y && z)) ≡ (y && (x && z))
    swapped true y z = refl
    swapped false true z = refl
    swapped false false z = refl
all_passed-Permᴰ (Permᴰ.trans d e) = all_passed-Permᴰ d ∙ all_passed-Permᴰ e

length-Permᴰ : {xs ys : List CheckResult} → Permᴰ xs ys → length xs ≡ length ys
length-Permᴰ Permᴰ.nil = refl
length-Permᴰ (Permᴰ.cons e d) = ap suc (length-Permᴰ d)
length-Permᴰ (Permᴰ.swap e f) = refl
length-Permᴰ (Permᴰ.trans d e) = length-Permᴰ d ∙ length-Permᴰ e

length-results_of :
    {S : Type 0} (failure : String) (checks : List (ReadinessCheck S)) (s : S)
    → length (results_of failure checks s) ≡ length checks
length-results_of failure [] s = refl
length-results_of failure (check ∷ checks) s = ap suc (length-results_of failure checks s)

==_refl : (n : ℕ) → (n == n) ≡ true
==_refl n = ground arith

joined-cases :
    (failure name : String) (ending : Ending)
    → (((joined failure name ending).passed ≡ true) × (ending ≡ finished (ok tt)))
      ⊎ (((joined failure name ending).passed ≡ false) × ¬ (ending ≡ finished (ok tt)))
unfolding joined
joined-cases failure name (finished (ok u)) = inl (refl, refl)
joined-cases failure name (finished (err e)) = inr (refl, λ h. cc)
joined-cases failure name (finished Outcome.panic) = inr (refl, λ h. cc)
joined-cases failure name timed_out = inr (refl, λ h. cc)

all_passed-cases :
    {S : Type 0} (failure : String) (checks : List (ReadinessCheck S)) (s : S)
    → ((all_passed (results_of failure checks s) ≡ true) × AllPass checks s)
      ⊎ ((all_passed (results_of failure checks s) ≡ false) × ¬ (AllPass checks s))
unfolding all_passed
all_passed-cases failure [] s = inl (refl, tt)
all_passed-cases failure (check ∷ checks) s =
    elim (joined-cases failure check.name (check.check s)) [
      | inr (failed, broken) ↦ inr (rw failed refl, λ all. broken all.0)
      | inl (passed, sound) ↦ elim (all_passed-cases failure checks s) [
        | inl (rest, all) ↦ inl (rw (passed, rest) refl, (sound, all))
        | inr (rest, none_all) ↦ inr (rw (passed, rest) refl, λ all. none_all all.1)
      ]
    ]

-- The number of the results and their verdict, in whatever order they come.
report-ready :
    {S : Type 0} (failure : String) (order : List CheckResult → List CheckResult)
    (checks : List (ReadinessCheck S)) (s : S)
    → IsJoinOrder order
    → let results = results_of failure checks s in
      (report_of checks (order results)).ready ≡ all_passed results
report-ready failure order checks s joins =
    let results = results_of failure checks s in
    ∥∥₁_elim (joins results) (Bool-set _ _) (λ d.
      rw
        (
          sym (length-Permᴰ d),
          length-results_of failure checks s,
          ==_refl (length checks),
          sym (all_passed-Permᴰ d),
        )
        refl)

-- No report is kept, or the one that is was made a second ago or earlier.
abbrev pub IsStale : ℕ → Option CachedReadinessReport → Type 0
IsStale now none = Unit {0}
IsStale now (some cached) = cached.checked_at + readiness_cache_ttl ≤ now

run-IsStale :
    {S : Type 0} (failure : String) (order : List CheckResult → List CheckResult)
    (self : Readiness S) (s : S) (now ended : ℕ)
    → IsStale now self.cache
    → run failure order self s now ended ≡ run_checks failure order self s ended
unfolding run
run-IsStale failure order self s now ended stale = by_cache self.cache refl
  where
    by_cache :
        (cache : Option CachedReadinessReport)
        → self.cache ≡ cache
        → run failure order self s now ended ≡ run_checks failure order self s ended
    by_cache none e = rw e refl
    by_cache (some cached) e =
        let old = rw e at stale in
        rw (e, le→ltb (now - cached.checked_at) readiness_cache_ttl (omega (arith, old))) refl

-- `200 READY` where every check passes, `503 NOT_READY` where one does not.
abbrev pub Tells : {S : Type 0} → Readiness S → S → ℕ × String → Type 0
Tells self s answer =
    ((answer ≡ (200, "READY")) × AllPass self.checks s)
    ⊎ ((answer ≡ (503, "NOT_READY")) × ¬ (AllPass self.checks s))

-- Where no report younger than a second is kept, and the tasks of the checks end in whatever
-- order: readiness answers 200 when every check ends with `Ok`, and 503 when one fails, panics or
-- is timed out.
pub ready-Tells :
    {S : Type 0} (failure : String) (order : List CheckResult → List CheckResult)
    (self : Readiness S) (s : S) (now ended : ℕ)
    → IsJoinOrder order
    → IsStale now self.cache
    → Tells self s (ready failure order self s now ended).0
unfolding ready run_checks
ready-Tells failure order self s now ended joins stale =
    rw
      (
        run-IsStale failure order self s now ended stale,
        report-ready failure order self.checks s joins,
      )
      elim (all_passed-cases failure self.checks s) [
        | inl (passes, all) ↦ inl (rw passes refl, all)
        | inr (fails, some_fail) ↦ inr (rw fails refl, some_fail)
      ]

-- Within a second after a run of the checks, readiness answers as that run did and leaves the
-- cache as it is, whatever the dependencies do by then.
pub ready-Repeats :
    {S : Type 0} (failure : String) (order later_order : List CheckResult → List CheckResult)
    (self : Readiness S) (s later_s : S) (now ended later later_ended : ℕ)
    → IsStale now self.cache
    → later < ended + readiness_cache_ttl
    → ready failure later_order (ready failure order self s now ended).1 later_s later later_ended
      ≡ ready failure order self s now ended
unfolding ready run_checks run
ready-Repeats failure order later_order self s later_s now ended later later_ended stale soon =
    let first = run-IsStale failure order self s now ended stale in
    rw (first, lt→ltb (later - ended) readiness_cache_ttl (omega (arith, soon))) refl
