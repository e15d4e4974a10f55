-- ===== src/Server/Health.antt =====
-- Liveness and readiness, src/server/health.rs. Instants are nanoseconds of the monotonic clock; the
-- order in which tokio's `JoinSet` yields the tasks, and the text of a task's failure, are given.
pub mod Verdict
use Prim.Native.String as Str
use status_list_server.Base.{
  ℕ, ◌-◌, ltb, ◌==◌, Bool, true, false, not, ◌&&◌, String, Option, none, some, List, [], ◌∷◌, ◌++◌,
  map, length, if◌then◌else◌, Outcome, ok, err, map_err, ◌>>=◌, ◌>>◌,
}
use status_list_server.Base.Chars.{is_empty, trim}

-- How the future of a check ends within its five seconds.
pub data Ending : Type 0 where
  finished : Outcome String (Unit {0}) → Ending
  timed_out : Ending

-- A check, and how it ends in a state of the dependencies.
pub record ReadinessCheck (S : Type 0) : Type 0 where
  pub name : String
  pub check : S → Ending

pub record CheckResult : Type 0 where
  pub name : String
  pub passed : Bool
  pub reason : Option String

pub record ReadinessReport : Type 0 where
  pub ready : Bool
  pub checks : List CheckResult

pub record CachedReadinessReport : Type 0 where
  pub report : ReadinessReport
  pub checked_at : ℕ

pub record Readiness (S : Type 0) : Type 0 where
  pub checks : List (ReadinessCheck S)
  pub cache : Option CachedReadinessReport

abbrev pub readiness_cache_ttl : ℕ
readiness_cache_ttl = 1000000000

unfoldable pub new : {S : Type 0} → List (ReadinessCheck S) → Readiness S
new checks = record { checks = checks; cache = none }

unfoldable pub with_check : {S : Type 0} → Readiness S → ReadinessCheck S → Readiness S
with_check self check = record { checks = self.checks ++ (check ∷ []); cache = none }

-- The result of a task: that of its check, or a failure where the check panicked.
unfoldable pub joined : String → String → Ending → CheckResult
joined failure name (finished (ok u)) = record { name = name; passed = true; reason = none }
joined failure name (finished (err e)) = record { name = name; passed = false; reason = some e }
joined failure name (finished Outcome.panic) = record {
  name = "readiness_check_task";
  passed = false;
  reason = some (Str.◌++◌ "readiness check task failed: " failure);
}
joined failure name timed_out = record {
  name = name;
  passed = false;
  reason = some "readiness check timed out";
}

unfoldable pub all_passed : List CheckResult → Bool
all_passed [] = true
all_passed (c ∷ checks) = c.passed && all_passed checks

-- `checked_at.elapsed() < READINESS_CACHE_TTL`.
abbrev pub is_recent : ℕ → CachedReadinessReport → Bool
is_recent now cached = ltb (now - cached.checked_at) readiness_cache_ttl

abbrev pub results_of : {S : Type 0} → String → List (ReadinessCheck S) → S → List CheckResult
results_of failure checks s = map (λ check. joined failure check.name (check.check s)) checks

abbrev pub report_of : {S : Type 0} → List (ReadinessCheck S) → List CheckResult → ReadinessReport
report_of checks results = record {
  ready = (length results == length checks) && all_passed results;
  checks = results;
}

abbrev pub respond : ReadinessReport → ℕ × String
respond report = if report.ready then (200, "READY") else (503, "NOT_READY")

module _ {S : Type 0} (failure : String) (join_order : List CheckResult → List CheckResult) where
  -- The run of all checks, which ends at `ended`.
  unfoldable pub run_checks : Readiness S → S → ℕ → ReadinessReport × Readiness S
  unfolding joined all_passed
  run_checks self s ended =
      let report = report_of self.checks (join_order (results_of failure self.checks s)) in
      (report, record self { cache = some (record { report = report; checked_at = ended }) })

  unfoldable pub run : Readiness S → S → ℕ → ℕ → ReadinessReport × Readiness S
  unfolding run_checks
  run self s now ended = from_cache self.cache
    where
      from_cache : Option CachedReadinessReport → ReadinessReport × Readiness S
      from_cache none = run_checks self s ended
      from_cache (some cached) =
          if is_recent now cached then (cached.report, self) else run_checks self s ended

  unfoldable pub ready : Readiness S → S → ℕ → ℕ → (ℕ × String) × Readiness S
  unfolding run
  ready self s now ended = let ran = run self s now ended in (respond ran.0, ran.1)

abbrev pub live : ℕ × String
live = (200, "OK")

unfoldable pub always_ready : {S : Type 0} → String → ReadinessCheck S
always_ready name = record { name = name; check = λ s. finished (ok tt) }

-- A connection that can be pinged.
unfoldable pub db_check : {S : Type 0} → (S → Outcome String (Unit {0})) → ReadinessCheck S
db_check ping = record {
  name = "database";
  check = λ s. finished (map_err (λ e. Str.◌++◌ "database unreachable: " e) (ping s));
}

-- The storage, or the error of a manager without one, and its test of reachability.
unfoldable pub cert_store_check :
    {S C : Type 0} → Outcome String C → (C → S → Outcome String (Unit {0})) → ReadinessCheck S
cert_store_check crypto_storage reachable = record {
  name = "cert_store";
  check = λ s. finished (
      map_err (λ e. Str.◌++◌ "cryptographic-material backend not configured: " e) crypto_storage
      >>= λ storage.
          map_err (λ e. Str.◌++◌ "cryptographic-material backend unreachable: " e)
            (reachable storage s));
}

abbrev pub some_path : Option String → List String
some_path none = []
some_path (some path) = if is_empty (trim path) then [] else path ∷ []

abbrev with_path : String → String → String → String
with_path path what e = Str.◌++◌ "cert store file '" (Str.◌++◌ path (Str.◌++◌ what e))

unfoldable pub check_files :
    (String → Outcome String (Unit {0}))
    → (String → Outcome String (Unit {0}))
    → List String
    → Outcome String (Unit {0})
check_files metadata opened [] = ok tt
check_files metadata opened (path ∷ paths) =
    map_err (with_path path "' unavailable: ") (metadata path)
    >> map_err (with_path path "' not readable: ") (opened path)
    >> check_files metadata opened paths

unfoldable pub filesystem_cert_check :
    {S : Type 0}
    → (S → String → Outcome String (Unit {0}))
    → (S → String → Outcome String (Unit {0}))
    → Option String
    → Option String
    → ReadinessCheck S
unfolding check_files
filesystem_cert_check metadata opened cert_path key_path = record {
  name = "cert_store";
  check = λ s.
      finished (check_files (metadata s) (opened s) (some_path cert_path ++ some_path key_path));
}
