-- ===== src/Outbound/Vault/Auth/Cooldown.antt =====
-- After a failed login, Vault is left alone for a while.
use mathlib.Core.Path.{subst}
use status_list_server.Base.{
  ℕ, ◌+◌, ◌-◌, ◌<◌, ◌≤◌, lt→ltb, ◌==◌, true, false, Bool-cases, if_either, String, Option, none,
  some, is_some, Outcome, ok, err, ◌≡◌, refl, ◌⊎◌, inl, inr, arith,
}
use status_list_server.Base.Chars.{is_empty, trim}
use status_list_server.Base.Action.{Action, ◌>>=◌, after, resume, answering, reword}
use status_list_server.Certificates.Storage.{StorageError, backend}
use status_list_server.Outbound.Vault.Auth.{
  AuthBackend, app_role, kubernetes, AuthData, Request, Response, Http, VaultServer, TokenManager,
  kept, login_body, login_answer, perform_login, renewal_answer, renewal_request, try_renew, login,
  re_login, after_login, full_login, after_renewal, is_cooling, cooling, is_current, renewed,
  locked, ensure_valid, is_success,
}

module _ {S : Type 0} (now : S → ℕ) where
  -- The clock does not run backwards over a method.
  unfoldable pub Advances : {E A : Type 0} → Action E S A → Type 0
  Advances m = (s : S) → now s ≤ now (m s).1

  then-Advances :
      {E A B : Type 0} (m : Action E S A) (f : A → Action E S B)
      → Advances m
      → ((a : A) → Advances (f a))
      → Advances (m >>= f)
  unfolding Advances
  then-Advances {E} {A} {B} m f first next s = along (m s) (first s)
    where
      along : (x : Outcome E A × S) → now s ≤ now x.1 → now s ≤ now (after f x).1
      along (ok a, t) h = omega (arith, h, next a t)
      along (err e, t) h = h
      along (Outcome.panic, t) h = h

  answering-Advances :
      {E F A : Type 0} (f : E → F) (m : Action E S A) → Advances m → Advances (answering f m)
  unfolding Advances
  answering-Advances {E} {F} {A} f m first s = along (m s) (first s)
    where
      along : (x : Outcome E A × S) → now s ≤ now x.1 → now s ≤ now (reword f x).1
      along (ok a, t) h = h
      along (err e, t) h = h
      along (Outcome.panic, t) h = h

-- Requests and reads of files take time, and the clock of `Instant` is monotonic.
pub record IsClock {S : Type 0} (http : Http S) : Type 0 where
  pub sends : (request : Request) → Advances http.now (http.send request)
  pub reads : (path : String) → Advances http.now (http.read_to_string path)

module _ {S : Type 0} (http : Http S) (server : VaultServer) (clock : IsClock http) where
  stays : {E A : Type 0} (x : Outcome E A) → Advances http.now (λ s. (x, s))
  unfolding Advances
  stays x s = omega arith

  login_body-Advances :
      (by_backend : AuthBackend) → Advances http.now (login_body http server by_backend)
  login_body-Advances (app_role role_id secret_id auth_mount) = stays _
  login_body-Advances (kubernetes role token_path auth_mount) =
      then-Advances http.now _ _ (answering-Advances http.now _ _ (clock.reads token_path))
        (λ content. if_either (Advances http.now) (is_empty (trim content)) (stays _) (stays _))

  login_answer-Advances :
      (response : Response) → Advances http.now (login_answer http server response)
  login_answer-Advances response =
      if_either (Advances http.now) (is_success response.status) (stays _)
        (if_either (Advances http.now) (response.status == 403) (stays _) (stays _))

  login-Advances : Advances http.now (login http server)
  unfolding login perform_login
  login-Advances = then-Advances http.now _ _ (login_body-Advances server.login_by) (λ body.
      then-Advances http.now _ _ (answering-Advances http.now _ _ (clock.sends _))
        login_answer-Advances)

  renewal-Advances :
      (m : TokenManager)
      → Advances http.now (
          answering backend (http.send (renewal_request http server m))
          >>= renewal_answer http server)
  renewal-Advances m =
      then-Advances http.now _ _ (answering-Advances http.now _ _ (clock.sends _))
        (λ response. if_either (Advances http.now) (is_success response.status) (stays _) (stays _))

  module _ (safe_window : ℕ → ℕ) where
    Failed : Outcome StorageError (Unit {0}) × (TokenManager × S) → Type 0
    Failed (ok u, state) = Unit {0}
    Failed (err e, (m, s)) =
        ((e ≡ cooling http server) ⊎ (m.last_failure ≡ some (http.now s)))
        × (is_some m.last_failure ≡ true)
        × (is_current http server safe_window m (http.now s) ≡ false)
    Failed (Outcome.panic, state) = Unit {0}

    ended_later :
        (m : TokenManager) (t u : ℕ)
        → is_current http server safe_window m t ≡ false
        → t ≤ u
        → is_current http server safe_window m u ≡ false
    ended_later m t u ended later = ground arith

    login-Failed :
        (m : TokenManager) (s : S) (x : Outcome StorageError AuthData × S)
        → is_current http server safe_window m (http.now s) ≡ false
        → http.now s ≤ http.now x.1
        → Failed (resume (after_login http server) (kept http server m x))
    unfolding Failed
    login-Failed m s (ok auth, t) ended later = tt
    login-Failed m s (err e, t) ended later =
        (inr refl, refl, ended_later m (http.now s) (http.now t) ended later)
    login-Failed m s (Outcome.panic, t) ended later = tt

    full_login-Failed :
        (m : TokenManager) (s : S)
        → is_current http server safe_window m (http.now s) ≡ false
        → Failed (full_login http server (m, s))
    unfolding full_login re_login Advances
    full_login-Failed m s ended = login-Failed m s (login http server s) ended (login-Advances s)

    renewal-Failed :
        (m : TokenManager) (s : S) (x : Outcome StorageError AuthData × S)
        → is_current http server safe_window m (http.now s) ≡ false
        → http.now s ≤ http.now x.1
        → Failed (resume (after_renewal http server) (kept http server m x))
    unfolding Failed
    renewal-Failed m s (ok auth, t) ended later = tt
    renewal-Failed m s (err e, t) ended later =
        full_login-Failed m t (ended_later m (http.now s) (http.now t) ended later)
    renewal-Failed m s (Outcome.panic, t) ended later = tt

    renewed-Failed :
        (m : TokenManager) (s : S)
        → is_current http server safe_window m (http.now s) ≡ false
        → Failed (renewed http server safe_window (m, s))
    unfolding renewed try_renew Advances
    renewed-Failed m s ended =
        if_either Failed m.renewable (renewal-Failed m s _ ended (renewal-Advances m s))
          (full_login-Failed m s ended)

    cooling-is_some :
        (failure : Option ℕ) (t : ℕ)
        → is_cooling http server failure t ≡ true
        → is_some failure ≡ true
    cooling-is_some none t cools = cc
    cooling-is_some (some failed_at) t cools = refl

    locked-Failed : (state : TokenManager × S) → Failed (locked http server safe_window state)
    unfolding locked Failed
    locked-Failed (m, s) = elim (Bool-cases (is_current http server safe_window m (http.now s))) [
      | inl current ↦ rw current tt
      | inr ended ↦ elim (Bool-cases (is_cooling http server m.last_failure (http.now s))) [
        | inl cools ↦
            rw (ended, cools) (inl refl, cooling-is_some m.last_failure (http.now s) cools, ended)
        | inr warm ↦ rw (ended, warm) (renewed-Failed m s ended)
      ]
    ]

    ensure_valid-Failed :
        (waits : TokenManager × S → TokenManager × S) (state : TokenManager × S)
        → Failed (ensure_valid http server safe_window waits state)
    unfolding ensure_valid Failed
    ensure_valid-Failed waits (m, s) =
        elim (Bool-cases (is_current http server safe_window m (http.now s))) [
          | inl current ↦ rw current tt
          | inr ended ↦ rw ended (locked-Failed (waits (m, s)))
        ]

-- The end of the cooldown.
abbrev pub cools_until : Option ℕ → ℕ
cools_until none = 0
cools_until (some failed_at) = failed_at + 5000000000

-- Over a clock that does not run backwards: an `ensure_valid` that fails either was refused in
-- the cooldown or has noted the time of its failure; and until five seconds after the noted time
-- the next one fails with the error of the cooldown, sends nothing and changes nothing.
pub ensure_valid-cools :
    {S : Type 0} (http : Http S) (server : VaultServer) (safe_window : ℕ → ℕ)
    (waits : TokenManager × S → TokenManager × S) (state : TokenManager × S) (e : StorageError)
    (m : TokenManager) (s later : S)
    → IsClock http
    → ensure_valid http server safe_window waits state ≡ (err e, (m, s))
    → http.now s ≤ http.now later
    → http.now later < cools_until m.last_failure
    → ((e ≡ cooling http server) ⊎ (m.last_failure ≡ some (http.now s)))
      × (ensure_valid http server safe_window (λ st. st) (m, later)
          ≡ (err (cooling http server), (m, later)))
unfolding Failed ensure_valid locked
ensure_valid-cools http server safe_window waits state e m s later clock fails after_it soon =
    let failed =
      subst (Failed http server clock safe_window) fails
        (ensure_valid-Failed http server clock safe_window waits state) in
    let ended =
      ended_later http server clock safe_window m (http.now s) (http.now later) failed.2 after_it in
    (failed.0, rw (ended, cools m.last_failure (http.now later) soon) refl)
  where
    cools :
        (failure : Option ℕ) (t : ℕ)
        → t < cools_until failure
        → is_cooling http server failure t ≡ true
    cools none t h = absurd (omega arith)
    cools (some failed_at) t h = lt→ltb (t - failed_at) 5000000000 (omega arith)
