-- ===== src/Outbound/Vault/Auth/Leases.antt =====
-- A token is used within its lease.
use mathlib.Core.Path.{subst}
use status_list_server.Base.{
  ℕ, zero, suc, ◌+◌, ◌-◌, ◌*◌, ◌<◌, ◌≤◌, ltb→lt, ◌==◌, eq_of_==, true, Bool-cases, if_either,
  Outcome, ok, err, ◌≡◌, refl, ◌⊎◌, inl, inr, arith,
}
use status_list_server.Base.Action.{resume}
use status_list_server.Certificates.Storage.{StorageError}
use status_list_server.Outbound.Vault.Auth.{
  AuthData, Http, VaultServer, TokenManager, kept, try_renew, login, re_login, after_login,
  full_login, after_renewal, is_cooling, is_current, renewed, locked, ensure_valid,
}

-- A lease of no seconds does not end.
abbrev pub IsLive : TokenManager → ℕ → Type 0
IsLive m now = (m.lease_duration ≡ 0) ⊎ (now < m.issued_at + m.lease_duration * 1000000000)

-- The window is a part of the lease.
abbrev pub IsWindow : (ℕ → ℕ) → Type 0
IsWindow safe_window = (lease : ℕ) → safe_window lease ≤ lease * 1000000000

module _ {S : Type 0} (http : Http S) (server : VaultServer) where
  Leaves : Outcome StorageError (Unit {0}) × (TokenManager × S) → Type 0
  Leaves (ok u, (m, s)) = IsLive m (http.now s)
  Leaves (err e, (m, s)) = Unit {0}
  Leaves (Outcome.panic, (m, s)) = Unit {0}

  new_lease : (lease t : ℕ) → (lease ≡ 0) ⊎ (t < t + lease * 1000000000)
  new_lease zero t = inl refl
  new_lease (suc lease) t = inr (omega arith)

  kept-Leaves :
      (m : TokenManager) (r : Outcome StorageError AuthData × S) → Leaves (kept http server m r)
  unfolding Leaves
  kept-Leaves m (ok auth, s) = new_lease auth.lease_duration (http.now s)
  kept-Leaves m (err e, s) = tt
  kept-Leaves m (Outcome.panic, s) = tt

  resume_login :
      (x : Outcome StorageError (Unit {0}) × (TokenManager × S))
      → Leaves x
      → Leaves (resume (after_login http server) x)
  unfolding Leaves
  resume_login (ok u, state) live = live
  resume_login (err e, state) live = tt
  resume_login (Outcome.panic, state) live = tt

  full_login-Leaves : (state : TokenManager × S) → Leaves (full_login http server state)
  unfolding full_login re_login
  full_login-Leaves (m, s) =
      resume_login (re_login http server (m, s)) (kept-Leaves m (login http server s))

  resume_renewal :
      (x : Outcome StorageError (Unit {0}) × (TokenManager × S))
      → Leaves x
      → Leaves (resume (after_renewal http server) x)
  unfolding Leaves
  resume_renewal (ok u, state) live = live
  resume_renewal (err e, state) live = full_login-Leaves state
  resume_renewal (Outcome.panic, state) live = tt

  current-IsLive :
      (safe_window : ℕ → ℕ) (m : TokenManager) (now : ℕ)
      → IsWindow safe_window
      → is_current http server safe_window m now ≡ true
      → IsLive m now
  current-IsLive safe_window m now window current = elim (Bool-cases (m.lease_duration == 0)) [
    | inl endless ↦ inl (eq_of_== m.lease_duration 0 endless)
    | inr bounded ↦
        let within =
          ltb→lt (now - m.issued_at) (safe_window m.lease_duration) (rw bounded at current) in
        inr (omega (arith, within, window m.lease_duration))
  ]

  renewed-Leaves :
      (safe_window : ℕ → ℕ) (state : TokenManager × S)
      → Leaves (renewed http server safe_window state)
  unfolding renewed try_renew
  renewed-Leaves safe_window (m, s) =
      if_either Leaves m.renewable (resume_renewal (try_renew http server (m, s)) (kept-Leaves m _))
        (full_login-Leaves (m, s))

  locked-Leaves :
      (safe_window : ℕ → ℕ) (state : TokenManager × S)
      → IsWindow safe_window
      → Leaves (locked http server safe_window state)
  unfolding locked Leaves
  locked-Leaves safe_window (m, s) window =
      elim (Bool-cases (is_current http server safe_window m (http.now s))) [
        | inl current ↦ rw current (current-IsLive safe_window m (http.now s) window current)
        | inr ended ↦ elim (Bool-cases (is_cooling http server m.last_failure (http.now s))) [
          | inl cools ↦ rw (ended, cools) tt
          | inr warm ↦ rw (ended, warm) (renewed-Leaves safe_window (m, s))
        ]
      ]

  ensure_valid-Leaves :
      (safe_window : ℕ → ℕ) (waits : TokenManager × S → TokenManager × S) (state : TokenManager × S)
      → IsWindow safe_window
      → Leaves (ensure_valid http server safe_window waits state)
  unfolding ensure_valid Leaves
  ensure_valid-Leaves safe_window waits (m, s) window =
      elim (Bool-cases (is_current http server safe_window m (http.now s))) [
        | inl current ↦ rw current (current-IsLive safe_window m (http.now s) window current)
        | inr ended ↦ rw ended (locked-Leaves safe_window (waits (m, s)) window)
      ]

-- For a renewal window that lies within the lease: when `ensure_valid` succeeds, whatever other
-- tasks did while it waited for the lock, the token that it leaves has a lease without an end, or
-- one that has not yet ended.
pub ensure_valid-IsLive :
    {S : Type 0} (http : Http S) (server : VaultServer) (safe_window : ℕ → ℕ)
    (waits : TokenManager × S → TokenManager × S) (state : TokenManager × S) (m : TokenManager)
    (s : S)
    → IsWindow safe_window
    → ensure_valid http server safe_window waits state ≡ (ok tt, (m, s))
    → IsLive m (http.now s)
unfolding Leaves
ensure_valid-IsLive http server safe_window waits state m s window valid =
    subst (Leaves http server) valid
      (ensure_valid-Leaves http server safe_window waits state window)
