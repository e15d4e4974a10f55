-- ===== src/Server/Auth/Policy.antt =====
-- What `validate_policy` of src/server/auth/mod.rs admits.
use status_list_server.Base.{
  ℕ, ◌+◌, ◌-◌, ◌^◌, ◌≤◌, ◌<◌, leb, ltb, true, false, Bool-cases, Option, none, some, Outcome, ok,
  err, ◌≡◌, refl, arith, inl, inr, ◌⊎◌,
}
use status_list_server.Server.Auth.{
  ManagementClaims, AuthenticationError, invalid_claims, saturating_add, is_beyond, validate_policy,
}

abbrev IsWithin : ℕ → Option ℕ → Type 0
IsWithin bound none = Unit {0}
IsWithin bound (some time) = time ≤ bound

-- Times and life of a token that the policy allows.
pub record IsAllowed (claims : ManagementClaims) (now leeway_secs max_token_lifetime_secs : ℕ)
    : Type 0 where
  pub lives : claims.iat < claims.exp
  pub issued : claims.iat ≤ now + leeway_secs
  pub started : IsWithin (now + leeway_secs) claims.nbf
  pub short : claims.exp ≤ claims.iat + max_token_lifetime_secs

abbrev pub IsU64 : Option ℕ → Type 0
IsU64 none = Unit {0}
IsU64 (some time) = time < 2 ^ 64

-- For a time of 64 bits the saturation does not show.
beyond-cases :
    (now leeway : ℕ) (time : Option ℕ)
    → IsU64 time
    → ((is_beyond (saturating_add now leeway) time ≡ true) × ¬ (IsWithin (now + leeway) time))
      ⊎ ((is_beyond (saturating_add now leeway) time ≡ false) × IsWithin (now + leeway) time)
beyond-cases now leeway none h = inr (refl, tt)
beyond-cases now leeway (some time) h = elim (Bool-cases (ltb (saturating_add now leeway) time)) [
  | inl late ↦ inl (late, λ w. ground arith)
  | inr early ↦ inr (early, ground arith)
]

abbrev pub Decides : ManagementClaims → ℕ → ℕ → ℕ → Outcome AuthenticationError (Unit {0}) → Type 0
Decides claims now leeway longest answer =
    ((answer ≡ ok tt) × IsAllowed claims now leeway longest)
    ⊎ ((answer ≡ err invalid_claims) × ¬ (IsAllowed claims now leeway longest))

-- For claims of 64 bits, the policy answers `Ok` exactly when the token expires after it was
-- issued, was issued and starts no later than the leeway after now, and lives no longer than is
-- allowed; otherwise it answers `InvalidClaims`.
pub validate_policy-IsAllowed :
    (claims : ManagementClaims) (now leeway longest : ℕ)
    → claims.iat < 2 ^ 64
    → IsU64 claims.nbf
    → Decides claims now leeway longest (validate_policy claims now leeway longest)
unfolding validate_policy
validate_policy-IsAllowed claims now leeway longest h k =
    elim (Bool-cases (leb claims.exp claims.iat)) [
      | inl dead ↦ inr (rw dead refl, λ a. ground (arith, a.lives))
      | inr lives ↦ elim (beyond-cases now leeway (some claims.iat) h) [
        | inl early ↦ inr (rw (lives, early.0) refl, λ a. early.1 a.issued)
        | inr issued ↦ elim (beyond-cases now leeway claims.nbf k) [
          | inl unready ↦ inr (rw (lives, issued.0, unready.0) refl, λ a. unready.1 a.started)
          | inr started ↦ elim (Bool-cases (ltb claims.exp claims.iat)) [
            | inl below ↦ absurd (ground arith)
            | inr above ↦ elim (Bool-cases (ltb longest (claims.exp - claims.iat))) [
              | inl long ↦
                  inr (
                    rw (lives, issued.0, started.0, above, long) refl,
                    λ a. ground (arith, a.short),
                  )
              | inr short ↦ inl (
                rw (lives, issued.0, started.0, above, short) refl,
                record {
                  lives = ground arith;
                  issued = issued.1;
                  started = started.1;
                  short = ground arith;
                },
              )
            ]
          ]
        ]
      ]
    ]
