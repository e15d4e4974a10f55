-- ===== src/Certificates/Challenge/Token.antt =====
-- The cache of access tokens, src/utils/cert_manager/challenge/dns01/token.rs. Instants are
-- nanoseconds. A mint of a token is a parameter: it answers the token and its life.
use status_list_server.Base.{
  ℕ, ◌+◌, ◌-◌, ltb, Option, none, some, String, if◌then◌else◌, Outcome, ok, err,
}
use status_list_server.Base.Action.{Action}

pub record CachedToken : Type 0 where
  pub token : String
  pub expires_at : ℕ

abbrev pub expiry_skew : ℕ
expiry_skew = 60000000000

-- The state is the content of the lock, and the rest.
module _ {E S : Type 0} (now : S → ℕ) (mint : Action E S (String × ℕ)) where
  abbrev pub minted :
      Option CachedToken → Outcome E (String × ℕ) × S → Outcome E String × (Option CachedToken × S)
  minted cached (ok (token, ttl), s) =
      (ok token, (some (record { token = token; expires_at = now s + (ttl - expiry_skew) }), s))
  minted cached (err e, s) = (err e, (cached, s))
  minted cached (Outcome.panic, s) = (Outcome.panic, (cached, s))

  unfoldable pub get_or_mint : Action E (Option CachedToken × S) String
  get_or_mint (none, s) = minted none (mint s)
  get_or_mint (some cached, s) =
      if ltb (now s) cached.expires_at
      then (ok cached.token, (some cached, s))
      else minted (some cached) (mint s)
