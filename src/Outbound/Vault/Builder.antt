-- ===== src/Outbound/Vault/Builder.antt =====
-- `VaultClientBuilder` of src/outbound/vault.rs. The parser of URLs is a parameter; the construction of
-- the HTTP client is left out.
use Prim.Native.String as Str
use status_list_server.Base.{
  ℕ, ◌==◌, Bool, not, String, Option, none, some, if◌then◌else◌, Outcome, ok, err, map_err, ◌>>=◌,
  ◌>>◌,
}
use status_list_server.Base.Chars.{is_empty, trim, drop_end, is_char}
use status_list_server.Certificates.Storage.{StorageError, backend}
use status_list_server.Outbound.Vault.Paths.{VaultPlace}
use status_list_server.Outbound.Vault.Auth.{
  AuthData, Http, AuthBackend, app_role, kubernetes, VaultServer, TokenManager, login,
}

pub data AuthConfig : Type 0 where
  app_role_config kubernetes_config : String → String → AuthConfig

pub record VaultClientBuilder : Type 0 where
  pub addr : String
  pub auth : AuthConfig
  pub auth_mount : Option String
  pub mount : String
  pub path_prefix : String
  pub namespace : Option String
  pub secrets_cache_ttl : ℕ
  pub timeout : ℕ

abbrev builder_of : String → AuthConfig → VaultClientBuilder
builder_of addr auth = record {
  addr = addr;
  auth = auth;
  auth_mount = none;
  mount = "secret";
  path_prefix = "";
  namespace = none;
  secrets_cache_ttl = 300;
  timeout = 30;
}

abbrev pub approle : String → String → String → VaultClientBuilder
approle addr role_id secret_id = builder_of addr (app_role_config role_id secret_id)

abbrev pub by_kubernetes : String → String → String → VaultClientBuilder
by_kubernetes addr role token_path = builder_of addr (kubernetes_config role token_path)

abbrev invalid : String → StorageError
invalid what = backend (Str.◌++◌ "Vault configuration error: " what)

abbrev require : Bool → String → Outcome StorageError (Unit {0})
require holds what = if holds then ok tt else err (invalid what)

abbrev default_mount : AuthConfig → Option String → String
default_mount auth (some mount) = trim mount
default_mount (app_role_config role_id secret_id) none = "approle"
default_mount (kubernetes_config role token_path) none = "kubernetes"

abbrev backend_of : AuthConfig → String → Outcome StorageError AuthBackend
backend_of (app_role_config role_id secret_id) auth_mount = do
  require (not (is_empty (trim role_id))) "role_id must not be empty"
  require (not (is_empty (trim secret_id))) "secret_id must not be empty"
  ok (app_role (trim role_id) secret_id auth_mount)
backend_of (kubernetes_config role token_path) auth_mount = do
  require (not (is_empty (trim role))) "role must not be empty"
  ok (kubernetes (trim role) token_path auth_mount)

-- What `build` finds out before it logs in: where Vault is, how to log in, and whether secrets are
-- cached.
unfoldable pub checked :
    (String → Outcome String (Unit {0}))
    → VaultClientBuilder
    → Outcome StorageError (VaultPlace × VaultServer × Bool)
checked parse_url self = do
  let addr = drop_end (is_char b'/') (trim self.addr)
  require (not (is_empty addr)) "address must not be empty"
  map_err (λ e. invalid (Str.◌++◌ "invalid address: " e)) (parse_url addr)
  require (not (is_empty (trim self.mount))) "mount path must not be empty"
  require (not (is_empty (default_mount self.auth self.auth_mount))) "auth_mount must not be empty"
  login_by ← backend_of self.auth (default_mount self.auth self.auth_mount)
  ok (
    record { addr = addr; mount = trim self.mount; path_prefix = trim self.path_prefix },
    record { addr = addr; namespace = self.namespace; login_by = login_by },
    not (self.secrets_cache_ttl == 0),
  )

-- `TokenManager::login`.
abbrev manager_of :
    {S : Type 0}
    → Http S
    → Outcome StorageError AuthData × S
    → Outcome StorageError TokenManager × S
manager_of http (ok auth, s) = (
  ok (record {
    token = auth.client_token;
    issued_at = http.now s;
    lease_duration = auth.lease_duration;
    renewable = auth.renewable;
    last_failure = none;
  }),
  s,
)
manager_of http (err e, s) = (err e, s)
manager_of http (Outcome.panic, s) = (Outcome.panic, s)

abbrev first_login :
    {S : Type 0}
    → Http S
    → Outcome StorageError (VaultPlace × VaultServer × Bool)
    → S
    → Outcome StorageError TokenManager × S
first_login http (ok found) s = manager_of http (login http found.1 s)
first_login http (err e) s = (err e, s)
first_login http Outcome.panic s = (Outcome.panic, s)

unfoldable pub build :
    {S : Type 0}
    → Http S
    → (String → Outcome String (Unit {0}))
    → VaultClientBuilder
    → S
    → Outcome StorageError TokenManager × S
unfolding checked login
build http parse_url self s = first_login http (checked parse_url self) s
