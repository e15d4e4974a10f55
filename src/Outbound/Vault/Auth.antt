-- ===== src/Outbound/Vault/Auth.antt =====
-- The tokens of Vault, src/outbound/vault.rs. The HTTP client, the files, the clock (in nanoseconds)
-- and the parsers of JSON are parameters, and so are the 80% of a lease (a product of floats) and
-- what other tasks do while one waits for the lock.
pub mod Leases
pub mod Cooldown
use Prim.Native.String as Str
use status_list_server.Base.{
  ℕ, ◌+◌, ◌-◌, ltb, leb, ◌==◌, Bool, true, false, ◌&&◌, ◌||◌, String, Option, none, some, List, [],
  ◌∷◌, ◌++◌, if◌then◌else◌, Outcome, ok, err, map_err, ◌≡◌,
}
use status_list_server.Base.Chars.{is_empty, trim, into_bytes}
use status_list_server.Base.Action.{Action, ◌>>=◌, ◌>>◌, pure, throw, lift, attempt, answering}
use status_list_server.Certificates.Storage.{StorageError, backend}
use status_list_server.Outbound.Vault.Paths.{encode_path_segment}

pub data Method : Type 0 where
  get post delete : Method

-- A login by its fields, or the value of a secret.
pub data Body : Type 0 where
  no_body : Body
  fields : List (String × String) → Body
  secret_value : String → Body

pub record Request : Type 0 where
  pub method : Method
  pub url : List ℕ
  pub headers : List (String × String)
  pub body : Body

pub record Response : Type 0 where
  pub status : ℕ
  pub text : String

pub record AuthData : Type 0 where
  pub client_token : String
  pub lease_duration : ℕ
  pub renewable : Bool

pub record Http (S : Type 0) : Type 0 where
  pub send : Request → Action String S Response
  pub read_to_string : String → Action String S String
  pub now : S → ℕ
  pub auth_of : Response → Outcome String AuthData
  pub show_status : ℕ → String
  pub value_of : Response → Outcome String String
  pub from_ascii : List ℕ → String

pub data AuthBackend : Type 0 where
  app_role kubernetes : String → String → String → AuthBackend

abbrev pub method_name : AuthBackend → String
method_name (app_role role_id secret_id auth_mount) = "approle"
method_name (kubernetes role token_path auth_mount) = "kubernetes"

abbrev label : AuthBackend → String
label (app_role role_id secret_id auth_mount) = "AppRole"
label (kubernetes role token_path auth_mount) = "Kubernetes"

abbrev auth_mount_of : AuthBackend → String
auth_mount_of (app_role role_id secret_id auth_mount) = auth_mount
auth_mount_of (kubernetes role token_path auth_mount) = auth_mount

abbrev pub namespace_header : Option String → List (String × String)
namespace_header none = []
namespace_header (some namespace) = ("X-Vault-Namespace", namespace) ∷ []

abbrev pub is_success : ℕ → Bool
is_success status = leb 200 status && ltb status 300

-- Where Vault is, how to log in there and the namespace.
pub record VaultServer : Type 0 where
  pub addr : String
  pub namespace : Option String
  pub login_by : AuthBackend

-- The manager's locked fields.
pub record TokenManager : Type 0 where
  pub token : String
  pub issued_at : ℕ
  pub lease_duration : ℕ
  pub renewable : Bool
  pub last_failure : Option ℕ

module _ {S : Type 0} (http : Http S) (server : VaultServer) where
  abbrev empty_token : String → String
  empty_token path = Str.◌++◌ "Kubernetes service account token in " (Str.◌++◌ path " is empty")

  abbrev unread_token : String → String → String
  unread_token path e =
      Str.◌++◌ "failed to read Kubernetes service account token from "
        (Str.◌++◌ path (Str.◌++◌ ": " e))

  abbrev pub login_body : AuthBackend → Action StorageError S Body
  login_body (app_role role_id secret_id auth_mount) =
      pure (fields (("role_id", role_id) ∷ ("secret_id", secret_id) ∷ []))
  login_body (kubernetes role token_path auth_mount) =
      answering (λ e. backend (unread_token token_path e)) (http.read_to_string token_path)
      >>= λ content.
          if is_empty (trim content)
          then throw (backend (empty_token token_path))
          else pure (fields (("role", role) ∷ ("jwt", trim content) ∷ []))

  abbrev denied : String → String
  denied name = Str.◌++◌ "vault " (Str.◌++◌ name " login denied (HTTP 403)")

  abbrev http_failure : String → Response → String
  http_failure what response = Str.◌++◌ what (
      Str.◌++◌ " failed: HTTP "
        (Str.◌++◌ (http.show_status response.status) (Str.◌++◌ ": " response.text)))

  abbrev granted : Response → Outcome StorageError AuthData
  granted response = map_err backend (http.auth_of response)

  abbrev pub login_answer : Response → Action StorageError S AuthData
  login_answer response =
      if is_success response.status
      then lift (granted response)
      else if response.status == 403
      then throw (backend (denied (label server.login_by)))
      else throw (
          backend
            (http_failure (Str.◌++◌ "vault " (Str.◌++◌ (label server.login_by) " login")) response))

  unfoldable pub perform_login : List ℕ → Body → Action StorageError S AuthData
  perform_login url body =
      answering backend (
        http.send (record {
          method = post;
          url = url;
          headers = namespace_header server.namespace;
          body = body;
        }))
      >>= login_answer

  unfoldable pub login : Action StorageError S AuthData
  unfolding perform_login encode_path_segment into_bytes
  login =
      login_body server.login_by
      >>= perform_login (
          into_bytes server.addr
          ++ (into_bytes "/v1/auth/"
              ++ (encode_path_segment (auth_mount_of server.login_by) ++ into_bytes "/login")))

  -- The manager that holds what was granted, from this instant on.
  abbrev pub holding : TokenManager → AuthData → ℕ → TokenManager
  holding m auth t = record {
    token = auth.client_token;
    issued_at = t;
    lease_duration = auth.lease_duration;
    renewable = auth.renewable;
    last_failure = m.last_failure;
  }

  abbrev pub State : Type 0
  State = TokenManager × S

  abbrev pub kept :
      TokenManager → Outcome StorageError AuthData × S → Outcome StorageError (Unit {0}) × State
  kept m (ok auth, s) = (ok tt, (holding m auth (http.now s), s))
  kept m (err e, s) = (err e, (m, s))
  kept m (Outcome.panic, s) = (Outcome.panic, (m, s))

  abbrev pub renewal_answer : Response → Action StorageError S AuthData
  renewal_answer response =
      if is_success response.status
      then lift (granted response)
      else throw (backend (http_failure "token renewal" response))

  abbrev pub renewal_request : TokenManager → Request
  renewal_request m = record {
    method = post;
    url = into_bytes server.addr ++ into_bytes "/v1/auth/token/renew-self";
    headers = ("X-Vault-Token", m.token) ∷ namespace_header server.namespace;
    body = no_body;
  }

  unfoldable pub try_renew : Action StorageError State (Unit {0})
  unfolding into_bytes
  try_renew (m, s) =
      kept m ((answering backend (http.send (renewal_request m)) >>= renewal_answer) s)

  unfoldable pub re_login : Action StorageError State (Unit {0})
  unfolding login
  re_login (m, s) = kept m (login s)

  abbrev pub note_success : Action StorageError State (Unit {0})
  note_success (m, s) = (ok tt, (record m { last_failure = none }, s))

  abbrev pub note_failure : StorageError → Action StorageError State (Unit {0})
  note_failure e (m, s) = (err e, (record m { last_failure = some (http.now s) }, s))

  abbrev pub after_login : Outcome StorageError (Unit {0}) → Action StorageError State (Unit {0})
  after_login (ok u) state = note_success state
  after_login (err e) state = note_failure e state
  after_login Outcome.panic state = (Outcome.panic, state)

  unfoldable pub full_login : Action StorageError State (Unit {0})
  unfolding re_login
  full_login = attempt re_login after_login

  abbrev pub after_renewal : Outcome StorageError (Unit {0}) → Action StorageError State (Unit {0})
  after_renewal (ok u) state = note_success state
  after_renewal (err e) state = full_login state
  after_renewal Outcome.panic state = (Outcome.panic, state)

  abbrev pub failure_cooldown : ℕ
  failure_cooldown = 5000000000

  abbrev pub is_cooling : Option ℕ → ℕ → Bool
  is_cooling none now = false
  is_cooling (some failed_at) now = ltb (now - failed_at) failure_cooldown

  abbrev pub cooling : StorageError
  cooling = backend "vault authentication in cooldown backoff after recent failure"

  module _ (safe_window : ℕ → ℕ) where
    abbrev pub is_current : TokenManager → ℕ → Bool
    is_current m now =
        (m.lease_duration == 0) || ltb (now - m.issued_at) (safe_window m.lease_duration)

    unfoldable pub renewed : Action StorageError State (Unit {0})
    unfolding try_renew full_login
    renewed (m, s) =
        let login_only = full_login (m, s) in
        if m.renewable then attempt try_renew after_renewal (m, s) else login_only

    -- What follows once the lock is held.
    unfoldable pub locked : Action StorageError State (Unit {0})
    unfolding renewed
    locked (m, s) =
        if is_current m (http.now s)
        then (ok tt, (m, s))
        else if is_cooling m.last_failure (http.now s)
        then (err cooling, (m, s))
        else renewed (m, s)

    unfoldable pub ensure_valid : (State → State) → Action StorageError State (Unit {0})
    unfolding locked
    ensure_valid waits (m, s) =
        if is_current m (http.now s) then (ok tt, (m, s)) else locked (waits (m, s))
