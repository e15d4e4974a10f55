-- ===== src/Config/Settings.antt =====
-- The other settings of src/config.rs that are checked or rewritten when they are loaded. How Rust
-- lowers the case of a text, how `Debug` writes a path, and the reader of files are parameters.
use Prim.Native.Char.{Char, code}
use Prim.Native.String as Str
use text.Mathlib.Text.{◌==◌ as str_eq}
use status_list_server.Base.{
  ℕ, ◌==◌, Bool, true, false, ◌||◌, String, Option, none, some, List, [], ◌∷◌, if◌then◌else◌,
  Outcome, ok, err, map_err, ◌>>=◌, ◌>>◌,
}
use status_list_server.Base.Chars.{is_empty, trim, to_ascii_lowercase}
use status_list_server.Config.Database.{
  DatabaseConfig, trim_non_empty, validate_database_host, validate_database_query,
}

pub record ManagementAuthConfig : Type 0 where
  pub leeway_secs : ℕ
  pub max_token_lifetime_secs : ℕ
  pub audiences : List String

unfoldable pub validate_management_auth : ManagementAuthConfig → Outcome String (Unit {0})
validate_management_auth self =
    if self.max_token_lifetime_secs == 0
    then err "management_auth.max_token_lifetime_secs must be greater than 0"
    else ok tt

unfoldable pub audience_list : List String → List String
audience_list [] = []
audience_list (value ∷ values) =
    let rest = audience_list values in if is_empty (trim value) then rest else trim value ∷ rest

pub data TelemetryEnvironment : Type 0 where
  development production : TelemetryEnvironment

abbrev pub is_production : TelemetryEnvironment → Bool
is_production development = false
is_production production = true

-- An unknown variant is the error.
abbrev environment_of : String → Outcome String TelemetryEnvironment
environment_of name =
    if str_eq name "development" || str_eq name "dev"
    then ok development
    else if str_eq name "production" || str_eq name "prod"
    then ok production
    else err name

unfoldable pub telemetry_environment : String → Outcome String TelemetryEnvironment
unfolding to_ascii_lowercase
telemetry_environment raw = environment_of (to_ascii_lowercase (trim raw))

-- The default, from `APP_ENV`, which is empty where it is not set.
unfoldable pub default_environment : String → String
unfolding to_ascii_lowercase
default_environment app_env =
    let name = to_ascii_lowercase (trim app_env) in
    if str_eq name "production" || str_eq name "prod" then "production" else "development"

abbrev empty_file : (String → String) → String → String
empty_file debug path = Str.◌++◌ "Vault secret_id file " (Str.◌++◌ (debug path) " is empty")

abbrev unread_file : (String → String) → String → String → String
unread_file debug path e =
    Str.◌++◌ "Failed to read Vault secret_id from file " (Str.◌++◌ (debug path) (Str.◌++◌ ": " e))

abbrev no_secret_id : String
no_secret_id = "Vault configuration missing secret_id: provide 'secret_id' or 'secret_id_path'"

module _ (debug : String → String) (read_to_string : String → Outcome String String) where
  abbrev from_path : Option String → Outcome String String
  from_path none = err no_secret_id
  from_path (some path) = map_err (unread_file debug path) (read_to_string path) >>= λ content.
      if is_empty (trim content) then err (empty_file debug path) else ok (trim content)

  abbrev or_path : Option String → Option String → Outcome String String
  or_path none path = from_path path
  or_path (some secret_id) path = if is_empty (trim secret_id) then from_path path else ok secret_id

  unfoldable pub resolve_secret_id : Option String → Option String → Outcome String String
  resolve_secret_id secret_id secret_id_path = or_path secret_id secret_id_path

-- `strip_prefix("APP_")` or of `"app_"`.
abbrev strip_app : String → String
strip_app key =
    let rest = Str.slice key 4 (Str.len key) in
    if str_eq (Str.slice key 0 4) "APP_" || str_eq (Str.slice key 0 4) "app_" then rest else key

abbrev is_underscore : Char → Bool
is_underscore c = code c == b'_'

-- `replace("__", ".")`, from the left: `pending` tells that one underscore was read.
unfoldable pub dotted : Bool → String → String
dotted pending Str.[] = if pending then "_" else ""
dotted pending (Str.◌∷◌ c s) =
    let single = dotted true s in
    let plain = Str.◌∷◌ c (dotted false s) in
    if is_underscore c
    then (if pending then Str.◌++◌ "." (dotted false s) else single)
    else (if pending then Str.◌++◌ "_" plain else plain)

unfoldable pub override_key : (String → String) → String → String
unfolding dotted
override_key to_lowercase key = to_lowercase (dotted false (strip_app key))

-- The checks of `load_from_overrides` on what was built.
unfoldable pub check_loaded :
    (String → Bool)
    → (List ℕ → List (String × String))
    → DatabaseConfig
    → ManagementAuthConfig
    → Outcome String (Unit {0})
unfolding validate_management_auth
check_loaded is_ipv6 parse_form database management_auth = do
  given (trim_non_empty database.host) (validate_database_host is_ipv6)
  given (trim_non_empty database.query) (validate_database_query parse_form)
  validate_management_auth management_auth
  where
    given : Option String → (String → Outcome String (Unit {0})) → Outcome String (Unit {0})
    given none check = ok tt
    given (some value) check = check value
