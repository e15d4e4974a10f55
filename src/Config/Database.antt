-- ===== src/Config/Database.antt =====
-- The database settings of src/config.rs. A URL is kept as its bytes. The parser of IPv6 texts and
-- the one of forms (the `url` crate) are parameters.
pub mod Target
pub mod Host
pub mod Reading
pub mod Connection
pub mod Redacted
use Prim.Native.Char.{Char, code}
use Prim.Native.String as Str
use package.text.Mathlib.Text.{◌==◌ as str_eq, starts_with, find?}
use status_list_server.Base.{
  ℕ, leb, ◌==◌, Bool, true, false, not, ◌&&◌, ◌||◌, String, Option, none, some, is_some, map_option,
  List, [], ◌∷◌, ◌++◌, if◌then◌else◌, Outcome, ok, err, ok_or, ◌>>=◌, ◌>>◌, show_ℕ,
}
use status_list_server.Base.Chars.{
  is_whitespace, is_empty, drop_start, drop_end, trim, into_bytes, any_char, all_chars,
  starts_with_char, ends_with_char, is_char, to_ascii_lowercase,
}
use status_list_server.Config.Url.{encode_url_part}

pub data DatabaseBackend : Type 0 where
  memory postgres my_sql sqlite : DatabaseBackend

pub record DatabaseBackendScheme : Type 0 where
  pub prefixes : List String
  pub description : String

abbrev pub scheme : DatabaseBackend → DatabaseBackendScheme
scheme memory = record {
  prefixes = "memory:" ∷ "memory" ∷ [];
  description = "'memory:' or 'memory'";
}
scheme postgres = record {
  prefixes = "postgres://" ∷ "postgresql://" ∷ [];
  description = "'postgres://' or 'postgresql://'";
}
scheme my_sql = record { prefixes = "mysql://" ∷ []; description = "'mysql://'" }
scheme sqlite = record { prefixes = "sqlite:" ∷ []; description = "'sqlite:'" }

abbrev pub expected_scheme_description : DatabaseBackend → String
expected_scheme_description self = (scheme self).description

abbrev pub as_str : DatabaseBackend → String
as_str memory = "memory"
as_str postgres = "postgres"
as_str my_sql = "mysql"
as_str sqlite = "sqlite"

abbrev starts_with_any : String → List String → Bool
starts_with_any url [] = false
starts_with_any url (prefix ∷ prefixes) = starts_with url prefix || starts_with_any url prefixes

unfoldable pub validate_url_scheme : DatabaseBackend → String → Bool
validate_url_scheme self url = starts_with_any url (scheme self).prefixes

-- `password_file` is a path as its text; the settings of the pool are not part of a URL.
pub record DatabaseConfig : Type 0 where
  pub url : Option String
  pub host : Option String
  pub port : Option ℕ
  pub username : Option String
  pub password : Option String
  pub password_file : Option String
  pub name : Option String
  pub query : Option String
  pub backend : DatabaseBackend

-- `Option::filter`.
abbrev pub filter_option {ℓ} : {A : Type ℓ} → (A → Bool) → Option A → Option A
filter_option p none = none
filter_option p (some a) = if p a then some a else none

abbrev pub trim_non_empty : Option String → Option String
trim_non_empty value = filter_option (λ s. not (is_empty s)) (map_option trim value)

abbrev missing_field : String → String
missing_field field = Str.◌++◌ "Missing required config field: " field

unfoldable pub required_config_field : Option String → String → Outcome String String
required_config_field value field = ok_or (trim_non_empty value) (missing_field field)

unfoldable pub required_secret_field : Option String → String → Outcome String String
required_secret_field value field =
    ok_or (filter_option (λ s. not (is_empty s)) value) (missing_field field)

-- `strip_prefix` and `strip_suffix` of one character.
abbrev pub strip_first : ℕ → String → Option String
strip_first n Str.[] = none
strip_first n (Str.◌∷◌ c s) = if code c == n then some s else none

abbrev pub strip_at : ℕ → Char → String → Option String → Option String
strip_at n c Str.[] rest = if code c == n then some Str.[] else none
strip_at n c (Str.◌∷◌ d s) rest = map_option (Str.◌∷◌ c) rest

unfoldable pub strip_last : ℕ → String → Option String
strip_last n Str.[] = none
strip_last n (Str.◌∷◌ c s) = strip_at n c s (strip_last n s)

abbrev pub holds {ℓ} : {A : Type ℓ} → (A → Bool) → Option A → Bool
holds p none = false
holds p (some a) = p a

abbrev pub strip_brackets : Option String → Option String
strip_brackets none = none
strip_brackets (some inner) = strip_last b']' inner

unfoldable pub database_host_is_ipv6 : (String → Bool) → String → Bool
database_host_is_ipv6 is_ipv6 host =
    is_ipv6 host || holds is_ipv6 (strip_brackets (strip_first b'[' host))

unfoldable pub format_database_url_host : (String → Bool) → String → String
format_database_url_host is_ipv6 host =
    if is_ipv6 host then Str.◌++◌ "[" (Str.◌++◌ host "]") else host

abbrev is_key_char : Char → Bool
is_key_char c =
    let n = code c in
    (leb b'a' n && leb n b'z')
    || (leb b'A' n && leb n b'Z')
    || (leb b'0' n && leb n b'9')
    || (n == b'_')
    || (n == b'-')
    || (n == b'.')

abbrev mentions : String → String → Bool
mentions key part = is_some (find? key part)

abbrev is_credential_like : String → Bool
is_credential_like key =
    mentions key "password"
    || mentions key "passwd"
    || mentions key "secret"
    || mentions key "token"
    || str_eq key "user"
    || str_eq key "username"

abbrev invalid_key : String
invalid_key =
    "Invalid database.query: query parameter keys must be non-empty and contain only ASCII letters, digits, '.', '_' or '-'"

abbrev credential_key : String → String
credential_key key =
    Str.◌++◌ "Invalid database.query: credential-like query parameter key '"
      (Str.◌++◌ key "' is not allowed")

unfoldable pub validate_keys : List (String × String) → Outcome String (Unit {0})
validate_keys [] = ok tt
validate_keys ((key, value) ∷ pairs) =
    let rest = validate_keys pairs in
    if is_empty key || not (all_chars is_key_char key)
    then err invalid_key
    else if is_credential_like (to_ascii_lowercase key)
    then err (credential_key (to_ascii_lowercase key))
    else rest

abbrev pub trim_marks : String → String
trim_marks query = drop_start (is_char b'?') query

unfoldable pub validate_database_query :
    (List ℕ → List (String × String)) → String → Outcome String (Unit {0})
validate_database_query parse_form query =
    if is_empty (trim_marks query)
    then ok tt
    else validate_keys (parse_form (into_bytes (trim_marks query)))

abbrev invalid_host : String
invalid_host =
    "Invalid database.host: expected a hostname or IP address without scheme, port, path, userinfo, query, or fragment"

abbrev pub is_invalid_host : String → Bool
is_invalid_host host =
    any_char is_whitespace host
    || any_char (is_char b'/') host
    || any_char (is_char b'@') host
    || any_char (is_char b'?') host
    || any_char (is_char b'#') host
    || any_char (is_char b':') host
    || any_char (is_char b'\\') host
    || starts_with_char (is_char b'-') host
    || ends_with_char (is_char b'-') host
    || starts_with_char (is_char b'.') host
    || is_empty (drop_end (is_char b'.') host)

unfoldable pub validate_database_host : (String → Bool) → String → Outcome String (Unit {0})
validate_database_host is_ipv6 host =
    if database_host_is_ipv6 is_ipv6 host
    then ok tt
    else if is_invalid_host host
    then err invalid_host
    else ok tt

abbrev pub has_split_connection_fields : DatabaseConfig → Bool
has_split_connection_fields self =
    holds (λ s. not (is_empty (trim s))) self.host
    || holds (λ s. not (is_empty (trim s))) self.username
    || holds (λ s. not (is_empty s)) self.password
    || holds (λ s. not (is_empty s)) self.password_file
    || holds (λ s. not (is_empty (trim s))) self.name
