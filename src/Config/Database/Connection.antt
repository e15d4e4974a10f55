-- ===== src/Config/Database/Connection.antt =====
-- What `resolved_url` answers for split connection fields.
use Prim.Native.Char.{char}
use Prim.Native.String as Str
use text.Mathlib.TextLemmas.{cons-append}
use status_list_server.Base.{
  ℕ, Bool, true, false, Bool-cases, not, String, Option, none, some, List, ok, ok-injective,
  >>=-eq-ok, ◌≡◌, refl, sym, inl, inr,
}
use status_list_server.Base.Chars.{is_empty, trim, into_bytes}
use status_list_server.Base.Percent.Marks.{has_byte, Begins}
use status_list_server.Config.Database.{
  DatabaseBackend, memory, postgres, my_sql, sqlite, DatabaseConfig, trim_non_empty,
  required_config_field, required_secret_field, format_database_url_host, holds, trim_marks,
  validate_database_query, validate_database_host, has_split_connection_fields,
}
use status_list_server.Config.Database.Host.{ReadsIpv6, format_database_url_host-clean}
use status_list_server.Config.Database.Target.{
  server_of, unwrap_or, query_part, url_of, split_url, resolved_url,
}
use status_list_server.Config.Database.Reading.{UrlParts, read_url, parts_of, read_url-url_of}

-- The scheme and the port of the database's kind: 5432 is PostgreSQL's, 3306 MySQL's.
pub data Serves : DatabaseBackend → String → ℕ → Type 0 where
  postgres_serves : Serves postgres "postgres" 5432
  my_sql_serves : Serves my_sql "mysql" 3306

server_of-Serves :
    (backend : DatabaseBackend) (scheme : String) (port : ℕ)
    → Serves backend scheme port
    → server_of backend ≡ ok (scheme, port)
server_of-Serves postgres _ _ postgres_serves = refl
server_of-Serves my_sql _ _ my_sql_serves = refl
server_of-Serves memory scheme port h = elim h [ ]
server_of-Serves sqlite scheme port h = elim h [ ]

scheme-plain :
    (backend : DatabaseBackend) (scheme : String) (port : ℕ)
    → Serves backend scheme port
    → (has_byte b':' (into_bytes scheme) ≡ false) × (has_byte b'#' (into_bytes scheme) ≡ false)
unfolding has_byte into_bytes
scheme-plain postgres _ _ postgres_serves = (refl, refl)
scheme-plain my_sql _ _ my_sql_serves = (refl, refl)
scheme-plain memory scheme port h = elim h [ ]
scheme-plain sqlite scheme port h = elim h [ ]

query_part-Begins :
    (parse_form : List ℕ → List (String × String)) (query : Option String) (part : List ℕ)
    → query_part parse_form query ≡ ok part
    → Begins b'?' part
unfolding into_bytes
query_part-Begins parse_form none part h = rw (sym (ok-injective h)) tt
query_part-Begins parse_form (some query) part h =
    let chain =
      >>=-eq-ok (validate_database_query parse_form query)
        (λ valid. ok (into_bytes (Str.◌++◌ "?" (trim_marks query)))) h in
    rw (sym (ok-injective chain.2), cons-append (char b'?' tt) "" (trim_marks query)) refl

-- Settings by split fields from which a URL is made: a PostgreSQL or MySQL backend, no `url`, a
-- host that may stand in a URL, a name of the user and of the database and a password, and a query
-- that is empty or holds no credentials, and no `#`.
pub record IsComplete (is_ipv6 : String → Bool) (parse_form : List ℕ → List (String × String))
    (config : DatabaseConfig) : Type 0 where
  pub scheme : String
  pub default_port : ℕ
  pub served : Serves config.backend scheme default_port
  pub no_url : config.url ≡ none
  pub host : String
  pub has_host : trim_non_empty config.host ≡ some host
  pub valid_host : validate_database_host is_ipv6 host ≡ ok tt
  pub username : String
  pub has_username : trim_non_empty config.username ≡ some username
  pub password : String
  pub has_password : config.password ≡ some password
  pub not_empty : is_empty password ≡ false
  pub name : String
  pub has_name : trim_non_empty config.name ≡ some name
  pub query : List ℕ
  pub valid_query : query_part parse_form (trim_non_empty config.query) ≡ ok query
  pub no_fragment : has_byte b'#' query ≡ false

filled :
    (value : Option String) (text : String)
    → trim_non_empty value ≡ some text
    → holds (λ s. not (is_empty (trim s))) value ≡ true
filled none text h = cc
filled (some s) text h = elim (Bool-cases (is_empty (trim s))) [
  | inl empty ↦ let bad = rw empty at h in cc
  | inr other ↦ rw other refl
]

pub host-has_split :
    (config : DatabaseConfig) (host : String)
    → trim_non_empty config.host ≡ some host
    → has_split_connection_fields config ≡ true
host-has_split config host h = rw (filled config.host host h) refl

abbrev pub parts :
    {is_ipv6 : String → Bool} {parse_form : List ℕ → List (String × String)}
    {config : DatabaseConfig}
    → IsComplete is_ipv6 parse_form config
    → UrlParts
parts {is_ipv6} {config = config} c =
    parts_of c.scheme c.username (trim c.password) (format_database_url_host is_ipv6 c.host)
      (unwrap_or config.port c.default_port) c.name c.query

-- For settings by split fields from which a URL is made, with no `#` in the query, and a parser
-- of IPv6 addresses that takes no text with a slash or a `#`: `resolved_url` answers a URL, and a
-- reader that parts it at the marks of RFC 3986, the `#` of a fragment first, and decodes the
-- user, the password and the database finds those of the settings, trimmed, the scheme `postgres`
-- or `mysql` of the backend, the host with the port, which is 5432 or 3306 where none is set, the
-- query, and no fragment.
pub resolved_url-reads_back :
    (is_ipv6 : String → Bool) (parse_form : List ℕ → List (String × String))
    (config : DatabaseConfig)
    → ReadsIpv6 is_ipv6
    → (complete : IsComplete is_ipv6 parse_form config)
    → (url : List ℕ) × (resolved_url is_ipv6 parse_form config ≡ ok url)
      × (read_url url ≡ parts complete)
unfolding resolved_url split_url required_config_field required_secret_field
resolved_url-reads_back is_ipv6 parse_form config reads c =
    let host = format_database_url_host is_ipv6 c.host in
    let port = unwrap_or config.port c.default_port in
    (
      url_of c.scheme c.username (trim c.password) host port c.name c.query,
      rw
          (
            host-has_split config c.host c.has_host,
            c.no_url,
            server_of-Serves config.backend c.scheme c.default_port c.served,
            c.has_host,
            c.valid_host,
            c.has_username,
            c.has_password,
            c.not_empty,
            c.has_name,
            c.valid_query,
          )
          refl,
      read_url-url_of c.scheme c.username (trim c.password) host port c.name c.query
          (scheme-plain config.backend c.scheme c.default_port c.served).0
          (scheme-plain config.backend c.scheme c.default_port c.served).1
          (format_database_url_host-clean is_ipv6 c.host reads c.valid_host)
          (query_part-Begins parse_form (trim_non_empty config.query) c.query c.valid_query)
          c.no_fragment,
    )
