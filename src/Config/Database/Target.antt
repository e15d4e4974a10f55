-- ===== src/Config/Database/Target.antt =====
-- `resolved_url`, `load_resolved_url` and `redacted_target` of src/config.rs. The reader of files
-- is a parameter.
use Prim.Native.String as Str
use status_list_server.Base.{
  ℕ, Bool, not, String, Option, none, some, is_some, map_option, List, [], ◌++◌, if◌then◌else◌,
  Outcome, ok, err, ok_or, ◌>>=◌, ◌>>◌, show_ℕ,
}
use status_list_server.Base.Chars.{trim, into_bytes}
use status_list_server.Config.Url.{encode_url_part}
use status_list_server.Config.Database.{
  DatabaseBackend, memory, postgres, my_sql, sqlite, as_str, DatabaseConfig, trim_non_empty,
  required_config_field, required_secret_field, format_database_url_host, trim_marks,
  validate_database_query, validate_database_host, has_split_connection_fields,
}

abbrev unsupported : DatabaseBackend → String
unsupported backend =
    Str.◌++◌
      "Split database connection fields are only supported for postgres/mysql; configured backend is '"
      (Str.◌++◌ (as_str backend) "'")

-- The scheme and the default port.
abbrev pub server_of : DatabaseBackend → Outcome String (String × ℕ)
server_of postgres = ok ("postgres", 5432)
server_of my_sql = ok ("mysql", 3306)
server_of memory = err (unsupported memory)
server_of sqlite = err (unsupported sqlite)

abbrev pub unwrap_or : Option ℕ → ℕ → ℕ
unwrap_or none default = default
unwrap_or (some n) default = n

abbrev pub query_part : (List ℕ → List (String × String)) → Option String → Outcome String (List ℕ)
query_part parse_form none = ok []
query_part parse_form (some query) = validate_database_query parse_form query >>= λ valid.
    ok (into_bytes (Str.◌++◌ "?" (trim_marks query)))

-- What `format!` puts together.
unfoldable pub url_of : String → String → String → String → ℕ → String → List ℕ → List ℕ
unfolding into_bytes
url_of scheme username password url_host port name query =
    into_bytes scheme
    ++ (into_bytes "://"
        ++ (encode_url_part username
            ++ (into_bytes ":"
                ++ (encode_url_part password
                    ++ (into_bytes "@"
                        ++ (into_bytes url_host
                            ++ (into_bytes ":"
                                ++ (into_bytes (show_ℕ port)
                                    ++ (into_bytes "/" ++ (encode_url_part name ++ query))))))))))

unfoldable pub split_url :
    (String → Bool) → (List ℕ → List (String × String)) → DatabaseConfig → Outcome String (List ℕ)
unfolding url_of
split_url is_ipv6 parse_form self = do
  server ← server_of self.backend
  host ← required_config_field self.host "database.host"
  validate_database_host is_ipv6 host
  username ← required_config_field self.username "database.username"
  password ← required_secret_field self.password "database.password"
  name ← required_config_field self.name "database.name"
  query ← query_part parse_form (trim_non_empty self.query)
  ok (
      url_of server.0 username (trim password) (format_database_url_host is_ipv6 host)
        (unwrap_or self.port server.1) name query)

abbrev no_target : String
no_target = "Missing required config field: database.url or split database fields"

abbrev ambiguous : String
ambiguous =
    "Ambiguous database configuration: use either database.url or split database fields, not both"

unfoldable pub resolved_url :
    (String → Bool) → (List ℕ → List (String × String)) → DatabaseConfig → Outcome String (List ℕ)
unfolding split_url
resolved_url is_ipv6 parse_form self =
    if not (has_split_connection_fields self)
    then ok_or (map_option into_bytes self.url) no_target
    else if is_some self.url
    then err ambiguous
    else split_url is_ipv6 parse_form self

abbrev unread : String → String → String
unread path error =
    Str.◌++◌ "Failed to read database.password_file '" (Str.◌++◌ path (Str.◌++◌ "': " error))

abbrev read_password : Outcome String String → String → Outcome String String
read_password (ok content) path = ok content
read_password (err error) path = err (unread path error)
read_password Outcome.panic path = Outcome.panic

unfoldable pub load_resolved_url :
    (String → Outcome String String)
    → (String → Bool)
    → (List ℕ → List (String × String))
    → DatabaseConfig
    → Outcome String (List ℕ)
unfolding resolved_url
load_resolved_url read_to_string is_ipv6 parse_form self = from_file self.password_file
  where
    from_file : Option String → Outcome String (List ℕ)
    from_file none = resolved_url is_ipv6 parse_form self
    from_file (some path) = read_password (read_to_string path) path >>= λ password.
        resolved_url is_ipv6 parse_form (record self { password = some (trim password) })

abbrev target_text : String → String → ℕ → String → String
target_text backend host port name = Str.◌++◌ "backend=" (
    Str.◌++◌ backend (
      Str.◌++◌ ", host=" (
        Str.◌++◌ host (Str.◌++◌ ", port=" (Str.◌++◌ (show_ℕ port) (Str.◌++◌ ", database=" name))))))

abbrev pub target_of : Bool → DatabaseBackend → Option String → Option String → Option ℕ → String
target_of Bool.true postgres (some host) (some name) port =
    target_text "postgres" host (unwrap_or port 5432) name
target_of Bool.true my_sql (some host) (some name) port =
    target_text "mysql" host (unwrap_or port 3306) name
target_of _ backend _ _ port = Str.◌++◌ "backend=" (as_str backend)

unfoldable pub redacted_target : DatabaseConfig → String
redacted_target self =
    target_of (has_split_connection_fields self) self.backend (trim_non_empty self.host)
      (trim_non_empty self.name) self.port
