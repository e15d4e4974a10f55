-- ===== src/Tests/Config.antt =====
-- The theorems on the settings, on those of a PostgreSQL database and of a DNS provider.
use text.Mathlib.Text.{◌==◌ as str_eq}
use text.Mathlib.TextEquality.{eq_iff}
use status_list_server.Base.{ℕ, Bool, String, none, some, List, [], ◌∷◌, ok, ◌≡◌, refl, ap}
use status_list_server.Base.Chars.{
  drop_start, drop_end, any_char, is_char, into_bytes, ends_with_char, all_chars,
  to_ascii_lowercase,
}
use status_list_server.Config.Database.{
  postgres, DatabaseConfig, validate_database_host, database_host_is_ipv6, validate_database_query,
  validate_keys,
}
use status_list_server.Config.Database.Target.{resolved_url, redacted_target}
use status_list_server.Config.Database.Reading.{read_url}
use status_list_server.Base.Percent.Marks.{has_byte}
use status_list_server.Config.Database.Host.{ReadsIpv6}
use status_list_server.Config.Database.Connection.{
  IsComplete, parts, postgres_serves, resolved_url-reads_back,
}
use status_list_server.Config.Database.Redacted.{redacted_target-no_leak}
use status_list_server.Config.Dns.{DnsConfig, AcmeDnsConfig, acmedns, resolve, chosen_kind}
use status_list_server.Config.Dns.Resolve.{Resolves, resolve-Resolves}

abbrev loopback : String → Bool
loopback host = str_eq host "::1"

loopback-ReadsIpv6 : ReadsIpv6 loopback
unfolding any_char
loopback-ReadsIpv6 host is_it =
    let same = (eq_iff host "::1").0 is_it in
    (ap (any_char (is_char b'/')) same, ap (any_char (is_char b'#')) same)

abbrev form : List ℕ → List (String × String)
form bytes = ("sslmode", "require") ∷ []

abbrev settings : DatabaseConfig
settings = record {
  url = none;
  host = some " db.example ";
  port = none;
  username = some "user@corp";
  password = some "p:w/d?";
  password_file = none;
  name = some "lists";
  query = some "?sslmode=require";
  backend = postgres;
}

abbrev complete : IsComplete loopback form settings
unfolding validate_database_host database_host_is_ipv6 validate_database_query validate_keys
    drop_start drop_end any_char into_bytes ends_with_char all_chars to_ascii_lowercase has_byte
complete = record {
  scheme = "postgres";
  default_port = 5432;
  served = postgres_serves;
  no_url = refl;
  host = "db.example";
  has_host = refl;
  valid_host = refl;
  username = "user@corp";
  has_username = refl;
  password = "p:w/d?";
  has_password = refl;
  not_empty = refl;
  name = "lists";
  has_name = refl;
  query = into_bytes "?sslmode=require";
  valid_query = refl;
  no_fragment = refl;
}

resolved_url-reads_back_example :
    (url : List ℕ) × (resolved_url loopback form settings ≡ ok url)
    × (read_url url ≡ parts complete)
resolved_url-reads_back_example =
    resolved_url-reads_back loopback form settings loopback-ReadsIpv6 complete

abbrev other_settings : DatabaseConfig
other_settings = record settings { username = none; password = some "other" }

redacted_target-no_leak_example : redacted_target settings ≡ redacted_target other_settings
redacted_target-no_leak_example =
    redacted_target-no_leak settings other_settings
      (record { backend = refl; host = refl; port = refl; name = refl })

abbrev half_set : AcmeDnsConfig
half_set = record {
  server_url = "https://acme-dns.example";
  username = some "user";
  password = none;
  subdomain = none;
  accounts = [];
}

abbrev dns : DnsConfig
dns = record {
  provider = some acmedns;
  cloudflare_settings = none;
  gcloud_settings = none;
  azure_settings = none;
  acmedns_settings = some half_set;
}

resolve-Resolves_example :
    Resolves dns (chosen_kind dns "production") (resolve (λ text. text) dns "production")
resolve-Resolves_example = resolve-Resolves (λ text. text) dns "production"
