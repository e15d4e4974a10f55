-- ===== src/Config/Dns.antt =====
-- The DNS provider of the certificates' challenge, in the settings of src/config.rs. How Rust's
-- `Debug` writes a text is a parameter.
pub mod Usable
pub mod Resolve
use Prim.Native.Char.{Char, code}
use Prim.Native.String as Str
use package.text.Mathlib.Text.{◌==◌ as str_eq}
use status_list_server.Base.{
  ◌==◌, Bool, true, false, not, ◌&&◌, ◌||◌, String, Option, none, some, is_some, List, [], ◌∷◌,
  if◌then◌else◌, Outcome, ok, err, ok_or, ◌>>=◌, ◌>>◌,
}
use status_list_server.Base.Chars.{is_empty, trim, drop_end, is_char}
use status_list_server.Config.Database.{filter_option}

pub data DnsProviderKind : Type 0 where
  route53 cloudflare gcloud azure acmedns pebble : DnsProviderKind

pub record GcloudDnsConfig : Type 0 where
  pub project_id : String

pub record AzureDnsConfig : Type 0 where
  pub subscription_id : String
  pub resource_group : String

pub record CloudflareDnsConfig : Type 0 where
  pub api_token : String

pub record AcmeDnsAccount : Type 0 where
  pub username : String
  pub password : String
  pub subdomain : String

-- The accounts in the order of the map.
pub record AcmeDnsConfig : Type 0 where
  pub server_url : String
  pub username : Option String
  pub password : Option String
  pub subdomain : Option String
  pub accounts : List (String × AcmeDnsAccount)

pub data ResolvedDnsProvider : Type 0 where
  use_route53 use_pebble : ResolvedDnsProvider
  use_cloudflare : CloudflareDnsConfig → ResolvedDnsProvider
  use_gcloud : GcloudDnsConfig → ResolvedDnsProvider
  use_azure : AzureDnsConfig → ResolvedDnsProvider
  use_acmedns : AcmeDnsConfig → ResolvedDnsProvider

abbrev pub kind : ResolvedDnsProvider → DnsProviderKind
kind use_route53 = route53
kind (use_cloudflare config) = cloudflare
kind (use_gcloud config) = gcloud
kind (use_azure config) = azure
kind (use_acmedns config) = acmedns
kind use_pebble = pebble

pub record DnsConfig : Type 0 where
  pub provider : Option DnsProviderKind
  pub cloudflare_settings : Option CloudflareDnsConfig
  pub gcloud_settings : Option GcloudDnsConfig
  pub azure_settings : Option AzureDnsConfig
  pub acmedns_settings : Option AcmeDnsConfig

abbrev pub is_blank : String → Bool
is_blank s = is_empty (trim s)

abbrev pub non_empty : Option String → Option String
non_empty value = filter_option (λ v. not (is_blank v)) value

abbrev pub account_of : Option String → Option String → Option String → Option AcmeDnsAccount
account_of (some password) (some username) (some subdomain) =
    some (record { username = username; password = password; subdomain = subdomain })
account_of (some password) (some username) none = none
account_of (some password) none subdomain = none
account_of none username subdomain = none

unfoldable pub default_account : AcmeDnsConfig → Option AcmeDnsAccount
default_account self =
    account_of (non_empty self.password) (non_empty self.username) (non_empty self.subdomain)

abbrev pub named_if : Bool → String → List String → List String
named_if holds field fields = if holds then field ∷ fields else fields

-- `join`.
abbrev pub join : String → List String → String
join separator [] = ""
join separator (part ∷ []) = part
join separator (part ∷ next ∷ parts) =
    Str.◌++◌ part (Str.◌++◌ separator (join separator (next ∷ parts)))

abbrev strip_dot : String → String → String
strip_dot Str.[] name = name
strip_dot (Str.◌∷◌ c s) name = if code c == b'.' then s else name

-- `strip_prefix("*.").unwrap_or(name)`.
abbrev strip_wildcard : String → String
strip_wildcard Str.[] = Str.[]
strip_wildcard (Str.◌∷◌ c s) = if code c == b'*' then strip_dot s (Str.◌∷◌ c s) else Str.◌∷◌ c s

abbrev pub names_a_domain : String → Bool
names_a_domain domain = not (is_empty (drop_end (is_char b'.') (strip_wildcard (trim domain))))

abbrev pub empty_fields : AcmeDnsAccount → List String
empty_fields account = named_if (is_blank account.username) "username" (
    named_if (is_blank account.password) "password"
      (named_if (is_blank account.subdomain) "subdomain" []))

abbrev no_domain : (String → String) → String → String
no_domain debug domain =
    Str.◌++◌ "ACME-DNS accounts entry " (Str.◌++◌ (debug domain) " does not name a domain")

abbrev incomplete : String → List String → String
incomplete domain fields =
    Str.◌++◌ "ACME-DNS account for "
      (Str.◌++◌ domain (Str.◌++◌ " has empty required fields: " (join ", " fields)))

abbrev pub full_or : String → List String → Outcome String (Unit {0}) → Outcome String (Unit {0})
full_or domain [] rest = rest
full_or domain (field ∷ fields) rest = err (incomplete domain (field ∷ fields))

unfoldable pub validate_accounts :
    (String → String) → List (String × AcmeDnsAccount) → Outcome String (Unit {0})
validate_accounts debug [] = ok tt
validate_accounts debug ((domain, account) ∷ accounts) =
    let rest = validate_accounts debug accounts in
    if not (names_a_domain domain)
    then err (no_domain debug domain)
    else full_or domain (empty_fields account) rest

abbrev pub is_nil : {A : Type 0} → List A → Bool
is_nil [] = true
is_nil (a ∷ rest) = false

abbrev no_url : String
no_url = "ACME-DNS settings have an empty server_url"

abbrev half_account : String
half_account =
    "Incomplete ACME-DNS default account: username, password and subdomain must be set together"

abbrev no_account : String
no_account =
    "ACME-DNS settings need a default account (username/password/subdomain) or a non-empty accounts map"

abbrev pub any_set : Bool → Bool → Bool → Bool
any_set u p s = u || p || s

abbrev pub all_set : Bool → Bool → Bool → Bool
all_set u p s = u && p && s

unfoldable pub validate_acmedns : (String → String) → AcmeDnsConfig → Outcome String (Unit {0})
unfolding default_account validate_accounts
validate_acmedns debug self =
    let u = is_some (non_empty self.username) in
    let p = is_some (non_empty self.password) in
    let s = is_some (non_empty self.subdomain) in
    if is_blank self.server_url
    then err no_url
    else if any_set u p s && not (all_set u p s)
    then err half_account
    else if not (is_some (default_account self)) && is_nil self.accounts
    then err no_account
    else validate_accounts debug self.accounts

abbrev pub none_named : List String → Outcome String (Unit {0})
none_named [] = ok tt
none_named (field ∷ fields) =
    err (Str.◌++◌ "Azure DNS settings have empty required fields: " (join ", " (field ∷ fields)))

unfoldable pub validate_azure : AzureDnsConfig → Outcome String (Unit {0})
validate_azure self = none_named (
    named_if (is_blank self.subscription_id) "subscription_id"
      (named_if (is_blank self.resource_group) "resource_group" []))

unfoldable pub validate_gcloud : GcloudDnsConfig → Outcome String (Unit {0})
validate_gcloud self =
    if is_blank self.project_id
    then err "Google Cloud DNS settings have an empty project_id"
    else ok tt

unfoldable pub validate_cloudflare : CloudflareDnsConfig → Outcome String (Unit {0})
validate_cloudflare self =
    if is_blank self.api_token then err "Cloudflare DNS settings have an empty api_token" else ok tt

-- `Debug` of the kind.
abbrev kind_text : DnsProviderKind → String
kind_text route53 = "Route53"
kind_text cloudflare = "Cloudflare"
kind_text gcloud = "Gcloud"
kind_text azure = "Azure"
kind_text acmedns = "Acmedns"
kind_text pebble = "Pebble"

abbrev pub missing : DnsProviderKind → String → String
missing chosen section = Str.◌++◌ "DNS provider " (
    Str.◌++◌ (kind_text chosen)
      (Str.◌++◌ " selected but the server.cert." (Str.◌++◌ section " settings are missing")))

-- A section that must be there and be valid.
abbrev pub section_of :
    {A : Type 0}
    → Option A
    → String
    → (A → Outcome String (Unit {0}))
    → (A → ResolvedDnsProvider)
    → Outcome String ResolvedDnsProvider
section_of none error validate wrap = err error
section_of (some settings) error validate wrap = validate settings >> ok (wrap settings)

abbrev pub chosen_kind : DnsConfig → String → DnsProviderKind
chosen_kind self app_env = given self.provider
  where
    given : Option DnsProviderKind → DnsProviderKind
    given none = if str_eq app_env "production" then route53 else pebble
    given (some provider) = provider

abbrev pub resolve_kind :
    (String → String) → DnsConfig → DnsProviderKind → Outcome String ResolvedDnsProvider
resolve_kind debug self route53 = ok use_route53
resolve_kind debug self pebble = ok use_pebble
resolve_kind debug self cloudflare =
    section_of self.cloudflare_settings (missing cloudflare "dns.cloudflare") validate_cloudflare
      use_cloudflare
resolve_kind debug self gcloud =
    section_of self.gcloud_settings (missing gcloud "dns.gcloud") validate_gcloud use_gcloud
resolve_kind debug self azure =
    section_of self.azure_settings (missing azure "dns.azure") validate_azure use_azure
resolve_kind debug self acmedns =
    section_of self.acmedns_settings (missing acmedns "dns.acmedns") (validate_acmedns debug)
      use_acmedns

unfoldable pub resolve : (String → String) → DnsConfig → String → Outcome String ResolvedDnsProvider
resolve debug self app_env = resolve_kind debug self (chosen_kind self app_env)
