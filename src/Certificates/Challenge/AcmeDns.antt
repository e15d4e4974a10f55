-- ===== src/Certificates/Challenge/AcmeDns.antt =====
-- The accounts of ACME-DNS, src/utils/cert_manager/challenge/dns01/acme_dns.rs. An error is its
-- text. The HTTP client is a parameter.
pub mod Accounts
use Prim.Native.Char.{Char, code}
use Prim.Native.String as Str
use text.Mathlib.Text.{◌==◌ as str_eq}
use status_list_server.Base.{
  ℕ, ltb, ◌==◌, Bool, true, false, ◌&&◌, String, Option, none, some, List, [], ◌∷◌, ◌++◌, length,
  if◌then◌else◌, Outcome, ok, err, ok_or, ◌>>=◌, ◌>>◌, show_ℕ,
}
use status_list_server.Base.Chars.{trim, drop_end, is_char, to_ascii_lowercase}
use status_list_server.Base.Dict.{lookup, insert}
use status_list_server.Config.Dns.{AcmeDnsAccount, join}

-- `strip_prefix("*.").unwrap_or(domain)`.
abbrev strip_dot : String → String → String
strip_dot Str.[] domain = domain
strip_dot (Str.◌∷◌ c s) domain = if code c == b'.' then s else domain

abbrev strip_wildcard : String → String
strip_wildcard Str.[] = Str.[]
strip_wildcard (Str.◌∷◌ c s) = if code c == b'*' then strip_dot s (Str.◌∷◌ c s) else Str.◌∷◌ c s

unfoldable pub normalize_domain : String → String
unfolding to_ascii_lowercase drop_end
normalize_domain domain =
    to_ascii_lowercase (strip_wildcard (drop_end (is_char b'.') (trim domain)))

abbrev pub same_account : AcmeDnsAccount → AcmeDnsAccount → Bool
same_account a b =
    str_eq a.username b.username && str_eq a.subdomain b.subdomain && str_eq a.password b.password

abbrev conflicting : String → String → String → String
conflicting other domain name = Str.◌++◌ "Conflicting ACME-DNS accounts: entries " (
    Str.◌++◌ other (
      Str.◌++◌ " and " (
        Str.◌++◌ domain
          (Str.◌++◌ " both normalize to " (Str.◌++◌ name " but hold different credentials")))))

pub record AcmeDnsProvider : Type 0 where
  pub server_url : String
  pub default_account : Option AcmeDnsAccount
  pub accounts : List (String × AcmeDnsAccount)

abbrev Named : Type 0
Named = List (String × (String × AcmeDnsAccount))

-- `entry(..)`: the domain that was listed first stays with the account.
abbrev pub entered :
    Option (String × AcmeDnsAccount) → String → AcmeDnsAccount → Named → Outcome String Named
entered none domain account normalized =
    ok (insert (normalize_domain domain) (domain, account) normalized)
entered (some (other, existing)) domain account normalized =
    if same_account existing account
    then ok normalized
    else err (conflicting other domain (normalize_domain domain))

unfoldable pub normalized_from : List (String × AcmeDnsAccount) → Named → Outcome String Named
unfolding normalize_domain lookup insert
normalized_from [] normalized = ok normalized
normalized_from ((domain, account) ∷ accounts) normalized =
    entered (lookup (normalize_domain domain) normalized) domain account normalized
    >>= normalized_from accounts

abbrev pub accounts_of : Named → List (String × AcmeDnsAccount)
accounts_of [] = []
accounts_of ((key, (domain, account)) ∷ rest) = (key, account) ∷ accounts_of rest

unfoldable pub new :
    String → Option AcmeDnsAccount → List (String × AcmeDnsAccount) → Outcome String AcmeDnsProvider
unfolding normalized_from drop_end
new server_url default_account accounts = normalized_from accounts [] >>= λ normalized. ok (record {
  server_url = drop_end (is_char b'/') server_url;
  default_account = default_account;
  accounts = accounts_of normalized;
})

-- `Option::or`.
abbrev or_default : Option AcmeDnsAccount → Option AcmeDnsAccount → Option AcmeDnsAccount
or_default none default = default
or_default (some account) default = some account

abbrev no_account_for : String → String
no_account_for domain =
    Str.◌++◌ "No ACME-DNS account configured for "
      (Str.◌++◌ domain " and no default account is set")

module _ (self : AcmeDnsProvider) where
  unfoldable pub credentials_for : String → Outcome String AcmeDnsAccount
  unfolding normalize_domain lookup
  credentials_for domain =
      ok_or (or_default (lookup (normalize_domain domain) self.accounts) self.default_account)
        (no_account_for domain)

  -- The domains of each subdomain, in the order of the request.
  abbrev push_domain :
      Option (List String)
      → String
      → String
      → List (String × List String)
      → List (String × List String)
  push_domain none subdomain domain by_account = insert subdomain (domain ∷ []) by_account
  push_domain (some domains) subdomain domain by_account =
      insert subdomain (domains ++ (domain ∷ [])) by_account

  unfoldable pub group :
      List String → List (String × List String) → Outcome String (List (String × List String))
  unfolding credentials_for lookup insert
  group [] by_account = ok by_account
  group (domain ∷ domains) by_account = credentials_for domain >>= λ account.
      group domains
        (push_domain (lookup account.subdomain by_account) account.subdomain domain by_account)

  abbrev overloaded : String → List String → String
  overloaded subdomain domains = Str.◌++◌ "The ACME-DNS account with subdomain " (
      Str.◌++◌ subdomain (
        Str.◌++◌ " would serve " (
          Str.◌++◌ (show_ℕ (length domains)) (
            Str.◌++◌ " identifiers (" (
              Str.◌++◌ (join ", " domains)
                "), but ACME-DNS keeps only the two most recent TXT values; register a separate account per domain in the accounts map")))))

  unfoldable pub check_groups : List (String × List String) → Outcome String (Unit {0})
  check_groups [] = ok tt
  check_groups ((subdomain, domains) ∷ groups) =
      let rest = check_groups groups in
      if ltb 2 (length domains) then err (overloaded subdomain domains) else rest

  unfoldable pub check_order_domains : List String → Outcome String (Unit {0})
  unfolding group check_groups
  check_order_domains domains = group domains [] >>= check_groups
