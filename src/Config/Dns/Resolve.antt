-- ===== src/Config/Dns/Resolve.antt =====
-- `DnsConfig::resolve` answers a provider exactly where its settings can be used.
use status_list_server.Base.{
  true, false, Bool-cases, String, Option, none, some, [], Outcome, ok, err, ◌>>◌, ◌≡◌, refl, ap,
  ◌∙◌, ◌⊎◌, inl, inr, ◌≢◌,
}
use status_list_server.Config.Dns.{
  DnsProviderKind, route53, cloudflare, gcloud, azure, acmedns, pebble, AcmeDnsConfig,
  ResolvedDnsProvider, use_route53, use_pebble, use_cloudflare, use_gcloud, use_azure, use_acmedns,
  kind, DnsConfig, is_blank, validate_accounts, validate_acmedns, section_of, chosen_kind,
  resolve_kind, resolve,
}
use status_list_server.Config.Dns.Usable.{
  AllGiven, NoneGiven, IsUsableAcme, IsSection, IsUsable, is_err, Checks, validate_accounts-Checks,
  validate_cloudflare-Checks, validate_gcloud-Checks, validate_azure-Checks,
  default_account-is_some, account-cases, List-cases,
}

all_or_none :
    (config : AcmeDnsConfig)
    → ¬ (AllGiven config)
    → ¬ (NoneGiven config)
    → ¬ (AllGiven config ⊎ (NoneGiven config × config.accounts ≢ []))
all_or_none config partial some_given (inl all) = partial all
all_or_none config partial some_given (inr nothing) = some_given nothing.0

with_entries :
    (debug : String → String) (config : AcmeDnsConfig)
    → validate_acmedns debug config ≡ validate_accounts debug config.accounts
    → is_blank config.server_url ≡ false
    → (AllGiven config ⊎ (NoneGiven config × config.accounts ≢ []))
    → Checks (IsUsableAcme config) (validate_acmedns debug config)
with_entries debug config reduced text account =
    elim (validate_accounts-Checks debug config.accounts) [
      | inl (passes, usable) ↦
          inl (reduced ∙ passes, record { server_url = text; account = account; entries = usable })
      | inr (fails, unusable) ↦ inr (ap is_err reduced ∙ fails, λ acme. unusable acme.entries)
    ]

validate_acmedns-Checks :
    (debug : String → String) (config : AcmeDnsConfig)
    → Checks (IsUsableAcme config) (validate_acmedns debug config)
unfolding validate_acmedns
validate_acmedns-Checks debug config = elim (Bool-cases (is_blank config.server_url)) [
  | inl blank ↦ inr (rw blank refl, λ acme. let t = acme.server_url in cc)
  | inr text ↦ elim (account-cases config) [
    | inl (all, any, given) ↦
        with_entries debug config (rw (text, any, default_account-is_some config, all) refl) text
          (inl given)
    | inr (inr (all, any, partial, some_given)) ↦
        inr (rw (text, any, all) refl, λ acme. all_or_none config partial some_given acme.account)
    | inr (inl (all, any, nothing)) ↦ elim (List-cases config.accounts) [
      | inl empty ↦ inr (
        rw (text, any, default_account-is_some config, all, empty) refl,
        λ acme. without_account config nothing empty acme.account,
      )
      | inr (filled, entries) ↦
          with_entries debug config
            (rw (text, any, default_account-is_some config, all, filled) refl) text
            (inr (nothing, entries))
    ]
  ]
]
  where
    without_account :
        (config : AcmeDnsConfig)
        → NoneGiven config
        → config.accounts ≡ []
        → ¬ (AllGiven config ⊎ (NoneGiven config × config.accounts ≢ []))
    without_account config nothing empty (inl all) = nothing.0 all.0
    without_account config nothing empty (inr entries) = entries.1 empty

-- The answer is a provider of this kind where its settings can be used, and else an error.
abbrev pub Resolves : DnsConfig → DnsProviderKind → Outcome String ResolvedDnsProvider → Type 0
Resolves config chosen answer =
    ((provider : ResolvedDnsProvider) × (answer ≡ ok provider)
      × (kind provider ≡ chosen)
      × IsUsable config chosen)
    ⊎ ((is_err answer ≡ true) × ¬ (IsUsable config chosen))

section_of-Resolves :
    {A : Type 0} (P : A → Type 0) (section : Option A) (error : String)
    (validate : A → Outcome String (Unit {0})) (wrap : A → ResolvedDnsProvider)
    (chosen : DnsProviderKind)
    → ((a : A) → Checks (P a) (validate a))
    → ((a : A) → kind (wrap a) ≡ chosen)
    → ((provider : ResolvedDnsProvider) × (section_of section error validate wrap ≡ ok provider)
        × (kind provider ≡ chosen)
        × IsSection P section)
      ⊎ ((is_err (section_of section error validate wrap) ≡ true) × ¬ (IsSection P section))
section_of-Resolves P none error validate wrap chosen checks wraps =
    inr (refl, λ none_there. none_there)
section_of-Resolves P (some a) error validate wrap chosen checks wraps = elim (checks a) [
  | inl (passes, holds) ↦ inl (wrap a, rw passes refl, wraps a, holds)
  | inr (fails, unusable) ↦ inr (stays (validate a) (ok (wrap a)) fails, unusable)
]
  where
    stays :
        {B : Type 0} (run : Outcome String (Unit {0})) (next : Outcome String B)
        → is_err run ≡ true
        → is_err (run >> next) ≡ true
    stays (ok u) next h = cc
    stays (err e) next h = refl
    stays Outcome.panic next h = cc

resolve_kind-Resolves :
    (debug : String → String) (config : DnsConfig) (chosen : DnsProviderKind)
    → Resolves config chosen (resolve_kind debug config chosen)
resolve_kind-Resolves debug config route53 = inl (use_route53, refl, refl, tt)
resolve_kind-Resolves debug config pebble = inl (use_pebble, refl, refl, tt)
resolve_kind-Resolves debug config cloudflare =
    section_of-Resolves _ config.cloudflare_settings _ _ use_cloudflare cloudflare
      validate_cloudflare-Checks (λ s. refl)
resolve_kind-Resolves debug config gcloud =
    section_of-Resolves _ config.gcloud_settings _ _ use_gcloud gcloud validate_gcloud-Checks
      (λ s. refl)
resolve_kind-Resolves debug config azure =
    section_of-Resolves _ config.azure_settings _ _ use_azure azure validate_azure-Checks
      (λ s. refl)
resolve_kind-Resolves debug config acmedns =
    section_of-Resolves _ config.acmedns_settings _ _ use_acmedns acmedns
      (validate_acmedns-Checks debug) (λ s. refl)

-- The DNS settings resolve to a provider of the chosen kind where that kind's settings are there
-- and can be used, and to an error where they are not: for ACME-DNS that means a server, a
-- default account with all of its three fields or none of them, an account at all, and accounts
-- that each name a domain and have no blank field.
pub resolve-Resolves :
    (debug : String → String) (config : DnsConfig) (app_env : String)
    → Resolves config (chosen_kind config app_env) (resolve debug config app_env)
unfolding resolve
resolve-Resolves debug config app_env =
    resolve_kind-Resolves debug config (chosen_kind config app_env)
