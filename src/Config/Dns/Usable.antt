-- ===== src/Config/Dns/Usable.antt =====
-- Which settings of a DNS provider can be used.
use status_list_server.Base.{
  Bool, true, false, Bool-cases, String, Option, none, some, is_some, List, [], ◌∷◌, Outcome, ok,
  err, ◌≡◌, refl, ◌⊎◌, inl, inr, ◌≢◌,
}
use status_list_server.Config.Dns.{
  DnsProviderKind, route53, cloudflare, gcloud, azure, acmedns, pebble, GcloudDnsConfig,
  AzureDnsConfig, CloudflareDnsConfig, AcmeDnsAccount, AcmeDnsConfig, DnsConfig, is_blank,
  non_empty, any_set, all_set, default_account, account_of, names_a_domain, empty_fields, full_or,
  validate_accounts, is_nil, validate_azure, validate_gcloud, validate_cloudflare,
}

-- A text that is more than white space.
abbrev pub HasText : String → Type 0
HasText s = is_blank s ≡ false

abbrev pub IsGiven : Option String → Type 0
IsGiven none = ⊥
IsGiven (some s) = HasText s

pub record IsFull (account : AcmeDnsAccount) : Type 0 where
  pub username : HasText account.username
  pub password : HasText account.password
  pub subdomain : HasText account.subdomain

abbrev pub AreUsable : List (String × AcmeDnsAccount) → Type 0
AreUsable [] = Unit {0}
AreUsable ((domain, account) ∷ accounts) =
    (names_a_domain domain ≡ true) × IsFull account × AreUsable accounts

-- The three fields of the default account.
abbrev pub AllGiven : AcmeDnsConfig → Type 0
AllGiven config = IsGiven config.username × IsGiven config.password × IsGiven config.subdomain

abbrev pub NoneGiven : AcmeDnsConfig → Type 0
NoneGiven config =
    ¬ (IsGiven config.username) × ¬ (IsGiven config.password) × ¬ (IsGiven config.subdomain)

pub record IsUsableAcme (config : AcmeDnsConfig) : Type 0 where
  pub server_url : HasText config.server_url
  pub account : AllGiven config ⊎ (NoneGiven config × config.accounts ≢ [])
  pub entries : AreUsable config.accounts

abbrev pub IsSection : {A : Type 0} → (A → Type 0) → Option A → Type 0
IsSection P none = ⊥
IsSection P (some settings) = P settings

abbrev pub IsUsable : DnsConfig → DnsProviderKind → Type 0
IsUsable config route53 = Unit {0}
IsUsable config pebble = Unit {0}
IsUsable config cloudflare = IsSection (λ s. HasText s.api_token) config.cloudflare_settings
IsUsable config gcloud = IsSection (λ s. HasText s.project_id) config.gcloud_settings
IsUsable config azure =
    IsSection (λ s. HasText s.subscription_id × HasText s.resource_group) config.azure_settings
IsUsable config acmedns = IsSection IsUsableAcme config.acmedns_settings

abbrev pub is_err : {A : Type 0} → Outcome String A → Bool
is_err (ok a) = false
is_err (err e) = true
is_err Outcome.panic = false

-- A check that passes exactly where a property holds, and otherwise fails with an error.
abbrev pub Checks : Type 0 → Outcome String (Unit {0}) → Type 0
Checks P answer = ((answer ≡ ok tt) × P) ⊎ ((is_err answer ≡ true) × ¬ P)

pub validate_cloudflare-Checks :
    (config : CloudflareDnsConfig) → Checks (HasText config.api_token) (validate_cloudflare config)
unfolding validate_cloudflare
validate_cloudflare-Checks config = elim (Bool-cases (is_blank config.api_token)) [
  | inl blank ↦ inr (rw blank refl, λ text. cc)
  | inr text ↦ inl (rw text refl, text)
]

pub validate_gcloud-Checks :
    (config : GcloudDnsConfig) → Checks (HasText config.project_id) (validate_gcloud config)
unfolding validate_gcloud
validate_gcloud-Checks config = elim (Bool-cases (is_blank config.project_id)) [
  | inl blank ↦ inr (rw blank refl, λ text. cc)
  | inr text ↦ inl (rw text refl, text)
]

pub validate_azure-Checks :
    (config : AzureDnsConfig)
    → Checks
        (HasText config.subscription_id × HasText config.resource_group)
        (validate_azure config)
unfolding validate_azure
validate_azure-Checks config = elim (Bool-cases (is_blank config.subscription_id)) [
  | inl blank ↦ inr (rw blank refl, λ texts. let t = texts.0 in cc)
  | inr id ↦ elim (Bool-cases (is_blank config.resource_group)) [
    | inl blank ↦ inr (rw (id, blank) refl, λ texts. let t = texts.1 in cc)
    | inr group ↦ inl (rw (id, group) refl, (id, group))
  ]
]

IsFull-cases :
    (account : AcmeDnsAccount)
    → ((empty_fields account ≡ []) × IsFull account)
      ⊎ ((is_nil (empty_fields account) ≡ false) × ¬ (IsFull account))
IsFull-cases account = elim (Bool-cases (is_blank account.username)) [
  | inl blank ↦ inr (rw blank refl, λ full. let t = full.username in cc)
  | inr username ↦ elim (Bool-cases (is_blank account.password)) [
    | inl blank ↦ inr (rw (username, blank) refl, λ full. let t = full.password in cc)
    | inr password ↦ elim (Bool-cases (is_blank account.subdomain)) [
      | inl blank ↦ inr (rw (username, password, blank) refl, λ full. let t = full.subdomain in cc)
      | inr subdomain ↦ inl (
        rw (username, password, subdomain) refl,
        record { username = username; password = password; subdomain = subdomain },
      )
    ]
  ]
]

full_or-err :
    (domain : String) (fields : List String) (rest : Outcome String (Unit {0}))
    → is_nil fields ≡ false
    → is_err (full_or domain fields rest) ≡ true
full_or-err domain [] rest h = cc
full_or-err domain (field ∷ fields) rest h = refl

pub validate_accounts-Checks :
    (debug : String → String) (accounts : List (String × AcmeDnsAccount))
    → Checks (AreUsable accounts) (validate_accounts debug accounts)
unfolding validate_accounts
validate_accounts-Checks debug [] = inl (refl, tt)
validate_accounts-Checks debug ((domain, account) ∷ accounts) =
    elim (Bool-cases (names_a_domain domain)) [
      | inr unnamed ↦ inr (rw unnamed refl, λ usable. let t = usable.0 in cc)
      | inl named ↦ elim (IsFull-cases account) [
        | inr (empty, unfull) ↦ inr (
          rw named
              (full_or-err domain (empty_fields account) (validate_accounts debug accounts) empty),
          λ usable. unfull usable.1,
        )
        | inl (none_empty, full) ↦ elim (validate_accounts-Checks debug accounts) [
          | inl (passes, usable) ↦ inl (rw (named, none_empty) passes, (named, full, usable))
          | inr (fails, unusable) ↦ inr (rw (named, none_empty) fails, λ usable. unusable usable.2)
        ]
      ]
    ]

IsGiven-cases :
    (value : Option String)
    → ((is_some (non_empty value) ≡ true) × IsGiven value)
      ⊎ ((is_some (non_empty value) ≡ false) × ¬ (IsGiven value))
IsGiven-cases none = inr (refl, λ given. given)
IsGiven-cases (some s) = elim (Bool-cases (is_blank s)) [
  | inl blank ↦ inr (rw blank refl, λ text. cc)
  | inr text ↦ inl (rw text refl, text)
]

pub default_account-is_some :
    (config : AcmeDnsConfig)
    → is_some (default_account config)
      ≡ all_set
          (is_some (non_empty config.username))
          (is_some (non_empty config.password))
          (is_some (non_empty config.subdomain))
unfolding default_account
default_account-is_some config =
    by_fields (non_empty config.username) (non_empty config.password) (non_empty config.subdomain)
  where
    by_fields :
        (u p s : Option String)
        → is_some (account_of p u s) ≡ all_set (is_some u) (is_some p) (is_some s)
    by_fields none none s = refl
    by_fields none (some p) s = refl
    by_fields (some u) none s = refl
    by_fields (some u) (some p) none = refl
    by_fields (some u) (some p) (some s) = refl

-- All three fields, none, or a part of them.
pub account-cases :
    (config : AcmeDnsConfig)
    → let u = is_some (non_empty config.username) in
      let p = is_some (non_empty config.password) in
      let s = is_some (non_empty config.subdomain) in
      ((all_set u p s ≡ true) × (any_set u p s ≡ true) × AllGiven config)
      ⊎ ((all_set u p s ≡ false) × (any_set u p s ≡ false) × NoneGiven config)
      ⊎ ((all_set u p s ≡ false)
          × (any_set u p s ≡ true)
          × ¬ (AllGiven config)
          × ¬ (NoneGiven config))
account-cases config = elim (IsGiven-cases config.username) [
  | inl (u, user) ↦ elim (IsGiven-cases config.password) [
    | inl (p, pass) ↦ elim (IsGiven-cases config.subdomain) [
      | inl (s, sub) ↦ inl (rw (u, p, s) refl, rw u refl, (user, pass, sub))
      | inr (s, no_sub) ↦
          inr (inr (rw (u, p, s) refl, rw u refl, λ all. no_sub all.2, λ nothing. nothing.0 user))
    ]
    | inr (p, no_pass) ↦
        inr (inr (rw (u, p) refl, rw u refl, λ all. no_pass all.1, λ nothing. nothing.0 user))
  ]
  | inr (u, no_user) ↦ elim (IsGiven-cases config.password) [
    | inl (p, pass) ↦
        inr (inr (rw u refl, rw (u, p) refl, λ all. no_user all.0, λ nothing. nothing.1 pass))
    | inr (p, no_pass) ↦ elim (IsGiven-cases config.subdomain) [
      | inl (s, sub) ↦
          inr (inr (rw u refl, rw (u, p, s) refl, λ all. no_user all.0, λ nothing. nothing.2 sub))
      | inr (s, no_sub) ↦ inr (inl (rw u refl, rw (u, p, s) refl, (no_user, no_pass, no_sub)))
    ]
  ]
]

pub List-cases : {A : Type 0} (xs : List A) → (xs ≡ []) ⊎ ((is_nil xs ≡ false) × (xs ≢ []))
List-cases [] = inl refl
List-cases (x ∷ xs) = inr (refl, λ h. cc)
