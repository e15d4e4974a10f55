-- ===== src/Certificates/Challenge/AcmeDns/Accounts.antt =====
-- Each domain that is listed gets the account it is listed with.
use text.Mathlib.Text.{◌==◌ as str_eq}
use text.Mathlib.TextEquality.{eq_iff}
use mathlib.Core.Option.{some-injective}
use status_list_server.Base.{
  true, Bool-cases, String, Option, none, some, List, [], ◌∷◌, ok, ok-injective, err-ne-ok,
  >>=-eq-ok, ◌≡◌, refl, sym, ap, ◌∙◌, ◌⊎◌, inl, inr,
}
use status_list_server.Base.Dict.{lookup, lookup-insert}
use status_list_server.Config.Dns.{AcmeDnsAccount}
use status_list_server.Certificates.Challenge.AcmeDns.{
  Named, normalize_domain, same_account, AcmeDnsProvider, entered, normalized_from, accounts_of,
  new, credentials_for,
}

abbrev pub IsListed : String → AcmeDnsAccount → List (String × AcmeDnsAccount) → Type 0
IsListed domain account [] = ⊥
IsListed domain account ((d, a) ∷ accounts) =
    ((domain ≡ d) × (account ≡ a)) ⊎ IsListed domain account accounts

str_eq_refl : (s : String) → str_eq s s ≡ true
str_eq_refl s = (eq_iff s s).1 refl

same_account_refl : (a : AcmeDnsAccount) → same_account a a ≡ true
same_account_refl a =
    rw (str_eq_refl a.username, str_eq_refl a.subdomain, str_eq_refl a.password) refl

entered-keeps :
    (found : Option (String × AcmeDnsAccount)) (domain : String) (account : AcmeDnsAccount)
    (named next : Named) (key : String) (value : String × AcmeDnsAccount)
    → lookup (normalize_domain domain) named ≡ found
    → entered found domain account named ≡ ok next
    → lookup key named ≡ some value
    → lookup key next ≡ some value
entered-keeps none domain account named next key value missing done kept =
    elim (Bool-cases (str_eq (normalize_domain domain) key)) [
      | inl same ↦
          let clash =
            sym missing
            ∙ ap (λ k. lookup k named) ((eq_iff (normalize_domain domain) key).0 same)
            ∙ kept in
          cc
      | inr other ↦
          rw
            (
              sym (ok-injective done),
              lookup-insert (normalize_domain domain) key (domain, account) named,
              other,
            )
            kept
    ]
entered-keeps (some (d, existing)) domain account named next key value found done kept =
    elim (Bool-cases (same_account existing account)) [
      | inl same ↦ ap (lookup key) (sym (ok-injective (rw same at done))) ∙ kept
      | inr other ↦ absurd (err-ne-ok (rw other at done))
    ]

-- An entry with the same account.
abbrev Holds : String → AcmeDnsAccount → Named → Type 0
Holds key account named =
    (value : String × AcmeDnsAccount) × (lookup key named ≡ some value)
    × (same_account value.1 account ≡ true)

entered-Holds :
    (found : Option (String × AcmeDnsAccount)) (domain : String) (account : AcmeDnsAccount)
    (named next : Named)
    → lookup (normalize_domain domain) named ≡ found
    → entered found domain account named ≡ ok next
    → Holds (normalize_domain domain) account next
entered-Holds none domain account named next missing done =
    let key = normalize_domain domain in
    (
      (domain, account),
      rw (sym (ok-injective done), lookup-insert key key (domain, account) named, str_eq_refl key)
          refl,
      same_account_refl account,
    )
entered-Holds (some (d, existing)) domain account named next found done =
    elim (Bool-cases (same_account existing account)) [
      | inl same ↦ (
        (d, existing),
        ap (lookup (normalize_domain domain)) (sym (ok-injective (rw same at done))) ∙ found,
        same,
      )
      | inr other ↦ absurd (err-ne-ok (rw other at done))
    ]

normalized_from-keeps :
    (accounts : List (String × AcmeDnsAccount)) (named last : Named) (key : String)
    (value : String × AcmeDnsAccount)
    → normalized_from accounts named ≡ ok last
    → lookup key named ≡ some value
    → lookup key last ≡ some value
unfolding normalized_from
normalized_from-keeps [] named last key value done kept =
    ap (lookup key) (sym (ok-injective done)) ∙ kept
normalized_from-keeps ((domain, account) ∷ accounts) named last key value done kept =
    let found = lookup (normalize_domain domain) named in
    let (next, step, rest) =
      >>=-eq-ok (entered found domain account named) (normalized_from accounts) done in
    normalized_from-keeps accounts next last key value rest
      (entered-keeps found domain account named next key value refl step kept)

normalized_from-Holds :
    (accounts : List (String × AcmeDnsAccount)) (named last : Named) (domain : String)
    (account : AcmeDnsAccount)
    → normalized_from accounts named ≡ ok last
    → IsListed domain account accounts
    → Holds (normalize_domain domain) account last
unfolding normalized_from
normalized_from-Holds [] named last domain account done listed = absurd listed
normalized_from-Holds ((d, a) ∷ accounts) named last domain account done listed =
    let found = lookup (normalize_domain d) named in
    let (next, step, rest) = >>=-eq-ok (entered found d a named) (normalized_from accounts) done in
    elim listed [
      | inl (same_domain, same) ↦
          let (value, at_key, equal) = entered-Holds found d a named next refl step in
          rw (same_domain, same)
            (
              value,
              normalized_from-keeps accounts next last (normalize_domain d) value rest at_key,
              equal,
            )
      | inr later ↦ normalized_from-Holds accounts next last domain account rest later
    ]

lookup-accounts_of :
    (named : Named) (key : String) (value : String × AcmeDnsAccount)
    → lookup key named ≡ some value
    → lookup key (accounts_of named) ≡ some value.1
unfolding lookup
lookup-accounts_of [] key value h = cc
lookup-accounts_of ((k, (d, a)) ∷ named) key value h = elim (Bool-cases (str_eq k key)) [
  | inl same ↦
      let here = rw same at h in
      rw same (ap (λ o. some o) (ap (λ v. v.1) (some-injective _ _ here)))
  | inr other ↦ rw other (lookup-accounts_of named key value (rw other at h))
]

-- Where a provider is made of the listed accounts: a domain that normalizes as a listed one does
-- is served by an account with the credentials that this one is listed with, so no entry
-- overrides another.
pub new-Serves :
    (server_url : String) (default_account : Option AcmeDnsAccount)
    (accounts : List (String × AcmeDnsAccount)) (provider : AcmeDnsProvider) (domain asked : String)
    (account : AcmeDnsAccount)
    → new server_url default_account accounts ≡ ok provider
    → IsListed domain account accounts
    → normalize_domain asked ≡ normalize_domain domain
    → (served : AcmeDnsAccount) × (credentials_for provider asked ≡ ok served)
      × (same_account served account ≡ true)
unfolding new credentials_for
new-Serves server_url default_account accounts provider domain asked account made listed same =
    let (named, all, last) = >>=-eq-ok (normalized_from accounts []) _ made in
    let (value, at_key, equal) =
      normalized_from-Holds accounts [] named domain account all listed in
    (
      value.1,
      rw
          (
            sym (ok-injective last),
            same,
            lookup-accounts_of named (normalize_domain domain) value at_key,
          )
          refl,
      equal,
    )
