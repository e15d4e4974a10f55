-- ===== src/Tests/Challenge.antt =====
-- The theorems on challenges, for zones and accounts.
use status_list_server.Base.{ℕ, true, none, List, [], ◌∷◌, ok, ◌≡◌, refl, inl, inr, String}
use status_list_server.Base.Chars.{drop_start, drop_end, to_ascii_lowercase}
use status_list_server.Base.Dict.{lookup, insert}
use status_list_server.Config.Dns.{AcmeDnsAccount}
use status_list_server.Certificates.Challenge.Zones.{ZoneInfo, find_best_match}
use status_list_server.Certificates.Challenge.Zones.Covers.{In}
use status_list_server.Certificates.Challenge.Zones.Best.{ArePlain, IsBest, find_best_match-IsBest}
use status_list_server.Certificates.Challenge.AcmeDns.{
  AcmeDnsProvider, normalize_domain, normalized_from, same_account, new, credentials_for,
}
use status_list_server.Certificates.Challenge.AcmeDns.Accounts.{new-Serves}

abbrev outer : ZoneInfo
outer = record { name = b'd' ∷ b'e' ∷ []; id = b'1' ∷ [] }

abbrev inner : ZoneInfo
inner = record { name = b'a' ∷ b'.' ∷ b'd' ∷ b'e' ∷ []; id = b'2' ∷ [] }

abbrev zones : List ZoneInfo
zones = outer ∷ inner ∷ []

abbrev domain : List ℕ
domain = b'w' ∷ b'.' ∷ b'a' ∷ b'.' ∷ b'd' ∷ b'e' ∷ []

zones-ArePlain : ArePlain zones
unfolding In
zones-ArePlain z (inl first) = rw first refl
zones-ArePlain z (inr (inl second)) = rw second refl
zones-ArePlain z (inr (inr none_left)) = absurd none_left

find_best_match-IsBest_example : IsBest domain zones (find_best_match domain zones)
find_best_match-IsBest_example = find_best_match-IsBest domain zones zones-ArePlain

abbrev account : AcmeDnsAccount
account = record { username = "user"; password = "key"; subdomain = "sub" }

abbrev listed : List (String × AcmeDnsAccount)
listed = ("*.Example.com", account) ∷ []

abbrev provider : AcmeDnsProvider
provider = record {
  server_url = "https://dns.example";
  default_account = none;
  accounts = ("example.com", account) ∷ [];
}

new-Serves_example :
    (served : AcmeDnsAccount) × (credentials_for provider "example.com." ≡ ok served)
    × (same_account served account ≡ true)
unfolding new normalized_from normalize_domain lookup insert drop_start drop_end to_ascii_lowercase
new-Serves_example =
    new-Serves "https://dns.example/" none listed provider "*.Example.com" "example.com." account
      refl (inl (refl, refl)) refl
