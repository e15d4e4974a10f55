-- ===== src/Tests/Vault.antt =====
-- The theorems on Vault, with a server that answers and one that is down.
use status_list_server.Base.{
  ℕ, ◌+◌, ◌*◌, true, String, none, some, List, ok, err, ◌≡◌, refl, arith, ◌⊎◌,
}
use status_list_server.Base.Chars.{into_bytes, all_chars}
use status_list_server.Base.Percent.{encode_bytes}
use status_list_server.Certificates.Storage.{backend}
use status_list_server.Certificates.Storage.Keys.{normalize_key}
use status_list_server.Certificates.Storage.Keys.Names.{IsNormal, normalize_key-IsNormal}
use status_list_server.Outbound.Vault.Paths.{VaultPlace, raw_path, qualify_key}
use status_list_server.Outbound.Vault.Paths.Reading.{ReadsAs, qualify_key-ReadsAs}
use status_list_server.Outbound.Vault.Auth.{
  Http, app_role, VaultServer, TokenManager, ensure_valid, locked, renewed, try_renew, full_login,
  re_login, login, perform_login, cooling,
}
use status_list_server.Outbound.Vault.Auth.Leases.{IsWindow, IsLive, ensure_valid-IsLive}
use status_list_server.Outbound.Vault.Auth.Cooldown.{Advances, IsClock, ensure_valid-cools}

abbrev digest : List ℕ → String
digest bytes = "00112233445566778899aabbccddeeff"

abbrev key : String
key = "certs/example.com"

abbrev place : VaultPlace
place = record { addr = "http://vault:8200"; mount = "secret"; path_prefix = "lists?" }

qualify_key-ReadsAs_example :
    ReadsAs (raw_path "lists?" (normalize_key digest key)) (qualify_key digest place key)
qualify_key-ReadsAs_example = qualify_key-ReadsAs digest place key

normalize_key-IsNormal_example : IsNormal digest (normalize_key digest key)
unfolding all_chars
normalize_key-IsNormal_example = normalize_key-IsNormal digest key (λ bytes. refl)

abbrev server : VaultServer
server = record {
  addr = "http://vault:8200";
  namespace = none;
  login_by = app_role "role" "secret" "approle";
}

-- The state is the clock; a request takes a second.
abbrev answering : Http ℕ
answering = record {
  send = λ request t. (ok (record { status = 200; text = "{}" }), t + 1000000000);
  read_to_string = λ path t. (ok "jwt", t);
  now = λ t. t;
  auth_of = λ response. ok (record { client_token = "new"; lease_duration = 60; renewable = true });
  show_status = λ status. "status";
  value_of = λ response. ok "value";
  from_ascii = λ bytes. "path";
}

abbrev down : Http ℕ
down = record answering { send = λ request t. (err "refused", t + 1000000000) }

abbrev window : ℕ → ℕ
window lease = lease * 800000000

window-IsWindow : IsWindow window
window-IsWindow lease = omega arith

abbrev old : TokenManager
old = record {
  token = "old";
  issued_at = 0;
  lease_duration = 60;
  renewable = true;
  last_failure = none;
}

ensure_valid-IsLive_example :
    IsLive (record old { token = "new"; issued_at = 51000000000 }) 51000000000
unfolding ensure_valid locked renewed try_renew into_bytes
ensure_valid-IsLive_example =
    ensure_valid-IsLive answering server window (λ state. state) (old, 50000000000)
      (record old { token = "new"; issued_at = 51000000000 }) 51000000000 window-IsWindow refl

down-IsClock : IsClock down
unfolding Advances
down-IsClock = record { sends = λ request t. omega arith; reads = λ path t. omega arith }

abbrev failed : TokenManager
failed = record old { last_failure = some 52000000000 }

ensure_valid-cools_example :
    ((backend "refused" ≡ cooling down server) ⊎ (failed.last_failure ≡ some 52000000000))
    × (ensure_valid down server window (λ state. state) (failed, 53000000000)
        ≡ (err (cooling down server), (failed, 53000000000)))
unfolding ensure_valid locked renewed try_renew full_login re_login login perform_login into_bytes
    encode_bytes
ensure_valid-cools_example =
    ensure_valid-cools down server window (λ state. state) (old, 50000000000) (backend "refused")
      failed 52000000000 53000000000 down-IsClock refl (omega arith) (omega arith)
