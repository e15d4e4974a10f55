-- ===== src/Certificates/Challenge/Records.antt =====
-- The TXT records of a challenge: the providers of acme_dns.rs and pebble.rs of
-- src/utils/cert_manager/challenge/dns01. The HTTP client is a parameter; the bodies are the fields
-- of a JSON object.
use Prim.Native.String as Str
use status_list_server.Base.{ℕ, ltb, leb, ◌&&◌, String, List, [], ◌∷◌, if◌then◌else◌, map_err}
use status_list_server.Base.Chars.{drop_end, is_char}
use status_list_server.Base.Action.{Action, ◌>>=◌, pure, throw, lift, answering}
use status_list_server.Certificates.Storage.{StorageError}
use status_list_server.Certificates.Challenge.AcmeDns.{AcmeDnsProvider, credentials_for}

pub data ChallengeError : Type 0 where
  dns : String → String → ChallengeError
  zone_not_found io aws_sdk other : String → ChallengeError
  storage : StorageError → ChallengeError

pub record Post : Type 0 where
  pub url : String
  pub headers : List (String × String)
  pub fields : List (String × String)

pub record Answer : Type 0 where
  pub status : ℕ
  pub text : String

-- The provider of the records of a domain.
pub record DnsProvider (S : Type 0) : Type 0 where
  pub create_txt_record : String → String → Action ChallengeError S (Unit {0})
  pub delete_txt_record : String → String → Action ChallengeError S (Unit {0})

module _ {S : Type 0} (send : Post → Action String S Answer) (show_status : ℕ → String) where
  abbrev update_failed : Answer → ChallengeError
  update_failed answer = dns "acmedns" (
      Str.◌++◌ "Failed to update TXT record (status "
        (Str.◌++◌ (show_status answer.status) (Str.◌++◌ "): " answer.text)))

  unfoldable pub acme_dns : AcmeDnsProvider → DnsProvider S
  acme_dns self = record {
    create_txt_record = λ domain value.
        lift (map_err (dns "acmedns") (credentials_for self domain)) >>= λ account.
        answering (dns "acmedns") (
          send (record {
            url = Str.◌++◌ self.server_url "/update";
            headers = ("X-Api-User", account.username) ∷ ("X-Api-Key", account.password) ∷ [];
            fields = ("subdomain", account.subdomain) ∷ ("txt", value) ∷ [];
          }))
        >>= λ answer.
            if leb 200 answer.status && ltb answer.status 300
            then pure tt
            else throw (update_failed answer);
    delete_txt_record = λ domain value. pure tt;
  }

  abbrev record_name : String → String
  record_name domain = Str.◌++◌ "_acme-challenge." (Str.◌++◌ domain ".")

  -- `error_for_status`.
  abbrev checked : String → Answer → Action ChallengeError S (Unit {0})
  checked what answer =
      if leb 400 answer.status && ltb answer.status 600
      then throw (other (Str.◌++◌ what (show_status answer.status)))
      else pure tt

  abbrev sent_to : String → String → List (String × String) → Action ChallengeError S (Unit {0})
  sent_to url what fields =
      answering (λ e. other (Str.◌++◌ "Failed to send request: " e))
        (send (record { url = url; headers = []; fields = fields }))
      >>= checked what

  unfoldable pub pebble : String → DnsProvider S
  unfolding drop_end
  pebble addr = record {
    create_txt_record = λ domain value.
        sent_to (Str.◌++◌ (drop_end (is_char b'/') addr) "/set-txt") "Failed to set TXT record: "
          (("host", record_name domain) ∷ ("value", value) ∷ []);
    delete_txt_record = λ domain value.
        sent_to (Str.◌++◌ (drop_end (is_char b'/') addr) "/clear-txt")
          "Failed to clear TXT record: " (("host", record_name domain) ∷ []);
  }
