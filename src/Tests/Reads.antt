-- ===== src/Tests/Reads.antt =====
-- The theorems on the reading of lists, over the service in memory.
use Prim.Native.String as Str
use status_list_server.Base.{
  ℤ, pos, ◌≤ℤ◌, String, true, false, Bool-cases, ◌||◌, none, some, [], ◌∷◌, if◌then◌else◌, ok, ◌≡◌,
  refl, arith, inl, inr,
}
use status_list_server.Domain.Service as Service
use status_list_server.Server.Conditional.{
  TimeLibrary, is_comma, is_quote, digested, format_http_date,
}
use status_list_server.Server.Conditional.Splits.{IsOpaque, sent}
use status_list_server.Server.Conditional.Tags.{Names}
use status_list_server.Server.Token.{TokenSigner, TokenConfig, cwt_claims, jwt_claims}
use status_list_server.Server.Token.Claims.{read_cwt, read_jwt, claims, cwt_claims-jwt_claims}
use status_list_server.Server.Reads.{Headers, accept_type, get_status_list}
use status_list_server.Server.Reads.Conditions.{
  IsDate, Revalidates, get_status_list-Revalidates, get_status_list-Since,
}
use status_list_server.Tests.Fixture.{tallies, stored, one_list, in_memory}

-- A digest that leaves out what may not stand in a tag.
unfoldable opaque_part : String → String
opaque_part Str.[] = Str.[]
opaque_part (Str.◌∷◌ c s) =
    let rest = opaque_part s in if is_comma c || is_quote c then rest else Str.◌∷◌ c rest

opaque_part-IsOpaque : (s : String) → IsOpaque (opaque_part s)
unfolding opaque_part
opaque_part-IsOpaque Str.[] = tt
opaque_part-IsOpaque (Str.◌∷◌ c s) = elim (Bool-cases (is_comma c)) [
  | inl comma ↦ rw comma (opaque_part-IsOpaque s)
  | inr plain ↦ elim (Bool-cases (is_quote c)) [
    | inl quoted ↦ rw (plain, quoted) (opaque_part-IsOpaque s)
    | inr unquoted ↦ rw (plain, unquoted) (plain, unquoted, opaque_part-IsOpaque s)
  ]
]

-- A calendar of one day, which reads its dates by RFC 2822 only.
abbrev calendar : TimeLibrary ℤ
calendar = record {
  from_unix_timestamp = λ t. some t;
  unix_timestamp = λ d. d;
  unix_epoch = pos 0;
  format_fixdate = λ d. some "Thu, 01 Jan 1970 00:00:50 GMT";
  parse_fixdate = λ text. none;
  parse_rfc2822 = λ text. some (pos 50);
}

abbrev day_IsDate : IsDate calendar (pos 50)
day_IsDate = record {
  date = pos 50;
  written = "Thu, 01 Jan 1970 00:00:50 GMT";
  read_date = pos 50;
  represents = refl;
  formats = refl;
  parses = inr (refl, refl);
  returns = refl;
}

abbrev signer : TokenSigner String String
signer = record {
  from_pkcs8_pem = λ pem. ok pem;
  to_pkcs8_pem = λ key. ok key;
  from_ec_pem = λ bytes. ok "";
  encode = λ header claims key. ok "token";
  sign = λ key bytes. bytes;
  to_vec = λ value. ok (1 ∷ []);
  to_be_signed = λ header payload. payload;
  to_tagged_vec = λ sign1. ok (2 ∷ []);
  x5chain = pos 33;
  decode_base64url = λ text. ok (7 ∷ []);
  decode_base64 = λ text. ok [];
  gzip = λ bytes. ok bytes;
  join_error = "task panicked";
}

abbrev config : TokenConfig
config = record { aggregation_uri = none; token_exp_secs = 600; token_ttl_secs = 300 }

abbrev tag : String
tag = opaque_part (digested opaque_part stored)

abbrev revisit : Headers
revisit = record {
  accept = some "application/statuslist+cwt";
  if_none_match = some (sent tag []);
  if_modified_since = none;
  client_accepts_gzip = true;
}

get_status_list-Revalidates_example :
    Revalidates in_memory tallies signer calendar opaque_part config
      (λ r. Names (opaque_part (digested opaque_part r)) tag [])
      "application/statuslist+cwt"
      true
      (pos 70)
      (Service.get_status_list in_memory tallies "l" one_list)
      (get_status_list in_memory tallies signer calendar opaque_part config "l"
        (ok none)
        revisit
        (pos 70)
        (pos 70)
        one_list)
get_status_list-Revalidates_example =
    get_status_list-Revalidates in_memory tallies signer calendar opaque_part config
      opaque_part-IsOpaque "l" "application/statuslist+cwt" revisit (pos 70) (pos 70) tag []
      one_list (unfold accept_type in refl) refl
      (opaque_part-IsOpaque (digested opaque_part stored))

abbrev return_later : Headers
return_later = record {
  accept = none;
  if_none_match = none;
  if_modified_since = some (format_http_date calendar (pos 50));
  client_accepts_gzip = false;
}

get_status_list-Since_example :
    Revalidates in_memory tallies signer calendar opaque_part config
      (λ r. r.updated_at ≤ℤ pos 50)
      "application/statuslist+jwt"
      false
      (pos 70)
      (Service.get_status_list in_memory tallies "l" one_list)
      (get_status_list in_memory tallies signer calendar opaque_part config "l"
        (ok none)
        return_later
        (pos 70)
        (pos 70)
        one_list)
get_status_list-Since_example =
    get_status_list-Since in_memory tallies signer calendar opaque_part config "l"
      "application/statuslist+jwt" return_later (pos 70) (pos 70) (pos 50) one_list
      (unfold accept_type in refl) refl refl day_IsDate (omega arith)

cwt_claims-jwt_claims_example :
    (read_cwt (cwt_claims stored (7 ∷ []) none (pos 70) (pos 670) 300)
      ≡ some (claims stored (7 ∷ []) none (pos 70) (pos 670) 300))
    × (read_jwt signer.decode_base64url (jwt_claims stored none (pos 70) (pos 670) 300)
        ≡ some (claims stored (7 ∷ []) none (pos 70) (pos 670) 300))
cwt_claims-jwt_claims_example =
    cwt_claims-jwt_claims signer.decode_base64url stored (7 ∷ []) none (pos 70) (pos 670) 300 refl
      (omega arith)
