-- ===== src/Server/Conditional.antt =====
-- src/server/handlers/status_list/utils/conditional.rs and etag.rs. The dates of HTTP and the digest
-- are parameters.
pub mod Splits
pub mod Tags
use Prim.Native.String as Str
use Prim.Native.Char.{Char, code}
use text.Mathlib.Text.{◌==◌ as str_eq}
use status_list_server.Base.{
  ℕ, ◌==◌, ℤ, leb_ℤ, ltb_ℤ, show_ℕ, show_ℤ, String, Bool, true, false, ◌&&◌, Option, none, some,
  is_some, map_option, List, [], ◌∷◌, if◌then◌else◌,
}
use status_list_server.Base.Chars.{is_empty, trim, trim_matches, split}
use status_list_server.Domain.Model.{StatusListRecord, StatusListSnapshot}

pub data ConditionalResponse : Type 0 where
  not_modified modified : ConditionalResponse

abbrev pub is_comma : Char → Bool
is_comma c = code c == 44

abbrev pub is_quote : Char → Bool
is_quote c = code c == 34

-- `trim_start_matches("W/")`.
unfoldable pub drop_weak : String → String
drop_weak Str.[] = Str.[]
drop_weak (Str.◌∷◌ c Str.[]) = Str.◌∷◌ c Str.[]
drop_weak (Str.◌∷◌ c (Str.◌∷◌ d s)) =
    let rest = drop_weak s in
    if (code c == 87) && (code d == 47) then rest else Str.◌∷◌ c (Str.◌∷◌ d s)

unfoldable pub normalize_etag : String → String
unfolding drop_weak
normalize_etag etag = trim_matches is_quote (drop_weak (trim etag))

unfoldable pub etag_eq_weak : String → String → Bool
unfolding normalize_etag
etag_eq_weak a b = str_eq (normalize_etag a) (normalize_etag b)

unfoldable pub evaluate_entries : List String → String → ConditionalResponse
unfolding etag_eq_weak
evaluate_entries [] current_etag = modified
evaluate_entries (entry ∷ entries) current_etag =
    let rest = evaluate_entries entries current_etag in
    if is_empty (trim entry)
    then rest
    else if etag_eq_weak (trim entry) current_etag
    then not_modified
    else rest

unfoldable pub evaluate_if_none_match : Option String → String → ConditionalResponse
evaluate_if_none_match none current_etag = modified
evaluate_if_none_match (some header_value) current_etag =
    if str_eq (trim header_value) "*"
    then not_modified
    else evaluate_entries (split is_comma header_value) current_etag

-- What the code uses of `OffsetDateTime`, a `D`.
pub record TimeLibrary (D : Type 0) : Type 0 where
  pub from_unix_timestamp : ℤ → Option D
  pub unix_timestamp : D → ℤ
  pub unix_epoch : D
  -- In the format IMF-fixdate, and in that of RFC 2822.
  pub format_fixdate : D → Option String
  pub parse_fixdate : String → Option D
  pub parse_rfc2822 : String → Option D

abbrev unwrap_or : {A : Type 0} → Option A → A → A
unwrap_or none a = a
unwrap_or (some b) a = b

abbrev or_else : {A : Type 0} → Option A → Option A → Option A
or_else none b = b
or_else (some a) b = some a

module _ {D : Type 0} (time : TimeLibrary D) where
  unfoldable pub format_http_date : ℤ → String
  format_http_date unix_timestamp =
      unwrap_or
        (time.format_fixdate (unwrap_or (time.from_unix_timestamp unix_timestamp) time.unix_epoch))
        "Thu, 01 Jan 1970 00:00:00 GMT"

  unfoldable pub parse_http_date : String → Option ℤ
  parse_http_date date_str =
      map_option time.unix_timestamp
        (or_else (time.parse_fixdate date_str) (time.parse_rfc2822 date_str))

  abbrev pub evaluate_since : ℤ → Option ℤ → ℤ → ConditionalResponse
  evaluate_since updated_at none now = modified
  evaluate_since updated_at (some client_timestamp) now =
      if ltb_ℤ now client_timestamp
      then modified
      else if leb_ℤ updated_at client_timestamp
      then not_modified
      else modified

  unfoldable pub evaluate_if_modified_since : Option String → ℤ → ℤ → ConditionalResponse
  evaluate_if_modified_since none updated_at now = modified
  evaluate_if_modified_since (some header_value) updated_at now =
      evaluate_since updated_at (parse_http_date header_value) now

  -- With the clock's time.
  unfoldable pub evaluate_conditional_request :
      Option String → Option String → String → ℤ → ℤ → ConditionalResponse
  evaluate_conditional_request if_none_match if_modified_since current_etag updated_at now =
      if is_some if_none_match
      then evaluate_if_none_match if_none_match current_etag
      else evaluate_if_modified_since if_modified_since updated_at now

-- SHA-256 in hexadecimal digits, of the bytes of a text.
module _ (digest : String → String) where
  abbrev pub digested : StatusListRecord → String
  digested r =
      Str.◌++◌ (show_ℕ r.status_list.bits)
        (Str.◌++◌ r.status_list.lst (Str.◌++◌ r.issuer.name r.sub))

  unfoldable pub generate_etag : StatusListRecord → String
  generate_etag r = Str.◌++◌ "W/\"" (Str.◌++◌ (digest (digested r)) "\"")

  unfoldable pub generate_historical_etag : StatusListSnapshot → String
  generate_historical_etag x = digest (
      Str.◌++◌ x.snapshot_id (
        Str.◌++◌ (show_ℤ x.iat)
          (Str.◌++◌ (show_ℤ x.exp) (Str.◌++◌ x.status_list.lst x.issuer.name))))
