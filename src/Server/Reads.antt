-- ===== src/Server/Reads.antt =====
-- src/server/handlers/status_list/get_status_list.rs. The headers of a request are given as `to_str`
-- reads them, and what is read of Accept-Encoding as its answer; the texts of a response's headers
-- are not checked, for all of them are ASCII.
pub mod Conditions
pub mod Encoding
use Prim.Native.String as Str
use text.Mathlib.Text.{◌==◌ as str_eq}
use status_list_server.Base.{
  ℕ, ◌+◌, ◌-◌, ◌%◌, ◌^◌, ℤ, pos, negsuc, pos_part, neg_part, sub_ℕ, leb_ℤ, ltb_ℤ, show_ℕ, String,
  Bool, ◌||◌, Option, none, some, List, [], ◌∷◌, ◌++◌, if◌then◌else◌, Outcome, ok, err, panic,
}
use status_list_server.Base.Action.{Action, ◌>>=◌, pure, throw, answering}
use status_list_server.Domain.Model.{
  StatusListError, StatusListRecord, StatusListSnapshot, invalid_historical_time,
}
use status_list_server.Domain.StatusList.{Codec}
use status_list_server.Domain.Service.{Service}
use status_list_server.Domain.Service as Service
use status_list_server.Server.Constants
use status_list_server.Server.Error.{ApiError, new, bad_request, into_api_error}
use status_list_server.Server.Conditional.{
  TimeLibrary, ConditionalResponse, not_modified, modified, evaluate_conditional_request,
  format_http_date, generate_etag, generate_historical_etag,
}
use status_list_server.Server.Token.{TokenSigner, TokenConfig, build_status_list_token}

pub record Headers : Type 0 where
  pub accept : Option String
  pub if_none_match : Option String
  pub if_modified_since : Option String
  pub client_accepts_gzip : Bool

pub record Response : Type 0 where
  pub status : ℕ
  pub headers : List (String × String)
  pub body : List ℕ

abbrev build_cache_control : ℕ → String
build_cache_control token_ttl_secs =
    Str.◌++◌ "max-age=" (Str.◌++◌ (show_ℕ token_ttl_secs) ", immutable")

unfoldable pub accept_type : Option String → Outcome ApiError String
accept_type none = ok Constants.accept_jwt
accept_type (some accept) =
    if str_eq accept Constants.accept_jwt || str_eq accept Constants.accept_cwt
    then ok accept
    else err (new 406 "invalid_accept_header" (some "Invalid accept header"))

abbrev vary : String × String
vary = ("vary", "Accept, Accept-Encoding")

abbrev encoding_header : Option String → List (String × String)
encoding_header none = []
encoding_header (some enc) = ("content-encoding", enc) ∷ []

-- `as u64` of a difference of `i64`.
abbrev to_u64 : ℤ → ℕ
to_u64 (pos n) = n % 2 ^ 64
to_u64 (negsuc n) = 2 ^ 64 - 1 - n % 2 ^ 64

abbrev duration : ℤ → ℤ → ℕ
duration exp iat = to_u64 (sub_ℕ (pos_part exp + neg_part iat) (pos_part iat + neg_part exp))

abbrev pub record_of_snapshot : StatusListSnapshot → StatusListRecord
record_of_snapshot x = record {
  list_id = x.list_id;
  issuer = x.issuer;
  status_list = x.status_list;
  sub = x.sub;
  updated_at = x.iat;
}

module _ {S D Key Signer : Type 0} (service : Service S) (codec : Codec)
    (signer : TokenSigner Key Signer) (time : TimeLibrary D) (digest : String → String)
    (config : TokenConfig) where
  abbrev token_response : String → String → String → String → List ℕ × Option String → Response
  token_response accept etag last_modified cache_control body = record {
    status = 200;
    headers =
        ("content-type", accept)
        ∷ ("etag", etag)
        ∷ ("last-modified", last_modified)
        ∷ ("cache-control", cache_control)
        ∷ vary
        ∷ encoding_header body.1;
    body = body.0;
  }

  abbrev pub not_modified_response : StatusListRecord → Response
  not_modified_response r = record {
    status = 304;
    headers =
        ("etag", generate_etag digest r)
        ∷ ("last-modified", format_http_date time r.updated_at)
        ∷ ("cache-control", build_cache_control config.token_ttl_secs)
        ∷ vary
        ∷ [];
    body = [];
  }

  -- A fresh token of the record, at the clock's second time.
  unfoldable pub fresh : String → Bool → ℤ → StatusListRecord → Action ApiError S Response
  fresh accept gzip issued r =
      answering into_api_error
        (build_status_list_token signer service config accept r none gzip issued)
      >>= λ body. pure (
          token_response accept (generate_etag digest r) (format_http_date time r.updated_at)
            (build_cache_control config.token_ttl_secs) body)

  abbrev pub answer_record :
      String → Bool → ℤ → StatusListRecord → ConditionalResponse → Action ApiError S Response
  answer_record accept gzip issued r not_modified = pure (not_modified_response r)
  answer_record accept gzip issued r modified = fresh accept gzip issued r

  -- The tail of `get_status_list`.
  unfoldable pub current : String → String → Headers → ℤ → ℤ → Action ApiError S Response
  current list_id accept headers now issued =
      answering into_api_error (Service.get_status_list service codec list_id) >>= λ r.
      answer_record accept headers.client_accepts_gzip issued r (
        evaluate_conditional_request time headers.if_none_match headers.if_modified_since
          (generate_etag digest r) r.updated_at now)

  unfoldable pub handle_historical_request :
      String → ℤ → String → Bool → ℤ → ℤ → Action ApiError S Response
  handle_historical_request list_id at accept gzip now issued =
      if leb_ℤ at (pos 0) || ltb_ℤ now at
      then throw (into_api_error invalid_historical_time)
      else (answering into_api_error (Service.get_snapshot_at service codec list_id at)
          >>= λ snapshot.
              answering into_api_error (
                build_status_list_token signer service config accept (record_of_snapshot snapshot)
                  (some (snapshot.iat, snapshot.exp)) gzip issued)
              >>= λ body. pure (
                  token_response accept (generate_historical_etag digest snapshot)
                    (format_http_date time snapshot.iat)
                    (build_cache_control (duration snapshot.exp snapshot.iat)) body))

  abbrev dispatch : String → Option ℤ → String → Headers → ℤ → ℤ → Action ApiError S Response
  dispatch list_id none accept headers now issued = current list_id accept headers now issued
  dispatch list_id (some at) accept headers now issued =
      handle_historical_request list_id at accept headers.client_accepts_gzip now issued

  abbrev negotiated :
      String → Option ℤ → Outcome ApiError String → Headers → ℤ → ℤ → Action ApiError S Response
  negotiated list_id at (ok accept) headers now issued =
      dispatch list_id at accept headers now issued
  negotiated list_id at (err e) headers now issued = throw e
  negotiated list_id at panic headers now issued = λ s. (panic, s)

  -- With the query as its extractor answers it, and the two times that the clock is read at.
  unfoldable pub get_status_list :
      String → Outcome String (Option ℤ) → Headers → ℤ → ℤ → Action ApiError S Response
  unfolding accept_type current handle_historical_request
  get_status_list list_id (ok at) headers now issued =
      negotiated list_id at (accept_type headers.accept) headers now issued
  get_status_list list_id (err e) headers now issued =
      throw (bad_request "invalid_query" (Str.◌++◌ "Failed to parse query parameters: " e))
  get_status_list list_id panic headers now issued = λ s. (panic, s)
