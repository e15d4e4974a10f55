-- ===== src/Server/Reads/Conditions.antt =====
-- Conditional requests for a list: what a client that kept a response is told.
use status_list_server.Base.{
  ℤ, leb_ℤ, ltb_ℤ, ◌≤ℤ◌, String, Bool, false, Bool-cases, none, some, List, Outcome, ok, err, panic,
  ◌≡◌, refl, ap, arith, ◌⊎◌, inl, inr,
}
use status_list_server.Base.Action.{after, reword}
use status_list_server.Domain.Model.{StatusListError, StatusListRecord}
use status_list_server.Domain.StatusList.{Codec}
use status_list_server.Domain.Service.{Service}
use status_list_server.Domain.Service as Service
use status_list_server.Server.Error.{ApiError, into_api_error}
use status_list_server.Server.Conditional.{
  TimeLibrary, ConditionalResponse, not_modified, modified, evaluate_conditional_request,
  evaluate_if_none_match, evaluate_if_modified_since, evaluate_since, format_http_date,
  parse_http_date, digested, generate_etag,
}
use status_list_server.Server.Conditional.Splits.{IsOpaque, sent}
use status_list_server.Server.Conditional.Tags.{
  AreOpaque, Names, Matches, evaluate_if_none_match-Matches,
}
use status_list_server.Server.Token.{TokenSigner, TokenConfig}
use status_list_server.Server.Reads.{
  Headers, Response, accept_type, current, not_modified_response, fresh, answer_record,
  get_status_list,
}

-- A time that the format of HTTP can write, and whose text one of the two parsers reads: that of the
-- same format, or, where it refuses the text, that of RFC 2822.
pub record IsDate {D : Type 0} (time : TimeLibrary D) (t : ℤ) : Type 0 where
  pub date : D
  pub written : String
  pub read_date : D
  pub represents : time.from_unix_timestamp t ≡ some date
  pub formats : time.format_fixdate date ≡ some written
  pub parses :
      (time.parse_fixdate written ≡ some read_date)
      ⊎ ((time.parse_fixdate written ≡ none) × (time.parse_rfc2822 written ≡ some read_date))
  pub returns : time.unix_timestamp read_date ≡ t

module _ {S D Key Signer : Type 0} (service : Service S) (codec : Codec)
    (signer : TokenSigner Key Signer) (time : TimeLibrary D) (digest : String → String)
    (config : TokenConfig) where
  abbrev Answer : Type 0
  Answer = Outcome ApiError Response × S

  -- The answer is "not modified" when `Unchanged r` holds, and as to a request without conditions
  -- when it does not; where the record is not read, it is the error of that.
  abbrev pub Revalidates :
      (StatusListRecord → Type 0)
      → String
      → Bool
      → ℤ
      → Outcome StatusListError StatusListRecord × S
      → Answer
      → Type 0
  Revalidates Unchanged accept gzip issued (ok r, s) x =
      (Unchanged r
        × (x ≡ (ok (not_modified_response service codec signer time digest config r), s)))
      ⊎ (¬ (Unchanged r)
          × (x ≡ fresh service codec signer time digest config accept gzip issued r s))
  Revalidates Unchanged accept gzip issued (err e, s) x = x ≡ (err (into_api_error e), s)
  Revalidates Unchanged accept gzip issued (panic, s) x = x ≡ (panic, s)

  abbrev Decides : Type 0 → ConditionalResponse → Type 0
  Decides P not_modified = P
  Decides P modified = ¬ P

  revalidated :
      (Unchanged : StatusListRecord → Type 0) (decide : StatusListRecord → ConditionalResponse)
      (accept : String) (gzip : Bool) (issued : ℤ)
      (x : Outcome StatusListError StatusListRecord × S)
      → ((r : StatusListRecord) → Decides (Unchanged r) (decide r))
      → Revalidates Unchanged accept gzip issued x (
          after
            (λ r.
              answer_record service codec signer time digest config accept gzip issued r (decide r))
            (reword into_api_error x))
  revalidated Unchanged decide accept gzip issued (ok r, s) h = answered (decide r) (h r)
    where
      answered :
          (c : ConditionalResponse)
          → Decides (Unchanged r) c
          → Revalidates Unchanged accept gzip issued
              (ok r, s)
              (answer_record service codec signer time digest config accept gzip issued r c s)
      answered not_modified holds = inl (holds, refl)
      answered modified fails = inr (fails, refl)
  revalidated Unchanged decide accept gzip issued (err e, s) h = refl
  revalidated Unchanged decide accept gzip issued (panic, s) h = refl

  -- For a digest whose text has neither commas nor quotes, an accepted format, and a client that
  -- sends one tag or more in If-None-Match, as weak tags separated by a comma and a space: the
  -- list as the service reads it is answered with 304, without a body and with its own tag, when
  -- the digest of its content is among the tags, and else exactly as to a request without
  -- conditions; where the service fails to read it, the answer is that error, and where it
  -- panics, the handler does.
  pub get_status_list-Revalidates :
      ((text : String) → IsOpaque (digest text))
      → (list_id accept : String) (headers : Headers) (now issued : ℤ) (t : String)
        (ts : List String) (s : S)
      → accept_type headers.accept ≡ ok accept
      → headers.if_none_match ≡ some (sent t ts)
      → AreOpaque t ts
      → Revalidates
          (λ r. Names (digest (digested digest r)) t ts)
          accept
          headers.client_accepts_gzip
          issued
          (Service.get_status_list service codec list_id s)
          (get_status_list service codec signer time digest config list_id
            (ok none)
            headers
            now
            issued
            s)
  unfolding get_status_list current evaluate_conditional_request generate_etag
  get_status_list-Revalidates opaque list_id accept headers now issued t ts s accepted tags h =
      rw (accepted, tags)
        (revalidated (λ r. Names (digest (digested digest r)) t ts)
          (λ r. evaluate_if_none_match (some (sent t ts)) (generate_etag digest r)) accept
          headers.client_accepts_gzip issued (Service.get_status_list service codec list_id s)
          (λ r.
            decided (digest (digested digest r))
              (evaluate_if_none_match (some (sent t ts)) (generate_etag digest r))
              (evaluate_if_none_match-Matches (digest (digested digest r)) t ts
                (opaque (digested digest r)) h)))
    where
      decided :
          (tag : String) (c : ConditionalResponse) → Matches tag t ts c → Decides (Names tag t ts) c
      decided tag not_modified m = m
      decided tag modified m = m

  date_kept : (t : ℤ) → IsDate time t → parse_http_date time (format_http_date time t) ≡ some t
  unfolding parse_http_date format_http_date
  date_kept t d = elim d.parses [
    | inl fixdate ↦ rw (d.represents, d.formats, fixdate) (ap some d.returns)
    | inr fallback ↦ rw (d.represents, d.formats, fallback.0, fallback.1) (ap some d.returns)
  ]

  -- For an accepted format and a client without tags that sends back, in If-Modified-Since, a
  -- Last-Modified of a time that is not in the future and that the calendar writes and reads
  -- back, as an IMF-fixdate or, where that fails, by RFC 2822: the list as the service reads it
  -- is answered with 304 and without a body when its time is no later than that one, and else
  -- exactly as to a request without conditions; where the service fails to read it, the answer is
  -- that error, and where it panics, the handler does.
  pub get_status_list-Since :
      (list_id accept : String) (headers : Headers) (now issued seen : ℤ) (s : S)
      → accept_type headers.accept ≡ ok accept
      → headers.if_none_match ≡ none
      → headers.if_modified_since ≡ some (format_http_date time seen)
      → IsDate time seen
      → seen ≤ℤ now
      → Revalidates
          (λ r. r.updated_at ≤ℤ seen)
          accept
          headers.client_accepts_gzip
          issued
          (Service.get_status_list service codec list_id s)
          (get_status_list service codec signer time digest config list_id
            (ok none)
            headers
            now
            issued
            s)
  unfolding get_status_list current evaluate_conditional_request evaluate_if_modified_since
  get_status_list-Since list_id accept headers now issued seen s accepted no_tags date written
        past =
      rw (accepted, no_tags, date, date_kept seen written)
        (revalidated (λ r. r.updated_at ≤ℤ seen)
          (λ r. evaluate_since time r.updated_at (some seen) now) accept headers.client_accepts_gzip
          issued (Service.get_status_list service codec list_id s) (λ r. decided r.updated_at))
    where
      is_past : ltb_ℤ now seen ≡ false
      is_past = ground arith

      decided :
          (updated_at : ℤ)
          → Decides (updated_at ≤ℤ seen) (evaluate_since time updated_at (some seen) now)
      decided updated_at = elim (Bool-cases (leb_ℤ updated_at seen)) [
        | inl kept ↦ rw (is_past, kept) (ground arith)
        | inr later ↦ rw (is_past, later) (λ h. ground arith)
      ]
