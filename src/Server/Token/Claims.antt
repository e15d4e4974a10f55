-- ===== src/Server/Token/Claims.antt =====
-- The two forms of a token, read as a verifier reads them.
use package.text.Mathlib.Text.{◌==◌ as str_eq}
use status_list_server.Base.{
  ℕ, ◌^◌, ◌<◌, ℤ, pos, leb_ℤ, wrap_signed, String, Bool, false, ◌&&◌, Option, none, some, List,
  if◌then◌else◌, Outcome, ok, err, panic, ◌≡◌, refl, arith,
}
use status_list_server.Domain.Model.{StatusListRecord}
use status_list_server.Server.Constants
use status_list_server.Server.Token.{
  CborValue, CborMap, integer, text, bytes, array, map, end, field, StatusListToken, cwt_claims,
  jwt_claims,
}

pub record Claims : Type 0 where
  pub sub : String
  pub iat : ℤ
  pub exp : ℤ
  pub ttl : ℤ
  pub bits : ℕ
  pub lst : List ℕ
  pub aggregation_uri : Option String

abbrev is_label : ℤ → CborValue → Bool
is_label n (integer m) = leb_ℤ n m && leb_ℤ m n
is_label n (text s) = false
is_label n (bytes b) = false
is_label n (array vs) = false
is_label n (map m) = false

abbrev is_name : String → CborValue → Bool
is_name name (integer m) = false
is_name name (text s) = str_eq name s
is_name name (bytes b) = false
is_name name (array vs) = false
is_name name (map m) = false

-- The first value whose key passes the test.
abbrev value_of : (CborValue → Bool) → CborMap → Option CborValue
value_of is_key end = none
value_of is_key (field k v m) = let rest = value_of is_key m in if is_key k then some v else rest

abbrev as_integer : Option CborValue → Option ℤ
as_integer (some (integer n)) = some n
as_integer (some (text s)) = none
as_integer (some (bytes b)) = none
as_integer (some (array vs)) = none
as_integer (some (map m)) = none
as_integer none = none

abbrev as_natural : Option ℤ → Option ℕ
as_natural (some (pos n)) = some n
as_natural (some (ℤ.negsuc n)) = none
as_natural none = none

abbrev as_text : Option CborValue → Option String
as_text (some (text s)) = some s
as_text (some (integer n)) = none
as_text (some (bytes b)) = none
as_text (some (array vs)) = none
as_text (some (map m)) = none
as_text none = none

abbrev as_bytes : Option CborValue → Option (List ℕ)
as_bytes (some (bytes b)) = some b
as_bytes (some (integer n)) = none
as_bytes (some (text s)) = none
as_bytes (some (array vs)) = none
as_bytes (some (map m)) = none
as_bytes none = none

abbrev as_map : Option CborValue → Option CborMap
as_map (some (map m)) = some m
as_map (some (integer n)) = none
as_map (some (text s)) = none
as_map (some (bytes b)) = none
as_map (some (array vs)) = none
as_map none = none

abbrev bind : {A B : Type 0} → Option A → (A → Option B) → Option B
bind none f = none
bind (some a) f = f a

abbrev labelled : ℤ → CborMap → Option CborValue
labelled n m = value_of (is_label n) m

-- The claims of a CWT.
abbrev pub read_cwt : CborMap → Option Claims
read_cwt m = bind (as_text (labelled Constants.subject m)) λ sub.
    bind (as_integer (labelled Constants.issued_at m)) λ iat.
      bind (as_integer (labelled Constants.exp m)) λ exp.
        bind (as_integer (labelled Constants.ttl m)) λ ttl.
          bind (as_map (labelled Constants.status_list m)) λ list.
            bind (as_natural (as_integer (value_of (is_name "bits") list))) λ bits.
              bind (as_bytes (value_of (is_name "lst") list)) λ lst. some (record {
                sub = sub;
                iat = iat;
                exp = exp;
                ttl = ttl;
                bits = bits;
                lst = lst;
                aggregation_uri = as_text (value_of (is_name "aggregation_uri") list);
              })

abbrev decoded : Outcome String (List ℕ) → Option (List ℕ)
decoded (ok z) = some z
decoded (err e) = none
decoded panic = none

-- The claims of a JWT, with the reading of base64url.
abbrev pub read_jwt : (String → Outcome String (List ℕ)) → StatusListToken → Option Claims
read_jwt decode t = bind t.exp λ exp. bind t.ttl λ ttl.
    bind (decoded (decode t.status_list.lst)) λ lst. some (record {
      sub = t.sub;
      iat = t.iat;
      exp = exp;
      ttl = ttl;
      bits = t.status_list.bits;
      lst = lst;
      aggregation_uri = t.status_list.aggregation_uri;
    })

abbrev pub claims : StatusListRecord → List ℕ → Option String → ℤ → ℤ → ℕ → Claims
claims r lst uri iat exp ttl = record {
  sub = r.sub;
  iat = iat;
  exp = exp;
  ttl = pos ttl;
  bits = r.status_list.bits;
  lst = lst;
  aggregation_uri = uri;
}

unwrapped : (n : ℕ) → n < 2 ^ 63 → wrap_signed 64 n ≡ pos n
unwrapped n h = ground arith

-- Where the text of the list decodes and the time to live is below 2^63, both forms of a token
-- make the same claims: a reader of the CWT, by its labels, and a reader of the JWT, by its
-- fields, find the same subject, times, time to live, width, packed array and aggregation
-- address.
pub cwt_claims-jwt_claims :
    (decode : String → Outcome String (List ℕ)) (r : StatusListRecord) (lst : List ℕ)
    (uri : Option String) (iat exp : ℤ) (ttl : ℕ)
    → decode r.status_list.lst ≡ ok lst
    → ttl < 2 ^ 63
    → (read_cwt (cwt_claims r lst uri iat exp ttl) ≡ some (claims r lst uri iat exp ttl))
      × (read_jwt decode (jwt_claims r uri iat exp ttl) ≡ some (claims r lst uri iat exp ttl))
unfolding cwt_claims jwt_claims
cwt_claims-jwt_claims decode r lst none iat exp ttl e h = (refl, rw (e, unwrapped ttl h) refl)
cwt_claims-jwt_claims decode r lst (some uri) iat exp ttl e h = (refl, rw (e, unwrapped ttl h) refl)
