-- ===== src/Outbound/Vault/Paths/Reading.antt =====
-- The path of a secret is read back, and holds no mark that would end it.
use Prim.Native.Char.{Char, char, code}
use Prim.Native.String as Str
use mathlib.Core.List.{append_assoc}
use status_list_server.Base.{
  ℕ, ◌==◌, eq_of_==, Bool, false, Bool-cases, ◌||◌, String, List, [], ◌∷◌, ◌++◌, map, ◌≡◌, refl,
  sym, ap, ◌∙◌, inl, inr, arith,
}
use status_list_server.Base.Chars.{into_bytes, split, is_char, push_front, encode_utf8}
use status_list_server.Base.Percent.{encode_byte, encode_bytes}
use status_list_server.Base.Percent.Reading.{decode_bytes, decode_bytes-encode_bytes}
use status_list_server.Base.Percent.Marks.{
  has_byte, encode_bytes-has_byte, into_bytes-AreBytes, encode_utf8-has_byte,
}
use status_list_server.Certificates.Storage.Keys.{normalize_key}
use status_list_server.Outbound.Vault.Paths.{
  is_segment_byte, encode_path_segment, join_segments, VaultPlace, raw_path, qualify_key,
}

-- The bytes that stay as they are in a path.
abbrev is_path_byte : ℕ → Bool
is_path_byte b = (b == b'/') || is_segment_byte b

encode_bytes-append :
    (keep : ℕ → Bool) (xs ys : List ℕ)
    → encode_bytes keep (xs ++ ys) ≡ encode_bytes keep xs ++ encode_bytes keep ys
unfolding encode_bytes
encode_bytes-append keep [] ys = refl
encode_bytes-append keep (x ∷ xs) ys =
    ap (λ t. encode_byte keep x ++ t) (encode_bytes-append keep xs ys)
    ∙ sym (append_assoc (encode_byte keep x) (encode_bytes keep xs) (encode_bytes keep ys))

without_slash :
    (xs : List ℕ)
    → has_byte b'/' xs ≡ false
    → encode_bytes is_path_byte xs ≡ encode_bytes is_segment_byte xs
unfolding encode_bytes has_byte
without_slash [] free = refl
without_slash (x ∷ xs) free = elim (Bool-cases (x == b'/')) [
  | inl here ↦ absurd (ground (arith, free))
  | inr other ↦ rw (other, without_slash xs (ground (arith, free))) refl
]

-- The segments of a text.
segments : String → List (List ℕ)
segments s = map encode_path_segment (split (is_char b'/') s)

segments-cons :
    (s : String) → (first : String) × (rest : List String) × (split (is_char b'/') s ≡ first ∷ rest)
unfolding split
segments-cons Str.[] = (Str.[], [], refl)
segments-cons (Str.◌∷◌ c s) = elim (Bool-cases (code c == b'/')) [
  | inl slash ↦ (Str.[], split (is_char b'/') s, rw slash refl)
  | inr other ↦
      let (first, rest, parts) = segments-cons s in (Str.◌∷◌ c first, rest, rw (other, parts) refl)
]

join-push_front :
    (c : Char) (parts : List String) (first : String) (rest : List String)
    → parts ≡ first ∷ rest
    → join_segments (map encode_path_segment (push_front c parts))
      ≡ encode_bytes is_segment_byte (encode_utf8 (code c))
        ++ join_segments (map encode_path_segment parts)
unfolding encode_path_segment into_bytes
join-push_front c [] first rest e = cc
join-push_front c (part ∷ []) first rest e =
    encode_bytes-append is_segment_byte (encode_utf8 (code c)) (into_bytes part)
join-push_front c (part ∷ next ∷ parts) first rest e =
    ap (λ t. t ++ (b'/' ∷ join_segments (map encode_path_segment (next ∷ parts))))
      (encode_bytes-append is_segment_byte (encode_utf8 (code c)) (into_bytes part))
    ∙ append_assoc (encode_bytes is_segment_byte (encode_utf8 (code c))) (encode_path_segment part)
        (b'/' ∷ join_segments (map encode_path_segment (next ∷ parts)))

join-slash :
    (parts : List String) (first : String) (rest : List String)
    → parts ≡ first ∷ rest
    → join_segments ([] ∷ map encode_path_segment parts)
      ≡ b'/' ∷ join_segments (map encode_path_segment parts)
join-slash [] first rest e = cc
join-slash (part ∷ parts) first rest e = refl

join-segments : (s : String) → join_segments (segments s) ≡ encode_bytes is_path_byte (into_bytes s)
unfolding segments split into_bytes encode_path_segment encode_bytes
join-segments Str.[] = refl
join-segments (Str.◌∷◌ (char n scalar) s) = elim (Bool-cases (n == b'/')) [
  | inl slash ↦
      let (first, rest, parts) = segments-cons s in
      rw slash (
        join-slash (split (is_char b'/') s) first rest parts
        ∙ ap (λ t. b'/' ∷ t) (join-segments s)
        ∙ sym (
            ap (λ m. encode_bytes is_path_byte (encode_utf8 m ++ into_bytes s))
              (eq_of_== n b'/' slash)))
  | inr other ↦
      let (first, rest, parts) = segments-cons s in
      rw
        (
          other,
          join-push_front (char n scalar) (split (is_char b'/') s) first rest parts,
          join-segments s,
          encode_bytes-append is_path_byte (encode_utf8 n) (into_bytes s),
          without_slash (encode_utf8 n) (encode_utf8-has_byte b'/' n (omega arith) other),
        )
        refl
]

-- What a server reads of the path: no byte ends it early, and percent-decoding gives the prefix and
-- the normalized key.
abbrev pub ReadsAs : String → List ℕ → Type 0
ReadsAs text path =
    (decode_bytes path ≡ into_bytes text)
    × (has_byte b'?' path ≡ false)
    × (has_byte b'#' path ≡ false)
    × (has_byte b' ' path ≡ false)

-- The path of a secret decodes to the prefix and the normalized key, and holds no `?`, `#` or
-- space.
pub qualify_key-ReadsAs :
    (digest : List ℕ → String) (place : VaultPlace) (key : String)
    → ReadsAs (raw_path place.path_prefix (normalize_key digest key)) (qualify_key digest place key)
unfolding qualify_key segments
qualify_key-ReadsAs digest place key =
    let text = raw_path place.path_prefix (normalize_key digest key) in
    let bytes = into_bytes text in
    rw (join-segments text) (
      decode_bytes-encode_bytes is_path_byte bytes refl (into_bytes-AreBytes text),
      encode_bytes-has_byte is_path_byte b'?' bytes refl refl (into_bytes-AreBytes text),
      encode_bytes-has_byte is_path_byte b'#' bytes refl refl (into_bytes-AreBytes text),
      encode_bytes-has_byte is_path_byte b' ' bytes refl refl (into_bytes-AreBytes text),
    )
