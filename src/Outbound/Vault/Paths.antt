-- ===== src/Outbound/Vault/Paths.antt =====
-- The URLs of the secrets in Vault, src/outbound/vault.rs. URLs are kept as their bytes; the digest
-- of SHA-256 is a parameter.
pub mod Reading
use Prim.Native.Char.{Char, code}
use Prim.Native.String as Str
use status_list_server.Base.{
  ℕ, leb, ◌==◌, Bool, ◌&&◌, ◌||◌, String, Option, none, some, List, [], ◌∷◌, ◌++◌, map,
  if◌then◌else◌,
}
use status_list_server.Base.Chars.{is_empty, into_bytes, split, is_char, ends_with_char}
use status_list_server.Base.Percent.{encode_bytes}
use status_list_server.Certificates.Storage.Keys.{normalize_key}

-- Unreserved characters, and the delimiters that may stand in a segment.
abbrev pub is_segment_byte : ℕ → Bool
is_segment_byte b =
    (leb b'A' b && leb b b'Z')
    || (leb b'a' b && leb b b'z')
    || (leb b'0' b && leb b b'9')
    || (b == b'-')
    || (b == b'_')
    || (b == b'.')
    || (b == b'~')
    || (b == b'!')
    || (b == b'$')
    || (b == b'&')
    || (b == b'\'')
    || (b == b'(')
    || (b == b')')
    || (b == b'*')
    || (b == b'+')
    || (b == b',')
    || (b == b';')
    || (b == b'=')
    || (b == b':')
    || (b == b'@')

unfoldable pub encode_path_segment : String → List ℕ
unfolding into_bytes encode_bytes
encode_path_segment segment = encode_bytes is_segment_byte (into_bytes segment)

-- `join("/")`.
abbrev pub join_segments : List (List ℕ) → List ℕ
join_segments [] = []
join_segments (segment ∷ []) = segment
join_segments (segment ∷ next ∷ segments) = segment ++ (b'/' ∷ join_segments (next ∷ segments))

pub record VaultPlace : Type 0 where
  pub addr : String
  pub mount : String
  pub path_prefix : String

abbrev pub raw_path : String → String → String
raw_path path_prefix normalized =
    if is_empty path_prefix
    then normalized
    else if ends_with_char (is_char b'/') path_prefix
    then Str.◌++◌ path_prefix normalized
    else Str.◌++◌ path_prefix (Str.◌++◌ "/" normalized)

module _ (digest : List ℕ → String) (self : VaultPlace) where
  unfoldable pub qualify_key : String → List ℕ
  unfolding encode_path_segment split
  qualify_key key = join_segments (
      map encode_path_segment
        (split (is_char b'/') (raw_path self.path_prefix (normalize_key digest key))))

  abbrev url_at : String → List ℕ → List ℕ
  url_at kind path =
      into_bytes self.addr
      ++ (into_bytes "/v1/" ++ (encode_path_segment self.mount ++ (into_bytes kind ++ path)))

  unfoldable pub data_url : String → List ℕ
  unfolding qualify_key into_bytes
  data_url key = url_at "/data/" (qualify_key key)

  unfoldable pub metadata_url : String → List ℕ
  unfolding qualify_key into_bytes
  metadata_url key = url_at "/metadata/" (qualify_key key)
