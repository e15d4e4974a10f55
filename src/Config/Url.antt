-- ===== src/Config/Url.antt =====
-- `encode_url_part` of src/config.rs, on the bytes of a text.
use status_list_server.Base.{ℕ, leb, ◌==◌, Bool, ◌&&◌, ◌||◌, String, List}
use status_list_server.Base.Percent.{encode_bytes}
use status_list_server.Base.Chars.{into_bytes}

-- A letter, a digit, or one of `-`, `.`, `_` and `~`.
abbrev pub is_unreserved : ℕ → Bool
is_unreserved b =
    (leb b'A' b && leb b b'Z')
    || (leb b'a' b && leb b b'z')
    || (leb b'0' b && leb b b'9')
    || (b == b'-')
    || (b == b'.')
    || (b == b'_')
    || (b == b'~')

unfoldable pub encode_url_part : String → List ℕ
unfolding encode_bytes into_bytes
encode_url_part value = encode_bytes is_unreserved (into_bytes value)
