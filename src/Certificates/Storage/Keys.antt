-- ===== src/Certificates/Storage/Keys.antt =====
-- `normalize_key` and `MemoryStorage` of src/utils/cert_manager/storage.rs. The hexadecimal digest
-- of SHA-256 is a parameter.

pub mod Names
use Prim.Native.Nat.{zero, suc}
use Prim.Native.Char.{Char, char, code}
use Prim.Native.String as Str
use status_list_server.Base.{
  ℕ, ltb, leb, ◌==◌, Bool, ◌&&◌, ◌||◌, String, Option, List, if◌then◌else◌, Outcome, ok,
}
use status_list_server.Base.Chars.{into_bytes}
use status_list_server.Base.Dict.{lookup, insert, remove}
use status_list_server.Certificates.Storage.{Storage}

abbrev pub is_name_char : Char → Bool
is_name_char c =
    let n = code c in
    (leb b'A' n && leb n b'Z')
    || (leb b'a' n && leb n b'z')
    || (leb b'0' n && leb n b'9')
    || (n == b'-')

unfoldable pub sanitize : String → String
sanitize Str.[] = Str.[]
sanitize (Str.◌∷◌ c s) = Str.◌∷◌ (if is_name_char c then c else char b'-' tt) (sanitize s)

-- The first characters; of a text of ASCII, `&s[..n]`.
unfoldable pub first_chars : ℕ → String → String
first_chars zero s = Str.[]
first_chars (suc n) Str.[] = Str.[]
first_chars (suc n) (Str.◌∷◌ c s) = Str.◌∷◌ c (first_chars n s)

-- `len` of a text of ASCII.
unfoldable pub count_chars : String → ℕ
count_chars Str.[] = 0
count_chars (Str.◌∷◌ c s) = suc (count_chars s)

unfoldable pub normalize_key : (List ℕ → String) → String → String
unfolding sanitize first_chars count_chars into_bytes
normalize_key digest key =
    if ltb 127 (count_chars (sanitize key))
    then Str.◌++◌ (first_chars 110 (sanitize key))
        (Str.◌++◌ "-" (first_chars 16 (digest (into_bytes key))))
    else sanitize key

-- The storage in memory: its state is the map behind the lock.
unfoldable pub memory_storage : (List ℕ → String) → Storage (List (String × String))
unfolding normalize_key insert lookup remove
memory_storage digest = record {
  store = λ key value values. (ok tt, insert (normalize_key digest key) value values);
  load = λ key values. (ok (lookup (normalize_key digest key) values), values);
  update = λ key value values. (ok tt, insert (normalize_key digest key) value values);
  delete = λ key values. (ok tt, remove (normalize_key digest key) values);
}
