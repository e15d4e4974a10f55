-- ===== src/Config/Database/Reading.antt =====
-- A reader of connection URLs finds the fields of the settings again.
use status_list_server.Base.{
  ℕ, ◌==◌, false, Bool-cases, String, List, [], ◌∷◌, ◌++◌, ◌≡◌, refl, sym, ap, ◌∙◌, inl, inr, arith,
  show_ℕ,
}
use mathlib.Core.List.{append_assoc}
use status_list_server.Base.Chars.{into_bytes, any_char, is_char}
use status_list_server.Base.Text.Digits.{show_ℕ-any_char}
use status_list_server.Config.Url.{is_unreserved, encode_url_part}
use status_list_server.Base.Percent.Reading.{decode_bytes, decode_bytes-encode_bytes}
use status_list_server.Base.Percent.Marks.{
  has_byte, is_escape, break_at, Begins, break_at-append, has_byte-append, encode_bytes-has_byte,
  into_bytes-AreBytes, into_bytes-has_byte,
}
use status_list_server.Config.Database.Target.{url_of}

pub record UrlParts : Type 0 where
  pub scheme : List ℕ
  pub username : List ℕ
  pub password : List ℕ
  pub authority : List ℕ
  pub name : List ℕ
  pub query : List ℕ
  pub fragment : List ℕ

abbrev drop_one : List ℕ → List ℕ
drop_one [] = []
drop_one (b ∷ bytes) = bytes

abbrev read_target :
    List ℕ → List ℕ → List ℕ × List ℕ → List ℕ × List ℕ → List ℕ × List ℕ → List ℕ → UrlParts
read_target scheme username login server path fragment = record {
  scheme = scheme;
  username = decode_bytes username;
  password = decode_bytes login.0;
  authority = server.0;
  name = decode_bytes path.0;
  query = path.1;
  fragment = fragment;
}

-- As RFC 3986 parts a URL: what stands from the first `#` on is the fragment; before it, the scheme
-- up to the first colon, the name and the password up to the first `@`, the host and the port up to
-- the next slash, and a path up to the first `?`.
unfoldable pub read_url : List ℕ → UrlParts
unfolding break_at decode_bytes
read_url url =
    let whole = break_at b'#' url in
    let head = break_at b':' whole.0 in
    let user = break_at b':' (drop_one (drop_one (drop_one head.1))) in
    let login = break_at b'@' (drop_one user.1) in
    let server = break_at b'/' (drop_one login.1) in
    let path = break_at b'?' (drop_one server.1) in
    read_target head.0 user.0 login server path whole.1

abbrev pub authority_of : String → ℕ → List ℕ
authority_of url_host port = into_bytes url_host ++ (b':' ∷ into_bytes (show_ℕ port))

encoded :
    (m : ℕ) (s : String)
    → is_unreserved m ≡ false
    → is_escape m ≡ false
    → has_byte m (encode_url_part s) ≡ false
unfolding encode_url_part
encoded m s coded other =
    encode_bytes-has_byte is_unreserved m (into_bytes s) coded other (into_bytes-AreBytes s)

decoded : (s : String) → decode_bytes (encode_url_part s) ≡ into_bytes s
unfolding encode_url_part
decoded s = decode_bytes-encode_bytes is_unreserved (into_bytes s) refl (into_bytes-AreBytes s)

after_login : String → ℕ → String → List ℕ → List ℕ
after_login url_host port name query =
    into_bytes url_host
    ++ (b':' ∷ (into_bytes (show_ℕ port) ++ (b'/' ∷ (encode_url_part name ++ query))))

port_free :
    (port : ℕ)
    → (any_char (is_char b'/') (show_ℕ port) ≡ false)
      × (any_char (is_char b'#') (show_ℕ port) ≡ false)
unfolding any_char
port_free port = (
  show_ℕ-any_char (is_char b'/') port
      (refl, (refl, (refl, (refl, (refl, (refl, (refl, (refl, (refl, (refl, tt)))))))))),
  show_ℕ-any_char (is_char b'#') port
      (refl, (refl, (refl, (refl, (refl, (refl, (refl, (refl, (refl, (refl, tt)))))))))),
)

authority-after_login :
    (url_host : String) (port : ℕ) (name : String) (query : List ℕ)
    → any_char (is_char b'/') url_host ≡ false
    → Begins b'?' query
    → ◌≡◌ {A = List ℕ × List ℕ}
        (break_at b'/' (after_login url_host port name query))
        (authority_of url_host port, b'/' ∷ (encode_url_part name ++ query))
unfolding after_login has_byte any_char
authority-after_login url_host port name query clean begins =
    ap (break_at b'/') (
      sym (
        append_assoc (into_bytes url_host) (b':' ∷ into_bytes (show_ℕ port))
          (b'/' ∷ (encode_url_part name ++ query))))
    ∙ break_at-append b'/' (authority_of url_host port) (b'/' ∷ (encode_url_part name ++ query))
        (has_byte-append b'/' (into_bytes url_host) (b':' ∷ into_bytes (show_ℕ port))
          (into_bytes-has_byte b'/' url_host (omega arith) clean)
          (into_bytes-has_byte b'/' (show_ℕ port) (omega arith) (port_free port).0))
        refl

abbrev pub parts_of : String → String → String → String → ℕ → String → List ℕ → UrlParts
parts_of scheme username password url_host port name query = record {
  scheme = into_bytes scheme;
  username = into_bytes username;
  password = into_bytes password;
  authority = authority_of url_host port;
  name = into_bytes name;
  query = query;
  fragment = [];
}

break_at-none : (m : ℕ) (xs : List ℕ) → has_byte m xs ≡ false → break_at m xs ≡ (xs, [])
unfolding has_byte break_at
break_at-none m [] free = refl
break_at-none m (x ∷ xs) free = elim (Bool-cases (x == m)) [
  | inl here ↦ absurd (ground (arith, free))
  | inr other ↦ rw (other, break_at-none m xs (ground (arith, free))) refl
]

marks_free :
    (has_byte b'#' (into_bytes "://") ≡ false)
    × (has_byte b'#' (into_bytes ":") ≡ false)
    × (has_byte b'#' (into_bytes "@") ≡ false)
    × (has_byte b'#' (into_bytes "/") ≡ false)
unfolding has_byte into_bytes
marks_free = (refl, refl, refl, refl)

server_free :
    (url_host : String) (port : ℕ) (path : List ℕ)
    → any_char (is_char b'#') url_host ≡ false
    → has_byte b'#' path ≡ false
    → has_byte b'#' (into_bytes url_host ++ (into_bytes ":" ++ (into_bytes (show_ℕ port) ++ path)))
      ≡ false
server_free url_host port path clean free =
    has_byte-append b'#' (into_bytes url_host) _
      (into_bytes-has_byte b'#' url_host (omega arith) clean)
      (has_byte-append b'#' (into_bytes ":") _ marks_free.1 (
        has_byte-append b'#' (into_bytes (show_ℕ port)) _
          (into_bytes-has_byte b'#' (show_ℕ port) (omega arith) (port_free port).1) free))

-- No part of the URL holds a `#`.
url_of-has_byte :
    (scheme username password url_host : String) (port : ℕ) (name : String) (query : List ℕ)
    → has_byte b'#' (into_bytes scheme) ≡ false
    → any_char (is_char b'#') url_host ≡ false
    → has_byte b'#' query ≡ false
    → has_byte b'#' (url_of scheme username password url_host port name query) ≡ false
unfolding url_of
url_of-has_byte scheme username password url_host port name query plain clean whole =
    let path =
      has_byte-append b'#' (into_bytes "/") (encode_url_part name ++ query) marks_free.3
        (has_byte-append b'#' (encode_url_part name) query (encoded b'#' name refl refl) whole) in
    let server = server_free url_host port _ clean path in
    let login =
      has_byte-append b'#' (encode_url_part password) _ (encoded b'#' password refl refl)
        (has_byte-append b'#' (into_bytes "@") _ marks_free.2 server) in
    let user =
      has_byte-append b'#' (encode_url_part username) _ (encoded b'#' username refl refl)
        (has_byte-append b'#' (into_bytes ":") _ marks_free.1 login) in
    has_byte-append b'#' (into_bytes scheme) _ plain
      (has_byte-append b'#' (into_bytes "://") _ marks_free.0 user)

pub read_url-url_of :
    (scheme username password url_host : String) (port : ℕ) (name : String) (query : List ℕ)
    → has_byte b':' (into_bytes scheme) ≡ false
    → has_byte b'#' (into_bytes scheme) ≡ false
    → (any_char (is_char b'/') url_host ≡ false) × (any_char (is_char b'#') url_host ≡ false)
    → Begins b'?' query
    → has_byte b'#' query ≡ false
    → read_url (url_of scheme username password url_host port name query)
      ≡ parts_of scheme username password url_host port name query
unfolding read_url url_of after_login into_bytes
read_url-url_of scheme username password url_host port name query plain free clean begins whole =
    let target = after_login url_host port name query in
    let login = encode_url_part password ++ (b'@' ∷ target) in
    let user = encode_url_part username ++ (b':' ∷ login) in
    rw
      (
        break_at-none b'#' (url_of scheme username password url_host port name query)
            (url_of-has_byte scheme username password url_host port name query free clean.1 whole),
        break_at-append b':' (into_bytes scheme) (b':' ∷ b'/' ∷ b'/' ∷ user) plain refl,
        break_at-append b':' (encode_url_part username) (b':' ∷ login)
            (encoded b':' username refl refl) refl,
        break_at-append b'@' (encode_url_part password) (b'@' ∷ target)
            (encoded b'@' password refl refl) refl,
        authority-after_login url_host port name query clean.0 begins,
        break_at-append b'?' (encode_url_part name) query (encoded b'?' name refl refl) begins,
        decoded username,
        decoded password,
        decoded name,
      )
      refl
