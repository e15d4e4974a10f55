-- ===== src/Base/Chars.antt =====
-- Rust's methods on texts, on their characters.
use Prim.Native.Nat.{ℕ, ◌+◌, ◌-◌, ◌/◌, ◌%◌}
use Prim.Native.String.{String}
use Prim.Native.String as Str
use Prim.Native.Char.{Char, code}
use mathlib.Core.Bool.{Bool, true, false, ◌&&◌, ◌||◌}
use mathlib.Core.List.{List, [], ◌∷◌, ◌++◌}
use status_list_server.Base.Lists.{get_or}
use status_list_server.Base.Tests.{leb, ltb, ◌==◌, if◌then◌else◌}

-- The Unicode property White_Space.
abbrev pub is_whitespace : Char → Bool
is_whitespace c =
    let n = code c in
    (leb 9 n && leb n 13)
    || (n == 32)
    || (n == 133)
    || (n == 160)
    || (n == 5760)
    || (leb 8192 n && leb n 8202)
    || (n == 8232)
    || (n == 8233)
    || (n == 8239)
    || (n == 8287)
    || (n == 12288)

abbrev pub is_empty : String → Bool
is_empty Str.[] = true
is_empty (Str.◌∷◌ c s) = false

unfoldable pub drop_start : (Char → Bool) → String → String
drop_start p Str.[] = Str.[]
drop_start p (Str.◌∷◌ c s) = let rest = drop_start p s in if p c then rest else Str.◌∷◌ c s

abbrev pub keep_before : (Char → Bool) → Char → String → String
keep_before p c Str.[] = if p c then Str.[] else Str.◌∷◌ c Str.[]
keep_before p c (Str.◌∷◌ d s) = Str.◌∷◌ c (Str.◌∷◌ d s)

unfoldable pub drop_end : (Char → Bool) → String → String
drop_end p Str.[] = Str.[]
drop_end p (Str.◌∷◌ c s) = keep_before p c (drop_end p s)

-- `trim_matches` of a predicate.
abbrev pub trim_matches : (Char → Bool) → String → String
trim_matches p s = drop_end p (drop_start p s)

abbrev pub trim : String → String
trim s = trim_matches is_whitespace s

abbrev pub push_front : Char → List String → List String
push_front c [] = Str.◌∷◌ c Str.[] ∷ []
push_front c (part ∷ parts) = Str.◌∷◌ c part ∷ parts

unfoldable pub split : (Char → Bool) → String → List String
split p Str.[] = Str.[] ∷ []
split p (Str.◌∷◌ c s) = let rest = split p s in if p c then Str.[] ∷ rest else push_front c rest

-- UTF-8.
abbrev pub encode_utf8 : ℕ → List ℕ
encode_utf8 n =
    if ltb n 128
    then n ∷ []
    else if ltb n 2048
    then (192 + n / 64) ∷ (128 + n % 64) ∷ []
    else if ltb n 65536
    then (224 + n / 4096) ∷ (128 + n / 64 % 64) ∷ (128 + n % 64) ∷ []
    else (240 + n / 262144) ∷ (128 + n / 4096 % 64) ∷ (128 + n / 64 % 64) ∷ (128 + n % 64) ∷ []

unfoldable pub into_bytes : String → List ℕ
into_bytes Str.[] = []
into_bytes (Str.◌∷◌ c s) = encode_utf8 (code c) ++ into_bytes s

-- `contains` of a character that meets a test.
unfoldable pub any_char : (Char → Bool) → String → Bool
any_char p Str.[] = false
any_char p (Str.◌∷◌ c s) = p c || any_char p s

-- `chars().all(..)`.
unfoldable pub all_chars : (Char → Bool) → String → Bool
all_chars p Str.[] = true
all_chars p (Str.◌∷◌ c s) = p c && all_chars p s

abbrev pub starts_with_char : (Char → Bool) → String → Bool
starts_with_char p Str.[] = false
starts_with_char p (Str.◌∷◌ c s) = p c

abbrev pub ends_here : (Char → Bool) → Char → String → Bool → Bool
ends_here p c Str.[] rest = p c
ends_here p c (Str.◌∷◌ d s) rest = rest

unfoldable pub ends_with_char : (Char → Bool) → String → Bool
ends_with_char p Str.[] = false
ends_with_char p (Str.◌∷◌ c s) = ends_here p c s (ends_with_char p s)

abbrev pub is_char : ℕ → Char → Bool
is_char n c = code c == n

abbrev small_letters : List Char
small_letters =
    "a" ∷ "b" ∷ "c" ∷ "d" ∷ "e" ∷ "f" ∷ "g" ∷ "h" ∷ "i" ∷ "j" ∷ "k" ∷ "l" ∷ "m" ∷ "n" ∷ "o" ∷ "p"
    ∷ "q" ∷ "r" ∷ "s" ∷ "t" ∷ "u" ∷ "v" ∷ "w" ∷ "x" ∷ "y" ∷ "z" ∷ []

abbrev pub lower : Char → Char
lower c =
    if leb b'A' (code c) && leb (code c) b'Z' then get_or small_letters (code c - b'A') c else c

unfoldable pub to_ascii_lowercase : String → String
to_ascii_lowercase Str.[] = Str.[]
to_ascii_lowercase (Str.◌∷◌ c s) = Str.◌∷◌ (lower c) (to_ascii_lowercase s)
