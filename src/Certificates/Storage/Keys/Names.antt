-- ===== src/Certificates/Storage/Keys/Names.antt =====
-- Normalized keys are names that every backend takes.
use Prim.Native.Nat.{zero, suc}
use Prim.Native.String as Str
use text.Mathlib.TextLemmas.{nil-append, cons-append}
use status_list_server.Base.{
  ℕ, ◌+◌, ◌≤◌, ltb, ltb→le, le→ltb, Bool, true, false, Bool-cases, ◌&&◌, String, List, ◌≡◌, refl,
  ap, inl, inr, arith,
}
use status_list_server.Base.Chars.{into_bytes, all_chars}
use status_list_server.Certificates.Storage.Keys.{
  is_name_char, sanitize, first_chars, count_chars, normalize_key,
}

-- ASCII letters, digits and hyphens.
IsName : String → Type 0
IsName s = all_chars is_name_char s ≡ true

sanitize-IsName : (s : String) → IsName (sanitize s)
unfolding IsName sanitize all_chars
sanitize-IsName Str.[] = refl
sanitize-IsName (Str.◌∷◌ c s) = elim (Bool-cases (is_name_char c)) [
  | inl name ↦ rw (name, name) (sanitize-IsName s)
  | inr other ↦ rw other (sanitize-IsName s)
]

and_left : (a b : Bool) → (a && b) ≡ true → a ≡ true
and_left true b h = refl
and_left false b h = h

and_right : (a b : Bool) → (a && b) ≡ true → b ≡ true
and_right true b h = h
and_right false b h = cc

and_both : (a b : Bool) → a ≡ true → b ≡ true → (a && b) ≡ true
and_both true b h k = k
and_both false b h k = h

sanitize-of_IsName : (s : String) → IsName s → sanitize s ≡ s
unfolding IsName sanitize all_chars
sanitize-of_IsName Str.[] h = refl
sanitize-of_IsName (Str.◌∷◌ c s) h = rw (and_left (is_name_char c) (all_chars is_name_char s) h) (
    ap (Str.◌∷◌ c) (sanitize-of_IsName s (and_right (is_name_char c) (all_chars is_name_char s) h)))

first_chars-IsName : (n : ℕ) (s : String) → IsName s → IsName (first_chars n s)
unfolding IsName first_chars all_chars
first_chars-IsName zero s h = refl
first_chars-IsName (suc n) Str.[] h = refl
first_chars-IsName (suc n) (Str.◌∷◌ c s) h =
    and_both (is_name_char c) (all_chars is_name_char (first_chars n s))
      (and_left (is_name_char c) (all_chars is_name_char s) h)
      (first_chars-IsName n s (and_right (is_name_char c) (all_chars is_name_char s) h))

append-IsName : (s t : String) → IsName s → IsName t → IsName (Str.◌++◌ s t)
unfolding IsName all_chars
append-IsName Str.[] t h k = rw (nil-append t) k
append-IsName (Str.◌∷◌ c s) t h k = rw (cons-append c s t) (
    and_both (is_name_char c) (all_chars is_name_char (Str.◌++◌ s t))
      (and_left (is_name_char c) (all_chars is_name_char s) h)
      (append-IsName s t (and_right (is_name_char c) (all_chars is_name_char s) h) k))

count_chars-append : (s t : String) → count_chars (Str.◌++◌ s t) ≡ count_chars s + count_chars t
unfolding count_chars
count_chars-append Str.[] t = rw (nil-append t) (omega arith)
count_chars-append (Str.◌∷◌ c s) t = rw (cons-append c s t) (omega (arith, count_chars-append s t))

count_chars-first_chars : (n : ℕ) (s : String) → count_chars (first_chars n s) ≤ n
unfolding count_chars first_chars
count_chars-first_chars zero s = omega arith
count_chars-first_chars (suc n) Str.[] = omega arith
count_chars-first_chars (suc n) (Str.◌∷◌ c s) = omega (arith, count_chars-first_chars n s)

hashed : (List ℕ → String) → String → String
hashed digest key =
    Str.◌++◌ (first_chars 110 (sanitize key))
      (Str.◌++◌ "-" (first_chars 16 (digest (into_bytes key))))

-- SHA-256 is written in hexadecimal digits.
abbrev pub IsDigest : (List ℕ → String) → Type 0
IsDigest digest = (bytes : List ℕ) → all_chars is_name_char (digest bytes) ≡ true

hashed-IsName :
    (digest : List ℕ → String) (key : String) → IsDigest digest → IsName (hashed digest key)
unfolding IsName hashed all_chars
hashed-IsName digest key hex =
    append-IsName (first_chars 110 (sanitize key))
      (Str.◌++◌ "-" (first_chars 16 (digest (into_bytes key))))
      (first_chars-IsName 110 (sanitize key) (sanitize-IsName key))
      (append-IsName "-" (first_chars 16 (digest (into_bytes key))) refl
        (first_chars-IsName 16 (digest (into_bytes key)) (hex (into_bytes key))))

count_chars-hashed :
    (digest : List ℕ → String) (key : String) → count_chars (hashed digest key) ≤ 127
unfolding hashed count_chars
count_chars-hashed digest key =
    let prefix = first_chars 110 (sanitize key) in
    let suffix = first_chars 16 (digest (into_bytes key)) in
    rw (count_chars-append prefix (Str.◌++◌ "-" suffix), count_chars-append "-" suffix)
      (omega (
        arith,
        count_chars-first_chars 110 (sanitize key),
        count_chars-first_chars 16 (digest (into_bytes key)),
      ))

-- A name of at most 127 characters, which is normalized to itself.
abbrev pub IsNormal : (List ℕ → String) → String → Type 0
IsNormal digest name =
    (all_chars is_name_char name ≡ true)
    × (count_chars name ≤ 127)
    × (normalize_key digest name ≡ name)

IsNormal-name :
    (digest : List ℕ → String) (name : String)
    → IsName name
    → count_chars name ≤ 127
    → IsNormal digest name
unfolding IsName normalize_key
IsNormal-name digest name is_name short =
    (is_name, short, rw (sanitize-of_IsName name is_name, le→ltb 127 (count_chars name) short) refl)

-- For a digest that is written in hexadecimal digits, a normalized key is made of ASCII letters,
-- digits and hyphens, has at most 127 characters, and is normalized to itself.
pub normalize_key-IsNormal :
    (digest : List ℕ → String) (key : String)
    → IsDigest digest
    → IsNormal digest (normalize_key digest key)
unfolding normalize_key hashed
normalize_key-IsNormal digest key hex = elim (Bool-cases (ltb 127 (count_chars (sanitize key)))) [
  | inl long ↦ rw long (
      IsNormal-name digest (hashed digest key) (hashed-IsName digest key hex)
        (count_chars-hashed digest key))
  | inr short ↦ rw short (
      IsNormal-name digest (sanitize key) (sanitize-IsName key)
        (ltb→le 127 (count_chars (sanitize key)) short))
]
