-- ===== src/Base/Percent/Marks.antt =====
-- The marks that part a URL, in encoded bytes and in those of texts.
use Prim.Native.Char.{char, IsScalar}
use Prim.Native.String as Str
use status_list_server.Base.{
  ℕ, ◌/◌, ◌%◌, ◌<◌, leb, ◌==◌, Bool, false, Bool-cases, ◌&&◌, ◌||◌, String, List, [], ◌∷◌, ◌++◌,
  if◌then◌else◌, eq_of_==, ◌≡◌, refl, sym, ap, ◌∙◌, inl, inr, arith,
}
use status_list_server.Base.Chars.{encode_utf8, into_bytes, any_char, is_char}
use status_list_server.Base.Percent.{hex_digit, encode_byte, encode_bytes}
use status_list_server.Base.Percent.Reading.{AreBytes}

unfoldable pub has_byte : ℕ → List ℕ → Bool
has_byte m [] = false
has_byte m (b ∷ bytes) = (b == m) || has_byte m bytes

-- What stands before the first mark, and the rest from it on.
unfoldable pub break_at : ℕ → List ℕ → List ℕ × List ℕ
break_at m [] = ([], [])
break_at m (b ∷ bytes) =
    let rest = break_at m bytes in if b == m then ([], b ∷ bytes) else (b ∷ rest.0, rest.1)

abbrev pub Begins : ℕ → List ℕ → Type 0
Begins m [] = Unit {0}
Begins m (b ∷ bytes) = b ≡ m

pub break_at-append :
    (m : ℕ) (xs ys : List ℕ)
    → has_byte m xs ≡ false
    → Begins m ys
    → break_at m (xs ++ ys) ≡ (xs, ys)
unfolding has_byte break_at
break_at-append m [] [] free begins = refl
break_at-append m [] (y ∷ ys) free begins = ground (arith, begins)
break_at-append m (x ∷ xs) ys free begins = elim (Bool-cases (x == m)) [
  | inl here ↦ absurd (ground (arith, free))
  | inr other ↦ rw (other, break_at-append m xs ys (ground (arith, free)) begins) refl
]

pub has_byte-append :
    (m : ℕ) (xs ys : List ℕ)
    → has_byte m xs ≡ false
    → has_byte m ys ≡ false
    → has_byte m (xs ++ ys) ≡ false
unfolding has_byte
has_byte-append m [] ys h k = k
has_byte-append m (x ∷ xs) ys h k = elim (Bool-cases (x == m)) [
  | inl here ↦ absurd (ground (arith, h))
  | inr other ↦ rw other (has_byte-append m xs ys (ground (arith, h)) k)
]

-- What stands in `%XX`.
abbrev pub is_escape : ℕ → Bool
is_escape m = (m == b'%') || (leb b'0' m && leb m b'9') || (leb b'A' m && leb m b'F')

escape-has_byte :
    (m b : ℕ)
    → is_escape m ≡ false
    → b < 256
    → has_byte m (b'%' ∷ hex_digit (b / 16) ∷ hex_digit (b % 16) ∷ []) ≡ false
unfolding has_byte
escape-has_byte m b other small = ground arith

encode_byte-has_byte :
    (keep : ℕ → Bool) (m b : ℕ)
    → keep m ≡ false
    → is_escape m ≡ false
    → b < 256
    → has_byte m (encode_byte keep b) ≡ false
unfolding has_byte
encode_byte-has_byte keep m b coded other small = elim (Bool-cases (keep b)) [
  | inr escaped ↦ rw escaped (escape-has_byte m b other small)
  | inl kept ↦ elim (Bool-cases (b == m)) [
    | inl same ↦ let clash = sym kept ∙ ap keep (eq_of_== b m same) ∙ coded in cc
    | inr apart ↦ rw (kept, apart) refl
  ]
]

pub encode_bytes-has_byte :
    (keep : ℕ → Bool) (m : ℕ) (bytes : List ℕ)
    → keep m ≡ false
    → is_escape m ≡ false
    → AreBytes bytes
    → has_byte m (encode_bytes keep bytes) ≡ false
unfolding has_byte encode_bytes
encode_bytes-has_byte keep m [] coded other h = refl
encode_bytes-has_byte keep m (b ∷ bytes) coded other (small, h) =
    has_byte-append m (encode_byte keep b) (encode_bytes keep bytes)
      (encode_byte-has_byte keep m b coded other small)
      (encode_bytes-has_byte keep m bytes coded other h)

scalar-lt : (n : ℕ) → IsScalar n → n < 1114112
scalar-lt n s = ground arith

AreBytes-append : (xs ys : List ℕ) → AreBytes xs → AreBytes ys → AreBytes (xs ++ ys)
AreBytes-append [] ys h k = k
AreBytes-append (x ∷ xs) ys (small, h) k = (small, AreBytes-append xs ys h k)

encode_utf8-AreBytes : (n : ℕ) → n < 1114112 → AreBytes (encode_utf8 n)
encode_utf8-AreBytes n h = ground arith

pub into_bytes-AreBytes : (s : String) → AreBytes (into_bytes s)
unfolding into_bytes
into_bytes-AreBytes Str.[] = tt
into_bytes-AreBytes (Str.◌∷◌ (char n scalar) s) =
    AreBytes-append (encode_utf8 n) (into_bytes s) (encode_utf8-AreBytes n (scalar-lt n scalar))
      (into_bytes-AreBytes s)

pub encode_utf8-has_byte :
    (m n : ℕ) → m < 128 → (n == m) ≡ false → has_byte m (encode_utf8 n) ≡ false
unfolding has_byte
encode_utf8-has_byte m n ascii other = ground arith

-- A byte below 128 comes from the character of this number only.
pub into_bytes-has_byte :
    (m : ℕ) (s : String)
    → m < 128
    → any_char (is_char m) s ≡ false
    → has_byte m (into_bytes s) ≡ false
unfolding has_byte into_bytes any_char
into_bytes-has_byte m Str.[] ascii h = refl
into_bytes-has_byte m (Str.◌∷◌ (char n scalar) s) ascii h = elim (Bool-cases (n == m)) [
  | inl here ↦ absurd (ground (arith, h))
  | inr other ↦
      has_byte-append m (encode_utf8 n) (into_bytes s) (encode_utf8-has_byte m n ascii other)
        (into_bytes-has_byte m s ascii (ground (arith, h)))
]
