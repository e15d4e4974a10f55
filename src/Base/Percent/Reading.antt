-- ===== src/Base/Percent/Reading.antt =====
-- What was encoded is read back.
use Prim.Native.Nat.{ℕ, ◌+◌, ◌-◌, ◌*◌, ◌/◌, ◌%◌, ◌<◌}
use mathlib.Core.Path.{◌≡◌, refl, sym, ap, ◌∙◌}
use mathlib.Core.Logic.{inl, inr}
use mathlib.Core.Bool.{Bool, true, false}
use mathlib.Core.List.{List, [], ◌∷◌}
use native.Mathlib.Omega.{arith}
use status_list_server.Base.Tests.{ltb, ◌==◌, if◌then◌else◌, Bool-cases, eq_of_==}
use status_list_server.Base.Percent.{hex_digit, encode_bytes}

abbrev hex_value : ℕ → ℕ
hex_value c = if ltb c 58 then c - 48 else c - 55

-- Percent-decoding.
unfoldable pub decode_bytes : List ℕ → List ℕ
decode_bytes [] = []
decode_bytes (b ∷ []) = b ∷ []
decode_bytes (b ∷ h ∷ []) = b ∷ h ∷ []
decode_bytes (b ∷ h ∷ l ∷ rest) =
    let plain = b ∷ decode_bytes (h ∷ l ∷ rest) in
    let coded = (hex_value h * 16 + hex_value l) ∷ decode_bytes rest in
    if b == b'%' then coded else plain

abbrev pub AreBytes : List ℕ → Type 0
AreBytes [] = Unit {0}
AreBytes (b ∷ bytes) = (b < 256) × AreBytes bytes

decode_plain :
    (b : ℕ) (rest : List ℕ) → (b == b'%') ≡ false → decode_bytes (b ∷ rest) ≡ b ∷ decode_bytes rest
unfolding decode_bytes
decode_plain b [] h = refl
decode_plain b (x ∷ []) h = refl
decode_plain b (x ∷ y ∷ rest) h = rw h refl

hex_pair :
    (b : ℕ) → b < 256 → hex_value (hex_digit (b / 16)) * 16 + hex_value (hex_digit (b % 16)) ≡ b
hex_pair b h = ground arith

kept_plain : (keep : ℕ → Bool) (b : ℕ) → keep b'%' ≡ false → keep b ≡ true → (b == b'%') ≡ false
kept_plain keep b escapes kept = elim (Bool-cases (b == b'%')) [
  | inl here ↦ let clash = sym kept ∙ ap keep (eq_of_== b b'%' here) ∙ escapes in cc
  | inr other ↦ other
]

pub decode_bytes-encode_bytes :
    (keep : ℕ → Bool) (bytes : List ℕ)
    → keep b'%' ≡ false
    → AreBytes bytes
    → decode_bytes (encode_bytes keep bytes) ≡ bytes
unfolding decode_bytes encode_bytes
decode_bytes-encode_bytes keep [] escapes h = refl
decode_bytes-encode_bytes keep (b ∷ bytes) escapes (small, h) = elim (Bool-cases (keep b)) [
  | inl plain ↦
      rw
        (
          plain,
          decode_plain b (encode_bytes keep bytes) (kept_plain keep b escapes plain),
          decode_bytes-encode_bytes keep bytes escapes h,
        )
        refl
  | inr other ↦ rw (other, hex_pair b small, decode_bytes-encode_bytes keep bytes escapes h) refl
]
