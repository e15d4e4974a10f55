-- ===== src/Base/Percent.antt =====
-- Percent-encoding of bytes: those of a kind stay as they are, the others are written as `%XX`.
pub mod Reading
pub mod Marks
use status_list_server.Base.Tests.{ltb, ◌==◌, if◌then◌else◌}
use Prim.Native.Nat.{ℕ, ◌+◌, ◌/◌, ◌%◌}
use mathlib.Core.Bool.{Bool}
use mathlib.Core.List.{List, [], ◌∷◌, ◌++◌}

-- A digit of `{:02X}`.
abbrev pub hex_digit : ℕ → ℕ
hex_digit d = if ltb d 10 then 48 + d else 55 + d

abbrev pub encode_byte : (ℕ → Bool) → ℕ → List ℕ
encode_byte keep b = if keep b then b ∷ [] else b'%' ∷ hex_digit (b / 16) ∷ hex_digit (b % 16) ∷ []

unfoldable pub encode_bytes : (ℕ → Bool) → List ℕ → List ℕ
encode_bytes keep [] = []
encode_bytes keep (b ∷ bytes) = encode_byte keep b ++ encode_bytes keep bytes
