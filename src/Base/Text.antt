-- ===== src/Base/Text.antt =====
-- The text of a number, as Rust's `Display` writes it.
pub mod Digits
use Prim.Native.Nat.{ℕ, zero, suc, ◌/◌, ◌%◌}
use Prim.Native.String.{String}
use Prim.Native.String as Str
use mathlib.Core.List.{[], ◌∷◌}
use status_list_server.Base.Tests.{ltb, if◌then◌else◌}
use status_list_server.Base.Lists.{get_or}
use status_list_server.Base.Int.{ℤ, pos, negsuc}

abbrev digit : ℕ → String
digit n = get_or ("0" ∷ "1" ∷ "2" ∷ "3" ∷ "4" ∷ "5" ∷ "6" ∷ "7" ∷ "8" ∷ "9" ∷ []) n "0"

show_from : ℕ → ℕ → String
show_from zero n = digit (n % 10)
show_from (suc rounds) n =
    let rest = Str.◌++◌ (show_from rounds (n / 10)) (digit (n % 10)) in
    if ltb n 10 then digit n else rest

-- Twenty digits hold every `u64`.
unfoldable pub show_ℕ : ℕ → String
unfolding show_from
show_ℕ n = show_from 20 n

-- `Display` of an `i32` or an `i64`.
abbrev pub show_ℤ : ℤ → String
show_ℤ (pos n) = show_ℕ n
show_ℤ (negsuc n) = Str.◌++◌ "-" (show_ℕ (suc n))
