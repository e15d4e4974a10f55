-- ===== src/Base/Text/Digits.antt =====
-- The text of a number is made of digits.
use Prim.Native.Nat.{ℕ, zero, suc, ◌/◌, ◌%◌}
use Prim.Native.Char.{Char}
use Prim.Native.String.{String}
use Prim.Native.String as Str
use text.Mathlib.TextLemmas.{nil-append, cons-append}
use mathlib.Core.Path.{◌≡◌}
use mathlib.Core.Bool.{Bool, true, false, ◌||◌}
use mathlib.Core.List.{List, [], ◌∷◌}
use status_list_server.Base.Tests.{ltb, if_either}
use status_list_server.Base.Lists.{get_or}
use status_list_server.Base.Chars.{any_char}
use status_list_server.Base.Text.{digit, show_from, show_ℕ}

-- The texts that hold no character of a kind.
abbrev Lacks : (Char → Bool) → String → Type 0
Lacks p s = any_char p s ≡ false

pub any_char-append :
    (p : Char → Bool) (s t : String) → Lacks p s → Lacks p t → Lacks p (Str.◌++◌ s t)
unfolding any_char
any_char-append p Str.[] t h k = rw (nil-append t) k
any_char-append p (Str.◌∷◌ c s) t h k =
    rw (cons-append c s t)
      (joined (p c) (any_char p s) (any_char p (Str.◌++◌ s t)) h (λ l. any_char-append p s t l k))
  where
    joined :
        (here rest both : Bool)
        → (here || rest) ≡ false
        → (rest ≡ false → both ≡ false)
        → (here || both) ≡ false
    joined false rest both h step = step h
    joined true rest both h step = h

abbrev Every : (String → Type 0) → List String → Type 0
Every P [] = Unit {0}
Every P (s ∷ ss) = P s × Every P ss

get_or-Every :
    (P : String → Type 0) (ss : List String) (i : ℕ) (d : String)
    → Every P ss
    → P d
    → P (get_or ss i d)
get_or-Every P [] i d every default = default
get_or-Every P (s ∷ ss) zero d (here, every) default = here
get_or-Every P (s ∷ ss) (suc i) d (here, every) default = get_or-Every P ss i d every default

show_from-Lacks :
    (p : Char → Bool) (rounds n : ℕ) → ((m : ℕ) → Lacks p (digit m)) → Lacks p (show_from rounds n)
unfolding show_from
show_from-Lacks p zero n lacks = lacks (n % 10)
show_from-Lacks p (suc rounds) n lacks = if_either (Lacks p) (ltb n 10) (lacks n) (
    any_char-append p (show_from rounds (n / 10)) (digit (n % 10))
      (show_from-Lacks p rounds (n / 10) lacks) (lacks (n % 10)))

abbrev pub digits : List String
digits = "0" ∷ "1" ∷ "2" ∷ "3" ∷ "4" ∷ "5" ∷ "6" ∷ "7" ∷ "8" ∷ "9" ∷ []

-- A character test that no digit meets is met nowhere in the text of a number.
pub show_ℕ-any_char :
    (p : Char → Bool) (n : ℕ) → Every (Lacks p) digits → any_char p (show_ℕ n) ≡ false
unfolding show_ℕ show_from
show_ℕ-any_char p n every =
    show_from-Lacks p 20 n (λ m. get_or-Every (Lacks p) digits m "0" every (every.0))
