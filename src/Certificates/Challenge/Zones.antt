-- ===== src/Certificates/Challenge/Zones.antt =====
-- The zone of a domain, src/utils/cert_manager/challenge/dns01/mod.rs. Names are kept as their
-- bytes.
pub mod Covers
pub mod Best
use Prim.Native.Nat.{zero, suc}
use status_list_server.Base.{
  ℕ, ◌+◌, ◌-◌, ltb, leb, ◌==◌, Bool, true, false, ◌&&◌, ◌||◌, Option, none, some, List, [], ◌∷◌,
  ◌++◌, length, if◌then◌else◌,
}

pub record ZoneInfo : Type 0 where
  pub name : List ℕ
  pub id : List ℕ

-- `trim_end_matches('.')`.
abbrev keep_byte : ℕ → List ℕ → List ℕ
keep_byte b [] = if b == b'.' then [] else b ∷ []
keep_byte b (c ∷ rest) = b ∷ c ∷ rest

unfoldable pub trim_dots : List ℕ → List ℕ
trim_dots [] = []
trim_dots (b ∷ bytes) = keep_byte b (trim_dots bytes)

unfoldable pub new_zone : List ℕ → List ℕ → ZoneInfo
unfolding trim_dots
new_zone name id = record { name = trim_dots name; id = id }

unfoldable pub same_name : List ℕ → List ℕ → Bool
same_name [] [] = true
same_name [] (c ∷ cs) = false
same_name (b ∷ bs) [] = false
same_name (b ∷ bs) (c ∷ cs) = (b == c) && same_name bs cs

unfoldable pub skip : ℕ → List ℕ → List ℕ
skip zero bytes = bytes
skip (suc n) [] = []
skip (suc n) (b ∷ bytes) = skip n bytes

unfoldable pub has_dot_before : ℕ → List ℕ → Bool
has_dot_before zero bytes = false
has_dot_before (suc n) [] = false
has_dot_before (suc n) (b ∷ bytes) = (b == b'.') || has_dot_before n bytes

abbrev pub byte_is : ℕ → List ℕ → Bool
byte_is b [] = false
byte_is b (c ∷ rest) = c == b

-- `ends_with`.
abbrev ends_with : List ℕ → List ℕ → Bool
ends_with lookup part =
    leb (length part) (length lookup) && same_name (skip (length lookup - length part) lookup) part

-- `strip_prefix("*.")`.
abbrev pub wildcard : List ℕ → Option (List ℕ)
wildcard [] = none
wildcard (a ∷ []) = none
wildcard (a ∷ b ∷ rest) = if (a == b'*') && (b == b'.') then some rest else none

unfoldable pub matches_wildcard : List ℕ → List ℕ → Bool
unfolding same_name skip has_dot_before
matches_wildcard lookup stripped =
    ends_with lookup stripped && has_dot_before (length lookup - length stripped) lookup

unfoldable pub matches_zone : List ℕ → List ℕ → Bool
unfolding same_name skip
matches_zone lookup zone_name =
    if same_name lookup zone_name
    then true
    else if ltb (length zone_name) (length lookup)
    then at_dot (length lookup - length zone_name - 1)
    else false
  where
    at_dot : ℕ → Bool
    at_dot idx = byte_is b'.' (skip idx lookup) && same_name (skip (suc idx) lookup) zone_name

abbrev pub is_match : List ℕ → List ℕ → Bool
is_match lookup zone_name = by_prefix (wildcard zone_name)
  where
    by_prefix : Option (List ℕ) → Bool
    by_prefix none = matches_zone lookup zone_name
    by_prefix (some stripped) = matches_wildcard lookup stripped

abbrev pub better : Option ZoneInfo → ZoneInfo → Option ZoneInfo
better none zone = some zone
better (some best) zone = if ltb (length best.name) (length zone.name) then some zone else some best

unfoldable pub find_from : List ℕ → Option ZoneInfo → List ZoneInfo → Option ZoneInfo
unfolding matches_zone matches_wildcard
find_from lookup best [] = best
find_from lookup best (zone ∷ zones) =
    find_from lookup (if is_match lookup zone.name then better best zone else best) zones

unfoldable pub find_best_match : List ℕ → List ZoneInfo → Option ZoneInfo
unfolding find_from
find_best_match lookup zones = find_from lookup none zones
