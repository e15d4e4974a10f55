-- ===== src/Server/Reads/Encoding.antt =====
-- Whether a client accepts gzip, src/server/handlers/status_list/get_status_list.rs. The values of
-- the header are texts or are not readable; how a text is parsed as a quality is a parameter, which
-- answers whether the number is above zero.
use Prim.Native.Char.{Char, code}
use Prim.Native.String as Str
use text.Mathlib.Text.{◌==◌ as str_eq}
use status_list_server.Base.{
  ◌==◌, Bool, true, false, ◌||◌, String, Option, none, some, List, [], ◌∷◌, ◌++◌, if◌then◌else◌,
}
use status_list_server.Base.Chars.{is_empty, trim, split, is_char, to_ascii_lowercase}

-- The coding and its quality, if that was given and is a number.
abbrev pub Entry : Type 0
Entry = String × Option Bool

-- `eq_ignore_ascii_case`.
abbrev same_coding : String → String → Bool
same_coding a b = str_eq (to_ascii_lowercase a) (to_ascii_lowercase b)

abbrev onto_first : Char → String × String → String × String
onto_first c parts = (Str.◌∷◌ c parts.0, parts.1)

-- `split_once(';')`, or the whole and nothing.
unfoldable pub split_once : String → String × String
split_once Str.[] = (Str.[], Str.[])
split_once (Str.◌∷◌ c s) =
    let rest = split_once s in if code c == b';' then (Str.[], s) else onto_first c rest

-- `strip_prefix("q=")`.
abbrev after_equals : String → Option String
after_equals Str.[] = none
after_equals (Str.◌∷◌ c s) = if code c == b'=' then some s else none

abbrev quality_text : String → Option String
quality_text Str.[] = none
quality_text (Str.◌∷◌ c s) = if code c == b'q' then after_equals s else none

abbrev first_of : Option String → Option String → Option String
first_of none rest = rest
first_of (some text) rest = some text

abbrev trimmed : Option String → Option String
trimmed none = none
trimmed (some text) = some (trim text)

unfoldable pub find_quality : List String → Option String
find_quality [] = none
find_quality (param ∷ params) = first_of (trimmed (quality_text (trim param))) (find_quality params)

module _ (above_zero : String → Option Bool) where
  abbrev parsed : Option String → Option Bool
  parsed none = none
  parsed (some text) = above_zero text

  abbrev entry_of : String → Entry
  entry_of s =
      let parts = split_once s in
      (trim parts.0, parsed (find_quality (split (is_char b';') (trim parts.1))))

  unfoldable pub entries_of : List String → List Entry
  unfolding split_once find_quality split
  entries_of [] = []
  entries_of (s ∷ rest) =
      let others = entries_of rest in
      if is_empty (trim s) then others else entry_of (trim s) ∷ others

  unfoldable pub all_entries : List (Option String) → List Entry
  unfolding entries_of
  all_entries [] = []
  all_entries (none ∷ values) = all_entries values
  all_entries (some value ∷ values) = entries_of (split (is_char b',') value) ++ all_entries values

  abbrev is_wanted : Option Bool → Bool
  is_wanted none = true
  is_wanted (some positive) = positive

  unfoldable pub find_coding : String → List Entry → Option (Option Bool)
  unfolding to_ascii_lowercase
  find_coding wanted [] = none
  find_coding wanted ((coding, quality) ∷ entries) =
      let rest = find_coding wanted entries in
      if same_coding coding wanted then some quality else rest

  unfoldable pub any_star : List Entry → Bool
  unfolding to_ascii_lowercase
  any_star [] = false
  any_star ((coding, quality) ∷ entries) =
      let rest = any_star entries in
      if same_coding coding "*" then is_wanted quality || rest else rest

  abbrev decide : Option (Option Bool) → List Entry → Bool
  decide (some quality) entries = is_wanted quality
  decide none entries = any_star entries

  unfoldable pub client_accepts_gzip : List (Option String) → Bool
  unfolding all_entries find_coding any_star
  client_accepts_gzip values =
      let entries = all_entries values in decide (find_coding "gzip" entries) entries
