-- ===== src/Server/Conditional/Splits.antt =====
-- How `evaluate_if_none_match` of src/server/handlers/status_list/utils/conditional.rs parts the
-- tags that a client sends.
use Prim.Native.String as Str
use Prim.Native.Char.{Char, char}
use text.Mathlib.TextLemmas.{nil-append, cons-append}
use status_list_server.Base.{String, Bool, true, false, List, [], ◌∷◌, ◌≡◌, refl, ap, ◌∙◌}
use status_list_server.Base.Chars.{
  is_whitespace, drop_start, drop_end, keep_before, trim, trim_matches, split,
}
use status_list_server.Server.Conditional.{is_comma, is_quote, drop_weak, normalize_etag}

-- The opaque part of a tag, as the hexadecimal digits of a digest are.
abbrev pub IsOpaque : String → Type 0
IsOpaque Str.[] = Unit {0}
IsOpaque (Str.◌∷◌ c s) = (is_comma c ≡ false) × (is_quote c ≡ false) × IsOpaque s

abbrev pub weak : String → String
weak tag = Str.◌++◌ "W/\"" (Str.◌++◌ tag "\"")

-- The tags as a client sends them.
abbrev pub sent : String → List String → String
sent t [] = weak t
sent t (u ∷ ts) = Str.◌++◌ (weak t) (Str.◌++◌ ", " (sent u ts))

abbrev pub space : Char
space = char 32 tt

abbrev pub quote : Char
quote = char 34 tt

abbrev pub opening : String → String
opening s = Str.◌∷◌ (char 87 tt) (Str.◌∷◌ (char 47 tt) (Str.◌∷◌ quote s))

-- A tag and its closing quote.
abbrev pub closed : String → String
closed Str.[] = Str.◌∷◌ quote Str.[]
closed (Str.◌∷◌ c s) = Str.◌∷◌ c (closed s)

append-closed : (t : String) → Str.◌++◌ t "\"" ≡ closed t
append-closed Str.[] = nil-append "\""
append-closed (Str.◌∷◌ c s) = cons-append c s "\"" ∙ ap (Str.◌∷◌ c) (append-closed s)

append-opening : (s : String) → Str.◌++◌ "W/\"" s ≡ opening s
append-opening s =
    cons-append (char 87 tt) "/\"" s
    ∙ ap (Str.◌∷◌ (char 87 tt)) (
        cons-append (char 47 tt) "\"" s
        ∙ ap (Str.◌∷◌ (char 47 tt)) (cons-append quote "" s ∙ ap (Str.◌∷◌ quote) (nil-append s)))

pub weak-chars : (t : String) → weak t ≡ opening (closed t)
weak-chars t = append-opening (Str.◌++◌ t "\"") ∙ ap opening (append-closed t)

pub keep_before-none :
    (p : Char → Bool) (c : Char) (s : String) → p c ≡ false → keep_before p c s ≡ Str.◌∷◌ c s
keep_before-none p c Str.[] h = rw h refl
keep_before-none p c (Str.◌∷◌ d s) h = refl

keep_before-closed :
    (p : Char → Bool) (c : Char) (s : String) → keep_before p c (closed s) ≡ Str.◌∷◌ c (closed s)
keep_before-closed p c Str.[] = refl
keep_before-closed p c (Str.◌∷◌ d s) = refl

-- What ends in a quote has no white space at its end.
drop_end-closed : (t : String) → drop_end is_whitespace (closed t) ≡ closed t
unfolding drop_end
drop_end-closed Str.[] = refl
drop_end-closed (Str.◌∷◌ c s) = rw (drop_end-closed s) (keep_before-closed is_whitespace c s)

drop_end-quote : (t : String) → IsOpaque t → drop_end is_quote (closed t) ≡ t
unfolding drop_end
drop_end-quote Str.[] h = refl
drop_end-quote (Str.◌∷◌ c s) (comma, quoted, h) =
    rw (drop_end-quote s h) (keep_before-none is_quote c s quoted)

pub trim-opening : (t : String) → trim (opening (closed t)) ≡ opening (closed t)
unfolding drop_start drop_end
trim-opening t = rw (drop_end-closed t, keep_before-closed is_whitespace quote t) refl

pub trim-spaced : (t : String) → trim (Str.◌∷◌ space (opening (closed t))) ≡ opening (closed t)
unfolding drop_start drop_end
trim-spaced t = rw (drop_end-closed t, keep_before-closed is_whitespace quote t) refl

unquoted : (t : String) → IsOpaque t → trim_matches is_quote (Str.◌∷◌ quote (closed t)) ≡ t
unfolding drop_start drop_end
unquoted Str.[] h = refl
unquoted (Str.◌∷◌ c s) (comma, quoted, h) =
    rw (quoted, drop_end-quote s h) (keep_before-none is_quote c s quoted)

drop_weak-opening : (t : String) → drop_weak (opening (closed t)) ≡ Str.◌∷◌ quote (closed t)
unfolding drop_weak
drop_weak-opening Str.[] = refl
drop_weak-opening (Str.◌∷◌ c s) = refl

pub normalize_etag-opening : (t : String) → IsOpaque t → normalize_etag (opening (closed t)) ≡ t
unfolding normalize_etag
normalize_etag-opening t h = rw (trim-opening t, drop_weak-opening t) (unquoted t h)

-- A tag, and what follows it after a comma, with the space before it if there is one.
pub split-closed :
    (t rest : String)
    → IsOpaque t
    → split is_comma (Str.◌++◌ (closed t) (Str.◌∷◌ (char 44 tt) rest))
      ≡ closed t ∷ split is_comma rest
unfolding split
split-closed Str.[] rest h =
    rw (cons-append quote "" (Str.◌∷◌ (char 44 tt) rest), nil-append (Str.◌∷◌ (char 44 tt) rest))
      refl
split-closed (Str.◌∷◌ c s) rest (comma, quoted, h) =
    rw (cons-append c (closed s) (Str.◌∷◌ (char 44 tt) rest), comma, split-closed s rest h) refl

pub split-last : (t : String) → IsOpaque t → split is_comma (closed t) ≡ closed t ∷ []
unfolding split
split-last Str.[] h = refl
split-last (Str.◌∷◌ c s) (comma, quoted, h) = rw (comma, split-last s h) refl

abbrev pub spaced : Bool → String → String
spaced true s = Str.◌∷◌ space s
spaced false s = s

pub split-opening :
    (b : Bool) (t s : String) (parts : List String)
    → split is_comma s ≡ closed t ∷ parts
    → split is_comma (spaced b (opening s)) ≡ spaced b (opening (closed t)) ∷ parts
unfolding split
split-opening true t s parts e = rw e refl
split-opening false t s parts e = rw e refl

abbrev followed : String → String → String
followed t rest = opening (Str.◌++◌ (closed t) (Str.◌∷◌ (char 44 tt) (Str.◌∷◌ space rest)))

pub sent-followed : (t u : String) (ts : List String) → sent t (u ∷ ts) ≡ followed t (sent u ts)
sent-followed t u ts =
    rw
      (
        weak-chars t,
        cons-append (char 44 tt) " " (sent u ts),
        cons-append space "" (sent u ts),
        nil-append (sent u ts),
      )
      (cons-append (char 87 tt) _ _
        ∙ ap (Str.◌∷◌ (char 87 tt))
            (cons-append (char 47 tt) _ _ ∙ ap (Str.◌∷◌ (char 47 tt)) (cons-append quote _ _)))
