-- ===== src/Config/Database/Host.antt =====
-- The marks that a host which `validate_database_host` accepts does not hold.
use Prim.Native.Char.{Char, code}
use Prim.Native.String as Str
use status_list_server.Base.{
  ℕ, ◌==◌, Bool, true, false, Bool-cases, String, Option, Option-cases, some, ok, err-ne-ok, ◌≡◌,
  refl, sym, ap, ◌∙◌, inl, inr, arith, map_option,
}
use status_list_server.Base.Chars.{any_char, is_char}
use status_list_server.Base.Text.Digits.{any_char-append}
use status_list_server.Config.Database.{
  strip_first, strip_last, strip_brackets, database_host_is_ipv6, format_database_url_host, holds,
  is_invalid_host, validate_database_host,
}

-- An IPv6 address holds no slash and no `#`.
abbrev pub ReadsIpv6 : (String → Bool) → Type 0
ReadsIpv6 is_ipv6 =
    (host : String)
    → is_ipv6 host ≡ true
    → (any_char (is_char b'/') host ≡ false) × (any_char (is_char b'#') host ≡ false)

some-injective : {A : Type 0} {a b : A} → ◌≡◌ {A = Option A} (some a) (some b) → a ≡ b
some-injective h = cc

module _ (m : ℕ) (opens : (m == b'[') ≡ false) (closes : (m == b']') ≡ false) where
  cons-any_char :
      (c : Char) (s t : String)
      → any_char (is_char m) (Str.◌∷◌ c t) ≡ false
      → (any_char (is_char m) t ≡ false → any_char (is_char m) s ≡ false)
      → any_char (is_char m) (Str.◌∷◌ c s) ≡ false
  unfolding any_char
  cons-any_char c s t clean step = elim (Bool-cases (code c == m)) [
    | inl here ↦ absurd (ground (arith, clean))
    | inr other ↦ rw other (step (ground (arith, clean)))
  ]

  strip_last-any_char :
      (s t : String)
      → strip_last b']' s ≡ some t
      → any_char (is_char m) t ≡ false
      → any_char (is_char m) s ≡ false
  unfolding strip_last any_char
  strip_last-any_char Str.[] t h clean = refl
  strip_last-any_char (Str.◌∷◌ c Str.[]) t h clean = ground arith
  strip_last-any_char (Str.◌∷◌ c (Str.◌∷◌ d s)) t h clean =
      elim (Option-cases (strip_last b']' (Str.◌∷◌ d s))) [
        | inl none_left ↦ cc
        | inr (u, found) ↦
            let whole : Str.◌∷◌ c u ≡ t =
              some-injective (sym (ap (map_option (Str.◌∷◌ c)) found) ∙ h) in
            let rest = ap (any_char (is_char m)) whole ∙ clean in
            cons-any_char c (Str.◌∷◌ d s) u rest (strip_last-any_char (Str.◌∷◌ d s) u found)
      ]

  module _ (is_ipv6 : String → Bool)
      (reads : (host : String) → is_ipv6 host ≡ true → any_char (is_char m) host ≡ false) where
    bracketed-clean :
        (host : String)
        → holds is_ipv6 (strip_brackets (strip_first b'[' host)) ≡ true
        → any_char (is_char m) host ≡ false
    unfolding any_char
    bracketed-clean Str.[] v6 = refl
    bracketed-clean (Str.◌∷◌ c s) v6 = elim (Bool-cases (code c == b'[')) [
      | inl here ↦ elim (Option-cases (strip_last b']' s)) [
        | inl none_left ↦ let bad = rw (here, none_left) at v6 in cc
        | inr (u, found) ↦
            let clean = reads u (rw (here, found) at v6) in
            cons-any_char c s u (ground (arith, clean)) (strip_last-any_char s u found)
      ]
      | inr other ↦ let bad = rw other at v6 in cc
    ]

    host-clean :
        (host : String)
        → (is_invalid_host host ≡ false → any_char (is_char m) host ≡ false)
        → validate_database_host is_ipv6 host ≡ ok tt
        → any_char (is_char m) host ≡ false
    unfolding validate_database_host database_host_is_ipv6
    host-clean host refused valid = elim (Bool-cases (database_host_is_ipv6 is_ipv6 host)) [
      | inl v6 ↦ elim (Bool-cases (is_ipv6 host)) [
        | inl plain ↦ reads host plain
        | inr bracketed ↦ bracketed-clean host (rw bracketed at v6)
      ]
      | inr other ↦ elim (Bool-cases (is_invalid_host host)) [
        | inl invalid ↦ absurd (err-ne-ok (rw (other, invalid) at valid))
        | inr fine ↦ refused fine
      ]
    ]

    format-clean :
        (host : String)
        → any_char (is_char m) host ≡ false
        → any_char (is_char m) (format_database_url_host is_ipv6 host) ≡ false
    unfolding format_database_url_host any_char
    format-clean host clean = elim (Bool-cases (is_ipv6 host)) [
      | inl v6 ↦ rw v6 (
          any_char-append (is_char m) "[" (Str.◌++◌ host "]") (ground arith)
            (any_char-append (is_char m) host "]" clean (ground arith)))
      | inr other ↦ rw other clean
    ]

-- A host that is accepted is written into the URL without a slash and without a `#`.
pub format_database_url_host-clean :
    (is_ipv6 : String → Bool) (host : String)
    → ReadsIpv6 is_ipv6
    → validate_database_host is_ipv6 host ≡ ok tt
    → (any_char (is_char b'/') (format_database_url_host is_ipv6 host) ≡ false)
      × (any_char (is_char b'#') (format_database_url_host is_ipv6 host) ≡ false)
format_database_url_host-clean is_ipv6 host reads valid =
    let slash = λ (h : String) (k : is_ipv6 h ≡ true). (reads h k).0 in
    let hash = λ (h : String) (k : is_ipv6 h ≡ true). (reads h k).1 in
    (
      format-clean b'/' refl refl is_ipv6 slash host
          (host-clean b'/' refl refl is_ipv6 slash host (λ fine. ground (arith, fine)) valid),
      format-clean b'#' refl refl is_ipv6 hash host
          (host-clean b'#' refl refl is_ipv6 hash host (λ fine. ground (arith, fine)) valid),
    )
