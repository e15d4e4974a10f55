-- ===== src/Certificates/Challenge/Zones/Best.antt =====
-- The zone that is found is the longest one that holds the domain.
use mathlib.Core.Path.{subst}
use mathlib.Core.Option.{some-injective}
use status_list_server.Base.{
  ℕ, ◌≤◌, ltb, ltb→le, ltb→lt, true, Bool-cases, Option, none, some, List, [], ◌∷◌, length, ◌≡◌,
  refl, sym, ap, ◌∙◌, ◌⊎◌, inl, inr, arith,
}
use status_list_server.Certificates.Challenge.Zones.{
  ZoneInfo, wildcard, matches_zone, is_match, better, find_from, find_best_match,
}
use status_list_server.Certificates.Challenge.Zones.Covers.{
  Covers, Covers-of_match, match-of_Covers, In,
}

-- A name as long as this at least.
unfoldable pub AtLeast : ℕ → Option ZoneInfo → Type 0
AtLeast n none = ⊥
AtLeast n (some z) = n ≤ length z.name

better-AtLeast :
    (best : Option ZoneInfo) (zone : ZoneInfo)
    → AtLeast (length zone.name) (better best zone)
      × ((n : ℕ) → AtLeast n best → AtLeast n (better best zone))
unfolding AtLeast
better-AtLeast none zone = (omega arith, λ n h. absurd h)
better-AtLeast (some best) zone = elim (Bool-cases (ltb (length best.name) (length zone.name))) [
  | inl longer ↦
      let lt = ltb→lt (length best.name) (length zone.name) longer in
      rw longer (omega arith, λ n h. omega (arith, h, lt))
  | inr other ↦ rw other (ltb→le (length best.name) (length zone.name) other, λ n h. h)
]

find_from-AtLeast :
    (lookup : List ℕ) (best : Option ZoneInfo) (zones : List ZoneInfo) (n : ℕ)
    → AtLeast n best
    → AtLeast n (find_from lookup best zones)
unfolding find_from
find_from-AtLeast lookup best [] n h = h
find_from-AtLeast lookup best (zone ∷ zones) n h = elim (Bool-cases (is_match lookup zone.name)) [
  | inl match ↦
      rw match
        (find_from-AtLeast lookup (better best zone) zones n ((better-AtLeast best zone).1 n h))
  | inr other ↦ rw other (find_from-AtLeast lookup best zones n h)
]

found-AtLeast :
    (lookup : List ℕ) (zones : List ZoneInfo) (best : Option ZoneInfo) (z : ZoneInfo)
    → In z zones
    → is_match lookup z.name ≡ true
    → AtLeast (length z.name) (find_from lookup best zones)
unfolding find_from In
found-AtLeast lookup [] best z i match = absurd i
found-AtLeast lookup (zone ∷ zones) best z (inl here) match =
    rw (here, sym (ap (λ y. is_match lookup y.name) here) ∙ match)
      (find_from-AtLeast lookup (better best zone) zones (length zone.name)
        (better-AtLeast best zone).0)
found-AtLeast lookup (zone ∷ zones) best z (inr there) match =
    found-AtLeast lookup zones _ z there match

-- Where the answer comes from.
Comes : List ℕ → Option ZoneInfo → List ZoneInfo → Option ZoneInfo → Type 0
Comes lookup best zones answer =
    (answer ≡ best)
    ⊎ ((z : ZoneInfo) × (answer ≡ some z) × In z zones × (is_match lookup z.name ≡ true))

better-cases :
    (best : Option ZoneInfo) (zone : ZoneInfo)
    → (better best zone ≡ some zone) ⊎ (better best zone ≡ best)
better-cases none zone = inl refl
better-cases (some best) zone = elim (Bool-cases (ltb (length best.name) (length zone.name))) [
  | inl longer ↦ inl (rw longer refl)
  | inr other ↦ inr (rw other refl)
]

find_from-Comes :
    (lookup : List ℕ) (best : Option ZoneInfo) (zones : List ZoneInfo)
    → Comes lookup best zones (find_from lookup best zones)
unfolding find_from Comes In
find_from-Comes lookup best [] = inl refl
find_from-Comes lookup best (zone ∷ zones) = elim (Bool-cases (is_match lookup zone.name)) [
  | inr other ↦ rw other (elim (find_from-Comes lookup best zones) [
    | inl same ↦ inl same
    | inr (z, found, i, match) ↦ inr (z, found, inr i, match)
  ])
  | inl match ↦ rw match (elim (find_from-Comes lookup (better best zone) zones) [
    | inr (z, found, i, m) ↦ inr (z, found, inr i, m)
    | inl same ↦ elim (better-cases best zone) [
      | inl new ↦ inr (zone, same ∙ new, inl refl, match)
      | inr old ↦ inl (same ∙ old)
    ]
  ])
]

-- No zone is a wildcard, `*.` and a name.
abbrev pub ArePlain : List ZoneInfo → Type 0
ArePlain zones = (z : ZoneInfo) → In z zones → wildcard z.name ≡ none

-- The answer is one of the zones that hold the domain, and none of those is longer; no answer means
-- that no zone holds it.
abbrev pub IsBest : List ℕ → List ZoneInfo → Option ZoneInfo → Type 0
IsBest lookup zones none = (z : ZoneInfo) → In z zones → ¬ (Covers z.name lookup)
IsBest lookup zones (some best) =
    In best zones
    × Covers best.name lookup
    × ((z : ZoneInfo) → In z zones → Covers z.name lookup → length z.name ≤ length best.name)

plain-match :
    (lookup : List ℕ) (z : ZoneInfo)
    → wildcard z.name ≡ none
    → is_match lookup z.name ≡ matches_zone lookup z.name
plain-match lookup z plain = rw plain refl

-- Where no zone is a wildcard: the zone that is found for a domain is one of the given ones, is
-- the domain or what follows one of its dots, and no zone of which this holds is longer; where
-- none is found, it holds of no zone.
pub find_best_match-IsBest :
    (lookup : List ℕ) (zones : List ZoneInfo)
    → ArePlain zones
    → IsBest lookup zones (find_best_match lookup zones)
unfolding find_best_match Comes AtLeast
find_best_match-IsBest lookup zones plain =
    by_answer (find_from lookup none zones) refl (find_from-Comes lookup none zones)
  where
    matched : (z : ZoneInfo) → In z zones → Covers z.name lookup → is_match lookup z.name ≡ true
    matched z i covers = plain-match lookup z (plain z i) ∙ match-of_Covers lookup z.name covers

    by_answer :
        (answer : Option ZoneInfo)
        → find_from lookup none zones ≡ answer
        → Comes lookup none zones answer
        → IsBest lookup zones answer
    by_answer none e comes = λ z i covers.
        subst (AtLeast (length z.name)) e (found-AtLeast lookup zones none z i (matched z i covers))
    by_answer (some best) e (inl nothing) = cc
    by_answer (some best) e (inr (z, found, i, match)) =
        let same = some-injective best z found in
        (
          subst (λ y. In y zones) (sym same) i,
          subst (λ y. Covers y.name lookup) (sym same)
              (Covers-of_match lookup z.name (sym (plain-match lookup z (plain z i)) ∙ match)),
          λ y j covers.
              subst (AtLeast (length y.name)) e
                (found-AtLeast lookup zones none y j (matched y j covers)),
        )
