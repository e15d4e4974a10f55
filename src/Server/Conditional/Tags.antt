-- ===== src/Server/Conditional/Tags.antt =====
-- Which entity tags of a client match the current one.
use Prim.Native.String as Str
use Prim.Native.Char.{char, code}
use text.Mathlib.Text.{◌==◌ as str_eq}
use text.Mathlib.TextEquality.{eq_iff}
use text.Mathlib.TextLemmas.{head-eq_of_cons-eq}
use status_list_server.Base.{
  String, Bool, true, false, Bool-cases, some, List, [], ◌∷◌, if◌then◌else◌, ◌≡◌, refl, sym, ap,
  ◌∙◌, arith, ◌⊎◌, inl, inr,
}
use status_list_server.Base.Chars.{is_whitespace, drop_start, drop_end, trim, split}
use status_list_server.Server.Conditional.{
  ConditionalResponse, not_modified, modified, is_comma, etag_eq_weak, evaluate_entries,
  evaluate_if_none_match,
}
use status_list_server.Server.Conditional.Splits.{
  IsOpaque, weak, sent, space, quote, opening, closed, weak-chars, keep_before-none, trim-opening,
  trim-spaced, normalize_etag-opening, split-closed, split-last, spaced, split-opening,
  sent-followed,
}

-- One entry that is a tag, with the space before it or without.
evaluate-spaced :
    (b : Bool) (t tag : String) (entries : List String)
    → IsOpaque t
    → IsOpaque tag
    → evaluate_entries (spaced b (opening (closed t)) ∷ entries) (weak tag)
      ≡ (if str_eq t tag then not_modified else evaluate_entries entries (weak tag))
unfolding evaluate_entries etag_eq_weak
evaluate-spaced true t tag entries ht htag =
    rw (trim-spaced t, weak-chars tag, normalize_etag-opening t ht, normalize_etag-opening tag htag)
      refl
evaluate-spaced false t tag entries ht htag =
    rw
      (trim-opening t, weak-chars tag, normalize_etag-opening t ht, normalize_etag-opening tag htag)
      refl

abbrev pub AreOpaque : String → List String → Type 0
AreOpaque t [] = IsOpaque t
AreOpaque t (u ∷ ts) = IsOpaque t × AreOpaque u ts

abbrev pub Names : String → String → List String → Type 0
Names tag t [] = t ≡ tag
Names tag t (u ∷ ts) = (t ≡ tag) ⊎ Names tag u ts

-- The answer is `not_modified` for one that is named and `modified` for one that is not.
abbrev pub Matches : String → String → List String → ConditionalResponse → Type 0
Matches tag t ts not_modified = Names tag t ts
Matches tag t ts modified = ¬ (Names tag t ts)

Matches-later :
    (tag t u : String) (ts : List String) (x : ConditionalResponse)
    → ¬ (t ≡ tag)
    → Matches tag u ts x
    → Matches tag t (u ∷ ts) x
Matches-later tag t u ts not_modified other h = inr h
Matches-later tag t u ts modified other h =
    λ k. elim k [ inl same ↦ other same | inr later ↦ h later ]

differ : (t tag : String) → str_eq t tag ≡ false → ¬ (t ≡ tag)
differ t tag other = λ h. ground (arith, other, eq_iff t tag)

entries-Match :
    (b : Bool) (tag t : String) (ts : List String)
    → IsOpaque tag
    → AreOpaque t ts
    → Matches tag t ts (evaluate_entries (split is_comma (spaced b (sent t ts))) (weak tag))
unfolding evaluate_entries
entries-Match b tag t [] htag ht =
    rw
      (
        weak-chars t,
        split-opening b t (closed t) [] (split-last t ht),
        evaluate-spaced b t tag [] ht htag,
      )
      (elim (Bool-cases (str_eq t tag)) [
        | inl same ↦ rw same ((eq_iff t tag).0 same)
        | inr other ↦ rw other (differ t tag other)
      ])
entries-Match b tag t (u ∷ ts) htag (ht, hts) =
    rw
      (
        sent-followed t u ts,
        split-opening b t _ _ (split-closed t (Str.◌∷◌ space (sent u ts)) ht),
        evaluate-spaced b t tag (split is_comma (Str.◌∷◌ space (sent u ts))) ht htag,
      )
      (elim (Bool-cases (str_eq t tag)) [
        | inl same ↦ rw same (inl ((eq_iff t tag).0 same))
        | inr other ↦ rw other (
            Matches-later tag t u ts
              (evaluate_entries (split is_comma (Str.◌∷◌ space (sent u ts))) (weak tag))
              (differ t tag other) (entries-Match true tag u ts htag hts))
      ])

drop_end-opening :
    (s : String)
    → drop_end is_whitespace (opening s)
      ≡ Str.◌∷◌ (char 87 tt) (drop_end is_whitespace (Str.◌∷◌ (char 47 tt) (Str.◌∷◌ quote s)))
unfolding drop_end
drop_end-opening s =
    keep_before-none is_whitespace (char 87 tt)
      (drop_end is_whitespace (Str.◌∷◌ (char 47 tt) (Str.◌∷◌ quote s))) refl

not_star : (s : String) → str_eq (trim (opening s)) "*" ≡ false
unfolding drop_start
not_star s = elim (Bool-cases (str_eq (trim (opening s)) "*")) [
  | inl star ↦ absurd (
      mark (head-eq_of_cons-eq (sym (drop_end-opening s) ∙ (eq_iff (trim (opening s)) "*").0 star)))
  | inr other ↦ other
]
  where
    mark : char 87 tt ≡ char 42 tt → ⊥
    mark e = absurd (omega (arith, ap code e))

sent-opening : (t : String) (ts : List String) → (s : String) × (sent t ts ≡ opening s)
sent-opening t [] = (closed t, weak-chars t)
sent-opening t (u ∷ ts) = (_, sent-followed t u ts)

--
pub evaluate_if_none_match-Matches :
    (tag t : String) (ts : List String)
    → IsOpaque tag
    → AreOpaque t ts
    → Matches tag t ts (evaluate_if_none_match (some (sent t ts)) (weak tag))
unfolding evaluate_if_none_match
evaluate_if_none_match-Matches tag t ts htag hts =
    let shape = sent-opening t ts in
    rw (ap (λ h. str_eq (trim h) "*") shape.1 ∙ not_star shape.0)
      (entries-Match false tag t ts htag hts)
