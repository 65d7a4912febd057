-- ===== src/Language/Processor/Severity.antt =====
-- About the severity that process_text of civicbrain/domain/nlp/processor.py reads off a text.
use civicbrain_v.Base.{
  ℕ, List, [], ◌∷◌, Bool, true, false, ◌&&◌, ◌||◌, not, leb, ◌==◌, any, all, find, Option, none,
  some, ◌≡◌, refl, arith, Option-cases, inl, inr,
}
use civicbrain_v.Text.{Text, is_empty}
use civicbrain_v.Text.Strip.{strip}
use civicbrain_v.Language.Lexicon.{physical_severity_keywords}
use civicbrain_v.Language.Processor.{
  Alphabet, search_tiers, has_word, join_words, process_text, tier_of,
}
use civicbrain_v.Language.Processor.Terms.{process_text-analyze}

module _ (found : Text → Bool) where
  -- No term of a tier above this one is found.
  abbrev pub none_above : ℕ → List (ℕ × List Text) → Bool
  none_above k = all (λ (e : ℕ × List Text). leb e.0 k || not (any found e.1))

  -- A term of this tier is found.
  abbrev pub some_at : ℕ → List (ℕ × List Text) → Bool
  some_at k = any (λ (e : ℕ × List Text). e.0 == k && any found e.1)

  -- No tier has a term that is found, or the tier is the highest that has one.
  abbrev pub IsHighest : List (ℕ × List Text) → Option ℕ → Type 0
  IsHighest table none = all (λ (e : ℕ × List Text). not (any found e.1)) table ≡ true
  IsHighest table (some k) = (some_at k table ≡ true) × (none_above k table ≡ true)

  abbrev below : ℕ → List (ℕ × List Text) → Bool
  below k = all (λ (e : ℕ × List Text). leb e.0 k)

  abbrev pub descending : List (ℕ × List Text) → Bool
  descending [] = true
  descending (e ∷ rest) = below e.0 rest && descending rest

  below-none_above :
      (k : ℕ) (table : List (ℕ × List Text)) → below k table ≡ true → none_above k table ≡ true
  below-none_above k [] h = refl
  below-none_above k (e ∷ rest) h = ground (arith, below-none_above k rest)

  any-find-none : (ts : List Text) → find found ts ≡ none → any found ts ≡ false
  any-find-none [] h = refl
  any-find-none (t ∷ ts) h = ground (arith, any-find-none ts)

  any-find-some : (ts : List Text) {t : Text} → find found ts ≡ some t → any found ts ≡ true
  any-find-some [] h = cc
  any-find-some (t ∷ ts) {t = u} h = ground (arith, any-find-some ts {t = u})

  search_tiers-IsHighest :
      (table : List (ℕ × List Text))
      → descending table ≡ true
      → IsHighest table (tier_of (search_tiers found table))
  unfolding search_tiers
  search_tiers-IsHighest [] h = refl
  search_tiers-IsHighest ((k, ts) ∷ rest) h = elim (Option-cases (find found ts)) [
    | inl e ↦
        rw (search_tiers, e)
          (later (search_tiers found rest) (any-find-none ts e)
            (search_tiers-IsHighest rest (ground arith)))
    | inr (t, e) ↦
        let hit = any-find-some ts {t = t} e in
        rw (search_tiers, e) (ground arith, ground (arith, below-none_above k rest))
  ]
    where
      later :
          (r : Option (ℕ × Text))
          → any found ts ≡ false
          → IsHighest rest (tier_of r)
          → IsHighest ((k, ts) ∷ rest) (tier_of r)
      later none e i = ground arith
      later (some (j, t)) e (i, above) = (ground arith, ground arith)

-- Of a text that is not blank the severity is the highest of the tiers 1 to 5 with a term that
-- stands in the text as words, and there is none where no term does, whatever the citizen declares.
pub process_text-IsHighest :
    (a : Alphabet) (text : Text) (c : Option Text)
    → is_empty (strip text) ≡ false
    → IsHighest
        (has_word a (a.lower (join_words (strip text))))
        physical_severity_keywords
        (process_text a text c).physical_severity_hint
unfolding physical_severity_keywords
process_text-IsHighest a text c full = rw (process_text-analyze a text c full) (
    search_tiers-IsHighest (has_word a (a.lower (join_words (strip text))))
      physical_severity_keywords refl)
