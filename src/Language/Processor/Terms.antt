-- ===== src/Language/Processor/Terms.antt =====
-- About the category, the severity and the keywords that process_text of
-- civicbrain/domain/nlp/processor.py finds.
use mathlib.Core.List.{append_assoc, append-nil}
use civicbrain_v.Base.{
  List, [], ◌∷◌, ◌++◌, Bool, true, false, ◌&&◌, not, if◌then◌else◌, any, all, select, Option, none,
  some, ◌≡◌, refl, sym, ◌∙◌, arith, Bool-cases, inl, inr,
}
use civicbrain_v.Text.{Text, is_empty, text_eq, eq_of_text_eq, text_eq_refl}
use civicbrain_v.Text.Members.{member, all_distinct}
use civicbrain_v.Text.Strip.{strip}
use civicbrain_v.Language.Lexicon.{category_lexicon}
use civicbrain_v.Language.Processor.{
  Alphabet, Scan, scan_terms, scan_lexicon, take_term, is_unset, is_none, dedupe, declared_category,
  has_term, found_terms, severity_of, detect_script, join_words, analyze, process_text,
}

module _ (found : Text → Bool) where
  -- All the terms that are found, in the order of the table.
  abbrev pub terms_found : List (Text × List Text) → List Text
  terms_found [] = []
  terms_found ((_, terms) ∷ rest) = select found terms ++ terms_found rest

  -- The declared category; without one, the first of the table with a term that is found.
  abbrev pub chosen : List (Text × List Text) → Option Text → Option Text
  chosen [] declared = declared
  chosen ((category, terms) ∷ rest) declared =
      let later = chosen rest declared in
      if is_unset declared && any found terms then some category else later

  scan_terms-matched :
      (category : Text) (terms : List Text) (s : Scan)
      → is_empty category ≡ false
      → (scan_terms found category terms s).matched
        ≡ (if is_unset s.matched && any found terms then some category else s.matched)
  unfolding scan_terms
  scan_terms-matched category [] s h = ground arith
  scan_terms-matched category (t ∷ ts) s h = elim (Bool-cases (found t)) [
    | inl e ↦
        rw (scan_terms, e)
          (scan_terms-matched category ts (take_term category t s) h ∙ ground arith)
    | inr e ↦ rw (scan_terms, e) (scan_terms-matched category ts s h)
  ]

  scan_terms-extracted :
      (category : Text) (terms : List Text) (s : Scan)
      → (scan_terms found category terms s).extracted ≡ s.extracted ++ select found terms
  unfolding scan_terms
  scan_terms-extracted category [] s = sym (append-nil s.extracted)
  scan_terms-extracted category (t ∷ ts) s = elim (Bool-cases (found t)) [
    | inl e ↦
        rw (scan_terms, e)
          (scan_terms-extracted category ts (take_term category t s)
            ∙ append_assoc s.extracted (t ∷ []) (select found ts))
    | inr e ↦ rw (scan_terms, e) (scan_terms-extracted category ts s)
  ]

  -- A category that is set stays.
  chosen_set :
      (table : List (Text × List Text)) (declared : Option Text)
      → is_unset declared ≡ false
      → chosen table declared ≡ declared
  chosen_set [] declared h = refl
  chosen_set (e ∷ rest) declared h = rw (h, chosen_set rest declared h) refl

  scan_lexicon-matched :
      (table : List (Text × List Text)) (s : Scan)
      → all (λ (e : Text × List Text). not (is_empty e.0)) table ≡ true
      → (scan_lexicon found table s).matched ≡ chosen table s.matched
  unfolding scan_lexicon
  scan_lexicon-matched [] s h = refl
  scan_lexicon-matched ((category, terms) ∷ rest) s h =
      scan_lexicon-matched rest (scan_terms found category terms s) (ground arith)
      ∙ rw (scan_terms-matched category terms s (ground arith))
          (elim (Bool-cases (is_unset s.matched && any found terms)) [
            | inl e ↦ rw e (chosen_set rest (some category) (ground arith))
            | inr e ↦ rw e refl
          ])

  scan_lexicon-extracted :
      (table : List (Text × List Text)) (s : Scan)
      → (scan_lexicon found table s).extracted ≡ s.extracted ++ terms_found table
  unfolding scan_lexicon
  scan_lexicon-extracted [] s = sym (append-nil s.extracted)
  scan_lexicon-extracted ((category, terms) ∷ rest) s =
      scan_lexicon-extracted rest (scan_terms found category terms s)
      ∙ rw (scan_terms-extracted category terms s)
          (append_assoc s.extracted (select found terms) (terms_found rest))

member_eq : (t k : Text) (ts : List Text) → text_eq k t ≡ true → member t ts ≡ member k ts
member_eq t k ts h = let eq = eq_of_text_eq k t h in rw eq refl

-- The terms that are kept are those that are not seen.
member-dedupe :
    (t : Text) (seen ts : List Text)
    → member t (dedupe seen ts) ≡ (member t ts && not (member t seen))
unfolding member dedupe
member-dedupe t seen [] = refl
member-dedupe t seen (k ∷ ts) =
    ground (arith, member-dedupe t seen ts, member-dedupe t (k ∷ seen) ts, member_eq t k seen)

member-dedupe_nil : (t : Text) (ts : List Text) → member t (dedupe [] ts) ≡ member t ts
unfolding member
member-dedupe_nil t ts = member-dedupe t [] ts ∙ ground arith

dedupe-all_distinct : (seen ts : List Text) → all_distinct (dedupe seen ts) ≡ true
unfolding all_distinct member dedupe
dedupe-all_distinct seen [] = refl
dedupe-all_distinct seen (k ∷ ts) = ground (
  arith,
  dedupe-all_distinct seen ts,
  dedupe-all_distinct (k ∷ seen) ts,
  member-dedupe k (k ∷ seen) ts,
  text_eq_refl k,
)

lexicon_named : all (λ (e : Text × List Text). not (is_empty e.0)) category_lexicon ≡ true
unfolding category_lexicon
lexicon_named = refl

-- Is a term of the lexicon found in the text?
abbrev pub found_in_text : Alphabet → Text → Text → Bool
found_in_text a text =
    has_term a (detect_script a (strip text)).1 (a.lower (join_words (strip text)))

declared_category_lem :
    (a : Alphabet) (c : Option Text)
    → declared_category a c
      ≡ elim c [ none ↦ none | some d ↦ if is_empty d then none else some (a.upper (strip d)) ]
declared_category_lem a none = refl
declared_category_lem a (some d) = refl

module _ (a : Alphabet) (text : Text) (c : Option Text) (full : is_empty (strip text) ≡ false) where
  pub process_text-analyze :
      process_text a text c ≡ analyze a (detect_script a (strip text)) (join_words (strip text)) c
  unfolding process_text
  process_text-analyze = rw full refl

  -- In a text that is not blank the category is the one that the citizen declares, stripped and in
  -- capitals, if this is not empty; otherwise the first of the lexicon with a term in the text, or
  -- what is declared where there is none. A person is asked exactly where no category results.
  pub process_text-chosen :
      ((process_text a text c).suggested_category
        ≡ chosen (found_in_text a text) category_lexicon (elim c [
          | none ↦ none
          | some d ↦ if is_empty d then none else some (a.upper (strip d))
        ]))
      × ((process_text a text c).requires_human_triage
          ≡ is_none (process_text a text c).suggested_category)
  process_text-chosen =
      rw (process_text-analyze, ← declared_category_lem a c)
        (
          scan_lexicon-matched (found_in_text a text) category_lexicon
              (record { matched = declared_category a c; extracted = [] }) lexicon_named,
          refl,
        )

  -- The keywords of a text that is not blank are distinct, and they are the terms of the lexicon
  -- that are found in it and the term that gives the severity, whatever the citizen declares.
  pub process_text-keywords :
      (all_distinct (process_text a text c).extracted_keywords ≡ true)
      × ((t : Text)
          → member t (process_text a text c).extracted_keywords
            ≡ member t (
                terms_found (found_in_text a text) category_lexicon
                ++ found_terms (severity_of a (a.lower (join_words (strip text))))))
  process_text-keywords =
      let extracted =
        scan_lexicon-extracted (found_in_text a text) category_lexicon
          (record { matched = declared_category a c; extracted = [] }) in
      rw (process_text-analyze, extracted) (dedupe-all_distinct _ _, λ t. member-dedupe_nil t _)
