-- ===== src/Language/Processor/Agreement.antt =====
-- About two searches that find the same terms, in civicbrain/domain/nlp/processor.py.
use civicbrain_v.Base.{
  ℕ, List, [], ◌∷◌, Bool, true, if◌then◌else◌, any, all, find, All, Option, ◌≡◌, refl, arith,
}
use civicbrain_v.Text.{Text}
use civicbrain_v.Language.Lexicon.{category_lexicon, physical_severity_keywords}
use civicbrain_v.Language.Processor.{
  Alphabet, Language, WritingSystem, TextAnalysisResult, Scan, scan_terms, scan_lexicon,
  search_tiers, take_term, has_word, has_term, analyze,
}

pub All-of_all {ℓ κ} :
    {A : Type ℓ} (q : A → Bool) (P : A → Type κ)
    → ((x : A) → q x ≡ true → P x)
    → (xs : List A) → all q xs ≡ true
    → All P xs
All-of_all q P h [] e = tt
All-of_all q P h (x ∷ xs) e = (h x (ground arith), All-of_all q P h xs (ground arith))

module _ (f g : Text → Bool) where
  -- Both find the same of these terms.
  abbrev pub Agree : List Text → Type 0
  Agree = All (λ t. f t ≡ g t)

  pub any-Agree : (ts : List Text) → Agree ts → any f ts ≡ any g ts
  any-Agree [] h = refl
  any-Agree (t ∷ ts) (e, h) = rw (e, any-Agree ts h) refl

  find-Agree : (ts : List Text) → Agree ts → find f ts ≡ find g ts
  find-Agree [] h = refl
  find-Agree (t ∷ ts) (e, h) = rw (e, find-Agree ts h) refl

  scan_terms-Agree :
      (category : Text) (ts : List Text) (s : Scan)
      → Agree ts
      → scan_terms f category ts s ≡ scan_terms g category ts s
  unfolding scan_terms
  scan_terms-Agree category [] s h = refl
  scan_terms-Agree category (t ∷ ts) s (e, h) =
      rw e (scan_terms-Agree category ts (if g t then take_term category t s else s) h)

  scan_lexicon-Agree :
      (table : List (Text × List Text)) (s : Scan)
      → All (λ (e : Text × List Text). Agree e.1) table
      → scan_lexicon f table s ≡ scan_lexicon g table s
  unfolding scan_lexicon
  scan_lexicon-Agree [] s h = refl
  scan_lexicon-Agree ((category, ts) ∷ rest) s (e, h) =
      rw (scan_terms-Agree category ts s e) (scan_lexicon-Agree rest (scan_terms g category ts s) h)

  search_tiers-Agree :
      (table : List (ℕ × List Text))
      → All (λ (e : ℕ × List Text). Agree e.1) table
      → search_tiers f table ≡ search_tiers g table
  unfolding search_tiers
  search_tiers-Agree [] h = refl
  search_tiers-Agree ((tier, ts) ∷ rest) (e, h) =
      rw (search_tiers, find-Agree ts e, search_tiers-Agree rest h) refl

-- The result, apart from the text itself and the urgency.
abbrev pub apart : TextAnalysisResult → TextAnalysisResult
apart r = record r { normalized_text = []; citizen_urgency_score = 0 }

pub analyze-Agree :
    (a : Alphabet) (sc : Language × WritingSystem) (s t : Text) (c : Option Text)
    → All
        (λ (e : Text × List Text).
          Agree (has_term a sc.1 (a.lower s)) (has_term a sc.1 (a.lower t)) e.1)
        category_lexicon
    → All
        (λ (e : ℕ × List Text). Agree (has_word a (a.lower s)) (has_word a (a.lower t)) e.1)
        physical_severity_keywords
    → apart (analyze a sc s c) ≡ apart (analyze a sc t c)
analyze-Agree a sc s t c h k =
    rw
      (
        scan_lexicon-Agree _ _ category_lexicon _ h,
        search_tiers-Agree _ _ physical_severity_keywords k,
      )
      refl
