-- ===== src/Language/Processor/Urgency.antt =====
-- About the urgency score that process_text of civicbrain/domain/nlp/processor.py computes.
use mathlib.Core.List.{append_assoc, append-nil}
use civicbrain_v.Base.{
  ℕ, List, [], ◌∷◌, ◌++◌, ◌+◌, ◌*◌, ◌≤◌, map, Bool, true, false, ◌&&◌, ltb, leb, ◌==◌,
  if◌then◌else◌, select, length, all, Option, ◌≡◌, refl, sym, ◌∙◌, ap, arith, Bool-cases, inl, inr,
}
use civicbrain_v.Text.{Text, is_empty}
use civicbrain_v.Text.Strip.{strip}
use civicbrain_v.Language.Lexicon.{emotion_distress_terms}
use civicbrain_v.Language.Processor.{
  Alphabet, min, count_of, punct_score, caps_score, distress_score, calculated_urgency, join_words,
  process_text, TextAnalysisResult,
}
use civicbrain_v.Language.Processor.Agreement.{All-of_all, Agree}
use civicbrain_v.Language.Processor.Marks.{
  IsStandard, is_mark, capital, free, by_mark, has_word-mark, join_words-mark,
}
use civicbrain_v.Language.Processor.Shouting.{
  is_solid, join_words-capital, process_text_solid, is_solid-mark, map-capital-is_solid,
}

min_mono : (m n k : ℕ) → m ≤ n → min m k ≤ min n k
min_mono m n k h = ground arith

chain : {k l m n p : ℕ} → k ≡ l → l ≤ m → n ≡ m → n ≤ p → k ≤ p
chain e h f g = omega arith

sum_mono : (p q c d k l : ℕ) → p ≤ q → c ≤ d → k ≤ l → p + c + k ≤ q + d + l
sum_mono p q c d k l x y z = omega arith

calculated_urgency-le : (a : Alphabet) (s : Text) → calculated_urgency a s ≤ 100
calculated_urgency-le a s = ground arith

process_text-le :
    (a : Alphabet) (text : Text) (c : Option Text)
    → (process_text a text c).citizen_urgency_score ≤ 100
unfolding process_text
process_text-le a text c = elim (Bool-cases (is_empty (strip text))) [
  | inl e ↦ rw e (omega arith)
  | inr e ↦ rw e (calculated_urgency-le a (join_words (strip text)))
]

-- How many characters pass a test.
abbrev tally : (ℕ → Bool) → Text → ℕ
tally p s = length (select p s)

tally-mark : (p : ℕ → Bool) (m : ℕ) (s : Text) → tally p s ≤ tally p (s ++ m ∷ [])
tally-mark p m [] = omega arith
tally-mark p m (c ∷ s) = ground (arith, tally-mark p m s)

select-mark : (p : ℕ → Bool) (m : ℕ) (s : Text) → p m ≡ false → select p (s ++ m ∷ []) ≡ select p s
select-mark p m [] h = rw h refl
select-mark p m (c ∷ s) h = rw (select-mark p m s h) refl

length-select-Agree :
    (f g : Text → Bool) (ts : List Text)
    → Agree f g ts
    → length (select f ts) ≡ length (select g ts)
length-select-Agree f g [] h = refl
length-select-Agree f g (t ∷ ts) (e, h) = ground (arith, length-select-Agree f g ts h)

caps_mono :
    (letters few many : ℕ)
    → few ≤ many
    → (if ltb (35 * (if leb 1 letters then letters else 1)) (100 * few) && leb 8 letters
        then 25
        else 0)
      ≤ (if ltb (35 * (if leb 1 letters then letters else 1)) (100 * many) && leb 8 letters
          then 25
          else 0)
caps_mono letters few many h = ground arith

distress_free : (m : ℕ) → is_mark m ≡ true → all (free m) emotion_distress_terms ≡ true
unfolding emotion_distress_terms
distress_free = by_mark _ refl refl

module _ (a : Alphabet) (standard : IsStandard a) where
  distress_score-mark :
      (m : ℕ) (s : Text) → is_mark m ≡ true → distress_score a (s ++ m ∷ []) ≡ distress_score a s
  distress_score-mark m s h =
      ap (λ n. min (25 * n) 50)
        (length-select-Agree _ _ emotion_distress_terms (
          All-of_all _ _ (has_word-mark a standard m h s) emotion_distress_terms
            (distress_free m h)))

  punct_score-mark : (m : ℕ) (s : Text) → punct_score s ≤ punct_score (s ++ m ∷ [])
  punct_score-mark m s =
      let exclamations = tally-mark (λ d. d == b'!') m s in
      let questions = tally-mark (λ d. d == b'?') m s in
      min_mono (15 * count_of b'!' s + 5 * count_of b'?' s)
        (15 * count_of b'!' (s ++ m ∷ []) + 5 * count_of b'?' (s ++ m ∷ [])) 40 (omega arith)

  calculated_urgency-mark :
      (m : ℕ) (s : Text)
      → is_mark m ≡ true
      → calculated_urgency a s ≤ calculated_urgency a (s ++ m ∷ [])
  calculated_urgency-mark m s h =
      let caps : caps_score a (s ++ m ∷ []) ≡ caps_score a s =
        rw (select-mark a.is_alpha m s (standard.unlettered m h)) refl in
      let distress =
        ap (distress_score a) (standard.lower_mark m s h) ∙ distress_score-mark m (a.lower s) h in
      min_mono _ _ 100 (
        sum_mono (punct_score s) (punct_score (s ++ m ∷ [])) (caps_score a s)
          (caps_score a (s ++ m ∷ [])) (distress_score a (a.lower s))
          (distress_score a (a.lower (s ++ m ∷ []))) (punct_score-mark m s) (rw caps (omega arith))
          (rw distress (omega arith)))

  letters-capital :
      (s : Text) → length (select a.is_alpha (map capital s)) ≡ length (select a.is_alpha s)
  letters-capital [] = refl
  letters-capital (c ∷ s) = ground (arith, standard.capital_letter c, letters-capital s)

  uppers-capital :
      (s : Text)
      → length (select a.is_upper (select a.is_alpha s))
        ≤ length (select a.is_upper (select a.is_alpha (map capital s)))
  uppers-capital [] = omega arith
  uppers-capital (c ∷ s) =
      ground (arith, standard.capital_letter c, standard.capital_upper c, uppers-capital s)

  tally-capital : (m : ℕ) (s : Text) → is_mark m ≡ true → count_of m (map capital s) ≡ count_of m s
  tally-capital m [] h = refl
  tally-capital m (c ∷ s) h = ground (arith, tally-capital m s)

  calculated_urgency-capital :
      (s : Text) → calculated_urgency a s ≤ calculated_urgency a (map capital s)
  calculated_urgency-capital s =
      let punct : punct_score (map capital s) ≡ punct_score s =
        rw (tally-capital b'!' s refl, tally-capital b'?' s refl) refl in
      let distress = ap (distress_score a) (standard.lower_capitals s) in
      let caps : caps_score a s ≤ caps_score a (map capital s) =
        rw (letters-capital s) (caps_mono (length (select a.is_alpha s)) _ _ (uppers-capital s)) in
      min_mono _ _ 100 (
        sum_mono (punct_score s) (punct_score (map capital s)) (caps_score a s)
          (caps_score a (map capital s)) (distress_score a (a.lower s))
          (distress_score a (a.lower (map capital s))) (rw punct (omega arith)) caps
          (rw distress (omega arith)))

  urgency_solid :
      (s : Text) (c : Option Text)
      → is_solid s ≡ true
      → (process_text a s c).citizen_urgency_score ≡ calculated_urgency a (join_words s)
  urgency_solid s c e =
      ap (λ (r : TextAnalysisResult). r.citizen_urgency_score) (process_text_solid a s c e)

  urgency-marks :
      (ms s : Text) (c : Option Text)
      → all is_mark ms ≡ true
      → is_solid s ≡ true
      → (process_text a s c).citizen_urgency_score
        ≤ (process_text a (s ++ ms) c).citizen_urgency_score
  urgency-marks [] s c h e = rw append-nil (omega arith)
  urgency-marks (m ∷ ms) s c h e =
      let solid = is_solid-mark m (ground arith) s e in
      let later = urgency-marks ms (s ++ m ∷ []) c (ground arith) solid in
      let now = calculated_urgency-mark m (join_words s) (ground arith) in
      let here = urgency_solid s c e in
      let next : (process_text a (s ++ m ∷ []) c).citizen_urgency_score
          ≡ calculated_urgency a (join_words s ++ m ∷ []) =
        urgency_solid (s ++ m ∷ []) c solid
        ∙ ap (calculated_urgency a)
            (join_words-mark a standard m (ground arith) s (ground arith)) in
      rw (sym (append_assoc s (m ∷ []) ms)) (chain here now next later)

  -- The urgency score is at most 1.00, and shouting never lowers it: a text that begins and ends
  -- with no white space has at least its score when it is written in ASCII capitals and followed by
  -- any number of exclamation and question marks.
  pub process_text-urgency_bounds :
      (s marks : Text) (c : Option Text)
      → is_solid s ≡ true
      → all is_mark marks ≡ true
      → ((process_text a s c).citizen_urgency_score
          ≤ (process_text a (map capital s ++ marks) c).citizen_urgency_score)
        × ((process_text a (map capital s ++ marks) c).citizen_urgency_score ≤ 100)
  process_text-urgency_bounds s marks c e h =
      let solid = map-capital-is_solid s ∙ e in
      let raised : calculated_urgency a (join_words s)
          ≤ calculated_urgency a (join_words (map capital s)) =
        rw (join_words-capital s) (calculated_urgency-capital (join_words s)) in
      (
        chain (urgency_solid s c e) raised (urgency_solid (map capital s) c solid)
            (urgency-marks marks (map capital s) c h solid),
        process_text-le a (map capital s ++ marks) c,
      )
