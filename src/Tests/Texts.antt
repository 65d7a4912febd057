-- ===== src/Tests/Texts.antt =====
-- Complaints analysed as civicbrain/domain/nlp/processor.py does, over the ASCII letters.
use civicbrain_v.Base.{
  ℕ, ◌+◌, ◌≤◌, [], ◌∷◌, ◌++◌, map, Bool, true, false, ◌&&◌, ◌||◌, leb, ◌==◌, if◌then◌else◌, none,
  some, ◌≡◌, refl, arith,
}
use civicbrain_v.Text.{Text, codes, is_empty, is_space}
use civicbrain_v.Text.Strip.{strip}
use civicbrain_v.Text.Members.{member, all_distinct}
use civicbrain_v.Language.Lexicon.{
  category_lexicon, physical_severity_keywords, emotion_distress_terms, hinglish_markers,
}
use civicbrain_v.Language.Search.{contains, contains_word, begins, ends_word}
use civicbrain_v.Language.Processor.{
  Alphabet, TextAnalysisResult, is_none, detect_script, join_words, found_terms, severity_of,
  scan_terms, scan_lexicon, search_tiers, dedupe, process_text, has_word,
}
use civicbrain_v.Language.Processor.Agreement.{apart}
use civicbrain_v.Language.Processor.Marks.{IsStandard, is_mark, capital}
use civicbrain_v.Language.Processor.Shouting.{is_solid, process_text_shouted}
use civicbrain_v.Language.Processor.Terms.{
  chosen, terms_found, found_in_text, process_text-chosen, process_text-keywords,
}
use civicbrain_v.Language.Processor.Severity.{IsHighest, process_text-IsHighest}
use civicbrain_v.Language.Processor.Urgency.{process_text-urgency_bounds}

abbrev is_large : ℕ → Bool
is_large c = leb b'A' c && leb c b'Z'

abbrev is_small : ℕ → Bool
is_small c = leb b'a' c && leb c b'z'

abbrev small : ℕ → ℕ
small c = if is_large c then c + 32 else c

abbrev ascii : Alphabet
ascii = record {
  is_word = λ c. is_large c || is_small c || c == b'_' || (leb b'0' c && leb c b'9');
  same_letter = ◌==◌;
  is_alpha = λ c. is_large c || is_small c;
  is_upper = is_large;
  lower = map small;
  upper = map capital;
}

lower_mark_ascii :
    (m : ℕ) (s : Text) → is_mark m ≡ true → map small (s ++ m ∷ []) ≡ map small s ++ m ∷ []
lower_mark_ascii m [] h = ground arith
lower_mark_ascii m (c ∷ s) h = ground (arith, lower_mark_ascii m s)

lower_capitals_ascii : (s : Text) → map small (map capital s) ≡ map small s
lower_capitals_ascii [] = refl
lower_capitals_ascii (c ∷ s) = ground (arith, lower_capitals_ascii s)

ascii-IsStandard : IsStandard ascii
ascii-IsStandard = record {
  unworded = λ m h. ground arith;
  unlettered = λ m h. ground arith;
  unlike = λ m c h. refl;
  lower_mark = lower_mark_ascii;
  capital_letter = λ c. ground arith;
  capital_upper = λ c h. ground arith;
  lower_capitals = lower_capitals_ascii;
}

abbrev complaint : Text
complaint = codes "deep  pothole on MG road, please help"

analysis : TextAnalysisResult
unfolding process_text detect_script join_words contains contains_word begins ends_word scan_terms
    scan_lexicon search_tiers dedupe category_lexicon physical_severity_keywords
    emotion_distress_terms hinglish_markers
analysis = process_text ascii complaint none

analysis_category : analysis.suggested_category ≡ some (codes "POTHOLE")
unfolding analysis
analysis_category = refl

analysis_severity : analysis.physical_severity_hint ≡ some 4
unfolding analysis
analysis_severity = refl

-- "help" and "please help"
analysis_urgency : analysis.citizen_urgency_score ≡ 50
unfolding analysis
analysis_urgency = refl

complaint_solid : is_solid complaint ≡ true
unfolding is_space
complaint_solid = refl

complaint_full : is_empty (strip complaint) ≡ false
unfolding strip
complaint_full = refl

process_text_shouted_example :
    apart (process_text ascii (map capital complaint ++ codes "!!!") none)
    ≡ apart (process_text ascii complaint none)
process_text_shouted_example =
    process_text_shouted ascii ascii-IsStandard none complaint (codes "!!!") complaint_solid refl

process_text-urgency_bounds_example :
    ((process_text ascii complaint none).citizen_urgency_score
      ≤ (process_text ascii (map capital complaint ++ codes "!!!") none).citizen_urgency_score)
    × ((process_text ascii (map capital complaint ++ codes "!!!") none).citizen_urgency_score ≤ 100)
process_text-urgency_bounds_example =
    process_text-urgency_bounds ascii ascii-IsStandard complaint (codes "!!!") none complaint_solid
      refl

process_text-IsHighest_example :
    IsHighest
      (has_word ascii (map small (join_words (strip complaint))))
      physical_severity_keywords
      (process_text ascii complaint none).physical_severity_hint
process_text-IsHighest_example = process_text-IsHighest ascii complaint none complaint_full

process_text-chosen_example :
    ((process_text ascii complaint (some (codes " "))).suggested_category
      ≡ chosen
          (found_in_text ascii complaint)
          category_lexicon
          (some (ascii.upper (strip (codes " ")))))
    × ((process_text ascii complaint (some (codes " "))).requires_human_triage
        ≡ is_none (process_text ascii complaint (some (codes " "))).suggested_category)
process_text-chosen_example = process_text-chosen ascii complaint (some (codes " ")) complaint_full

process_text-keywords_example :
    (all_distinct (process_text ascii complaint none).extracted_keywords ≡ true)
    × ((t : Text)
        → member t (process_text ascii complaint none).extracted_keywords
          ≡ member t (
              terms_found (found_in_text ascii complaint) category_lexicon
              ++ found_terms (severity_of ascii (map small (join_words (strip complaint))))))
process_text-keywords_example = process_text-keywords ascii complaint none complaint_full
