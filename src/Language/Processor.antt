-- ===== src/Language/Processor.antt =====
-- DeterministicIndicRuleProcessor of civicbrain/domain/nlp/processor.py.
pub mod Agreement
pub mod Marks
pub mod Shouting
pub mod Terms
pub mod Severity
pub mod Urgency
use civicbrain_v.Base.{
  ℕ, List, [], ◌∷◌, ◌++◌, ◌+◌, ◌*◌, Bool, true, false, ◌&&◌, not, ltb, leb, ◌==◌, if◌then◌else◌,
  any, find, select, length, Option, none, some,
}
use civicbrain_v.Text.{Text, codes, is_empty, is_space}
use civicbrain_v.Text.Members.{member}
use civicbrain_v.Text.Strip.{strip}
use civicbrain_v.Language.Lexicon.{
  category_lexicon, physical_severity_keywords, emotion_distress_terms, hinglish_markers,
}
use civicbrain_v.Language.Search.{contains, contains_word}

-- What is used of Python's Unicode tables: `\w`, the letters that `re.IGNORECASE` takes for one,
-- `str.isalpha`, `str.isupper` of a character, `str.lower` and `str.upper`.
pub record Alphabet : Type 0 where
  pub is_word : ℕ → Bool
  pub same_letter : ℕ → ℕ → Bool
  pub is_alpha : ℕ → Bool
  pub is_upper : ℕ → Bool
  pub lower : Text → Text
  pub upper : Text → Text

-- `detected_language`
pub data Language : Type 0 where
  en hi kn ta te hinglish : Language

-- `detected_script`
pub data WritingSystem : Type 0 where
  latin devanagari kannada tamil telugu : WritingSystem

-- The score is in hundredths.
pub record TextAnalysisResult : Type 0 where
  pub detected_language : Language
  pub detected_script : WritingSystem
  pub normalized_text : Text
  pub suggested_category : Option Text
  pub physical_severity_hint : Option ℕ
  pub citizen_urgency_score : ℕ
  pub extracted_keywords : List Text
  pub requires_human_triage : Bool

abbrev pub in_block : ℕ → ℕ → Text → Bool
in_block first last = any (λ c. leb first c && leb c last)

unfoldable pub detect_script : Alphabet → Text → Language × WritingSystem
detect_script a text =
    if in_block 0xc80 0xcff text
    then (Language.kn, WritingSystem.kannada)
    else if in_block 0xb80 0xbff text
    then (Language.ta, WritingSystem.tamil)
    else if in_block 0xc00 0xc7f text
    then (Language.te, WritingSystem.telugu)
    else if in_block 0x900 0x97f text
    then (Language.hi, WritingSystem.devanagari)
    else if any (λ m. contains ◌==◌ m (a.lower text)) hinglish_markers
    then (Language.hinglish, WritingSystem.latin)
    else (Language.en, WritingSystem.latin)

-- `" ".join(text.split())` of a text that `str.strip` has stripped.
unfoldable pub join_words : Text → Text
join_words [] = []
join_words (c ∷ []) = c ∷ []
join_words (c ∷ d ∷ s) =
    let rest = join_words (d ∷ s) in
    if is_space c then (if is_space d then rest else b' ' ∷ rest) else c ∷ rest

-- `re.search(r"\b" + re.escape(term) + r"\b", text, re.IGNORECASE)`
abbrev pub has_word : Alphabet → Text → Text → Bool
has_word a text term = contains_word a.is_word a.same_letter false term text

abbrev pub is_latin : WritingSystem → Bool
is_latin WritingSystem.latin = true
is_latin _ = false

-- A category's term is a word in Latin script, and any part of the text in another.
abbrev pub has_term : Alphabet → WritingSystem → Text → Text → Bool
has_term a script text term =
    if is_latin script then has_word a text term else contains a.same_letter term text

-- `matched_category` and `extracted_terms`
pub record Scan : Type 0 where
  pub matched : Option Text
  pub extracted : List Text

-- `not matched_category`
abbrev pub is_unset : Option Text → Bool
is_unset none = true
is_unset (some s) = is_empty s

abbrev pub take_term : Text → Text → Scan → Scan
take_term category term s = record {
  matched = if is_unset s.matched then some category else s.matched;
  extracted = s.extracted ++ term ∷ [];
}

abbrev pub found_in : ℕ → Option Text → Option (ℕ × Text) → Option (ℕ × Text)
found_in tier (some t) later = some (tier, t)
found_in tier none later = later

module _ (found : Text → Bool) where
  unfoldable pub scan_terms : Text → List Text → Scan → Scan
  scan_terms category [] s = s
  scan_terms category (t ∷ ts) s =
      scan_terms category ts (if found t then take_term category t s else s)

  unfoldable pub scan_lexicon : List (Text × List Text) → Scan → Scan
  scan_lexicon [] s = s
  scan_lexicon ((category, terms) ∷ rest) s = scan_lexicon rest (scan_terms category terms s)

  -- The first tier with a term that is found, and the term.
  unfoldable pub search_tiers : List (ℕ × List Text) → Option (ℕ × Text)
  search_tiers [] = none
  search_tiers ((tier, terms) ∷ rest) = found_in tier (find found terms) (search_tiers rest)

-- The loop over the terms with the set `seen`.
unfoldable pub dedupe : List Text → List Text → List Text
unfolding member
dedupe seen [] = []
dedupe seen (t ∷ ts) =
    let old = dedupe seen ts in
    let new = t ∷ dedupe (t ∷ seen) ts in if member t seen then old else new

abbrev pub min : ℕ → ℕ → ℕ
min m n = if leb m n then m else n

abbrev pub count_of : ℕ → Text → ℕ
count_of c s = length (select (λ d. d == c) s)

-- The scores are in hundredths.
abbrev pub punct_score : Text → ℕ
punct_score s = min (15 * count_of b'!' s + 5 * count_of b'?' s) 40

-- `caps_ratio > 0.35 and len(alpha_chars) >= 8`
abbrev pub caps_score : Alphabet → Text → ℕ
caps_score a s =
    let alpha = select a.is_alpha s in
    let letters = length alpha in
    let divisor = if leb 1 letters then letters else 1 in
    if ltb (35 * divisor) (100 * length (select a.is_upper alpha)) && leb 8 letters then 25 else 0

abbrev pub distress_score : Alphabet → Text → ℕ
distress_score a lowered = min (25 * length (select (has_word a lowered) emotion_distress_terms)) 50

abbrev pub calculated_urgency : Alphabet → Text → ℕ
calculated_urgency a s = min (punct_score s + caps_score a s + distress_score a (a.lower s)) 100

-- `if citizen_category: matched_category = citizen_category.strip().upper()`
abbrev pub declared_category : Alphabet → Option Text → Option Text
declared_category a none = none
declared_category a (some c) = if is_empty c then none else some (a.upper (strip c))

abbrev pub found_terms : Option (ℕ × Text) → List Text
found_terms none = []
found_terms (some (_, t)) = t ∷ []

abbrev pub tier_of : Option (ℕ × Text) → Option ℕ
tier_of none = none
tier_of (some (k, _)) = some k

abbrev pub is_none : Option Text → Bool
is_none none = true
is_none (some _) = false

abbrev pub empty_result : Option Text → TextAnalysisResult
empty_result citizen_category = record {
  detected_language = Language.en;
  detected_script = WritingSystem.latin;
  normalized_text = [];
  suggested_category = citizen_category;
  physical_severity_hint = none;
  citizen_urgency_score = 0;
  extracted_keywords = [];
  requires_human_triage = true;
}

-- What the later steps find in the text, of the given script and lowered.
abbrev pub scan_of : Alphabet → WritingSystem → Text → Option Text → Scan
scan_of a script lowered citizen_category =
    scan_lexicon (has_term a script lowered) category_lexicon
      (record { matched = declared_category a citizen_category; extracted = [] })

abbrev pub severity_of : Alphabet → Text → Option (ℕ × Text)
severity_of a lowered = search_tiers (has_word a lowered) physical_severity_keywords

abbrev pub analyze : Alphabet → Language × WritingSystem → Text → Option Text → TextAnalysisResult
analyze a script normalized citizen_category =
    let lowered = a.lower normalized in
    let scan = scan_of a script.1 lowered citizen_category in
    let severity = severity_of a lowered in
    record {
      detected_language = script.0;
      detected_script = script.1;
      normalized_text = normalized;
      suggested_category = scan.matched;
      physical_severity_hint = tier_of severity;
      citizen_urgency_score = calculated_urgency a normalized;
      extracted_keywords = dedupe [] (scan.extracted ++ found_terms severity);
      requires_human_triage = is_none scan.matched;
    }

unfoldable pub process_text : Alphabet → Text → Option Text → TextAnalysisResult
unfolding strip
process_text a text citizen_category =
    let raw = strip text in
    if is_empty raw
    then empty_result citizen_category
    else analyze a (detect_script a raw) (join_words raw) citizen_category
