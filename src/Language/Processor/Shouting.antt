-- ===== src/Language/Processor/Shouting.antt =====
-- About capitals and trailing marks in a text, which the rules at the head of
-- civicbrain/domain/nlp/processor.py forbid to change the severity.
use mathlib.Core.List.{append_assoc, append-nil}
use civicbrain_v.Base.{
  ℕ, [], ◌∷◌, ◌++◌, map, Bool, true, ◌&&◌, leb, all, Option, ◌≡◌, refl, sym, ◌∙◌, ap, arith,
}
use civicbrain_v.Text.{Text}
use civicbrain_v.Text.Strip.{strip_right, starts_solid, strip_left_fixed}
use civicbrain_v.Language.Processor.{
  Alphabet, in_block, detect_script, join_words, analyze, process_text,
}
use civicbrain_v.Language.Processor.Agreement.{apart}
use civicbrain_v.Language.Processor.Marks.{
  is_mark, capital, IsStandard, ends_solid, mark-not_space, capital-is_space, analyze-mark,
  detect_script-mark, join_words-mark,
}

strip_right_solid : (s : Text) → ends_solid s ≡ true → strip_right s ≡ s
unfolding strip_right
strip_right_solid [] e = cc
strip_right_solid (c ∷ []) e = ground arith
strip_right_solid (c ∷ d ∷ s) e = rw (strip_right_solid (d ∷ s) e) (ground arith)

-- The text begins and ends with a character that is no white space.
abbrev pub is_solid : Text → Bool
is_solid s = starts_solid s && ends_solid s

pub process_text_solid :
    (a : Alphabet) (s : Text) (c : Option Text)
    → is_solid s ≡ true
    → process_text a s c ≡ analyze a (detect_script a s) (join_words s) c
unfolding process_text
process_text_solid a [] c e = cc
process_text_solid a (x ∷ s) c e =
    rw (strip_left_fixed (x ∷ s) (ground arith), strip_right_solid (x ∷ s) (ground arith)) refl

pub is_solid-mark :
    (m : ℕ) → is_mark m ≡ true → (s : Text) → is_solid s ≡ true → is_solid (s ++ m ∷ []) ≡ true
is_solid-mark m h [] e = cc
is_solid-mark m h (c ∷ s) e = ground (arith, ends s)
  where
    ends : (t : Text) → ends_solid (t ++ m ∷ []) ≡ true
    ends [] = rw (mark-not_space m h) refl
    ends (x ∷ []) = rw (mark-not_space m h) refl
    ends (x ∷ y ∷ t) = ends (y ∷ t)

pub map-capital-is_solid : (s : Text) → is_solid (map capital s) ≡ is_solid s
map-capital-is_solid [] = refl
map-capital-is_solid (c ∷ s) = rw (capital-is_space c, ends c s) refl
  where
    ends : (c : ℕ) (t : Text) → ends_solid (map capital (c ∷ t)) ≡ ends_solid (c ∷ t)
    ends c [] = rw (capital-is_space c) refl
    ends c (x ∷ t) = ends x t

pub join_words-capital : (s : Text) → join_words (map capital s) ≡ map capital (join_words s)
unfolding join_words
join_words-capital [] = refl
join_words-capital (c ∷ []) = refl
join_words-capital (c ∷ d ∷ s) =
    rw (capital-is_space c, capital-is_space d, join_words-capital (d ∷ s)) (ground arith)

in_block-capital :
    (first last : ℕ) (s : Text)
    → leb 0x900 first ≡ true
    → in_block first last (map capital s) ≡ in_block first last s
in_block-capital first last [] k = refl
in_block-capital first last (c ∷ s) k = ground (arith, in_block-capital first last s)

module _ (a : Alphabet) (standard : IsStandard a) (c : Option Text) where
  process_text-mark :
      (m : ℕ) (s : Text)
      → is_mark m ≡ true
      → is_solid s ≡ true
      → apart (process_text a (s ++ m ∷ []) c) ≡ apart (process_text a s c)
  process_text-mark m s h e =
      rw
        (
          process_text_solid a (s ++ m ∷ []) c (is_solid-mark m h s e),
          process_text_solid a s c e,
          detect_script-mark a standard m h s,
          join_words-mark a standard m h s (ground arith),
        )
        (analyze-mark a standard m h (detect_script a s) (join_words s) c)

  process_text-marks :
      (ms s : Text)
      → all is_mark ms ≡ true
      → is_solid s ≡ true
      → apart (process_text a (s ++ ms) c) ≡ apart (process_text a s c)
  process_text-marks [] s h e = rw append-nil refl
  process_text-marks (m ∷ ms) s h e =
      ap (λ t. apart (process_text a t c)) (sym (append_assoc s (m ∷ []) ms))
      ∙ process_text-marks ms (s ++ m ∷ []) (ground arith) (is_solid-mark m (ground arith) s e)
      ∙ process_text-mark m s (ground arith) e

  process_text-capital :
      (s : Text)
      → is_solid s ≡ true
      → apart (process_text a (map capital s) c) ≡ apart (process_text a s c)
  unfolding detect_script
  process_text-capital s e =
      let same : detect_script a (map capital s) ≡ detect_script a s =
        rw
          (
            in_block-capital 0xc80 0xcff s refl,
            in_block-capital 0xb80 0xbff s refl,
            in_block-capital 0xc00 0xc7f s refl,
            in_block-capital 0x900 0x97f s refl,
            standard.lower_capitals s,
          )
          refl in
      rw
        (
          process_text_solid a (map capital s) c (map-capital-is_solid s ∙ e),
          process_text_solid a s c e,
          same,
          join_words-capital s,
          standard.lower_capitals (join_words s),
        )
        refl

  -- A text that begins and ends with no white space, written in ASCII capitals and followed by any
  -- number of exclamation and question marks, is given the same language, script, category,
  -- severity, keywords and triage flag as before; only the urgency and the text itself may differ.
  pub process_text_shouted :
      (s marks : Text)
      → is_solid s ≡ true
      → all is_mark marks ≡ true
      → apart (process_text a (map capital s ++ marks) c) ≡ apart (process_text a s c)
  process_text_shouted s marks e h =
      process_text-marks marks (map capital s) h (map-capital-is_solid s ∙ e)
      ∙ process_text-capital s e
