-- ===== src/Language/Processor/Marks.antt =====
-- About a mark behind a text, in the searches of civicbrain/domain/nlp/processor.py.
use mathlib.Core.Path.{fun_ext}
use civicbrain_v.Base.{
  ℕ, List, [], ◌∷◌, ◌++◌, ◌-◌, map, Bool, true, false, ◌&&◌, ◌||◌, not, leb, ◌==◌, if◌then◌else◌,
  any-append, all, Option, ◌≡◌, refl, sym, subst, ◌∙◌, arith, Bool-cases, inl, inr,
}
use civicbrain_v.Text.{Text, is_empty, is_space}
use civicbrain_v.Language.Lexicon.{category_lexicon, physical_severity_keywords, hinglish_markers}
use civicbrain_v.Language.Search.{contains, lacks, contains-mark, contains_word-mark}
use civicbrain_v.Language.Processor.{
  Alphabet, Language, WritingSystem, in_block, detect_script, join_words, has_word, has_term,
  analyze, is_latin,
}
use civicbrain_v.Language.Processor.Agreement.{All-of_all, any-Agree, apart, analyze-Agree}

abbrev pub is_mark : ℕ → Bool
is_mark m = m == b'!' || m == b'?'

-- The capital of an ASCII letter.
abbrev pub capital : ℕ → ℕ
capital c = if leb b'a' c && leb c b'z' then c - 32 else c

-- What is relied on: an exclamation or question mark is no letter and no part of a word, is like
-- no other character, and stays when a text is lowered; an ASCII letter and its capital are both
-- letters, and have one lower form.
pub record IsStandard (a : Alphabet) : Type 0 where
  pub unworded : (m : ℕ) → is_mark m ≡ true → a.is_word m ≡ false
  pub unlettered : (m : ℕ) → is_mark m ≡ true → a.is_alpha m ≡ false
  pub unlike : (m c : ℕ) → is_mark m ≡ true → a.same_letter c m ≡ (c == m)
  pub lower_mark :
      (m : ℕ) (s : Text) → is_mark m ≡ true → a.lower (s ++ m ∷ []) ≡ a.lower s ++ m ∷ []
  pub capital_letter : (c : ℕ) → a.is_alpha (capital c) ≡ a.is_alpha c
  pub capital_upper : (c : ℕ) → a.is_upper c ≡ true → a.is_upper (capital c) ≡ true
  pub lower_capitals : (s : Text) → a.lower (map capital s) ≡ a.lower s

abbrev pub ends_solid : Text → Bool
ends_solid [] = false
ends_solid (c ∷ []) = not (is_space c)
ends_solid (c ∷ d ∷ s) = ends_solid (d ∷ s)

pub mark-not_space : (m : ℕ) → is_mark m ≡ true → is_space m ≡ false
unfolding is_space
mark-not_space m h = ground arith

pub capital-is_space : (c : ℕ) → is_space (capital c) ≡ is_space c
unfolding is_space
capital-is_space c = ground arith

pub by_mark : (P : ℕ → Type 0) → P b'!' → P b'?' → (m : ℕ) → is_mark m ≡ true → P m
by_mark P p q m h = elim (Bool-cases (m == b'!')) [
  | inl e ↦ let eq : m ≡ b'!' = ground arith in subst P (sym eq) p
  | inr e ↦ let eq : m ≡ b'?' = ground arith in subst P (sym eq) q
]

-- No term of the tables has a mark.
abbrev pub free : ℕ → Text → Bool
free m = lacks ◌==◌ m

lexicon_free :
    (m : ℕ)
    → is_mark m ≡ true
    → all (λ (e : Text × List Text). all (free m) e.1) category_lexicon ≡ true
unfolding category_lexicon
lexicon_free = by_mark _ refl refl

tiers_free :
    (m : ℕ)
    → is_mark m ≡ true
    → all (λ (e : ℕ × List Text). all (free m) e.1) physical_severity_keywords ≡ true
unfolding physical_severity_keywords
tiers_free = by_mark _ refl refl

markers_free : (m : ℕ) → is_mark m ≡ true → all (free m) hinglish_markers ≡ true
unfolding hinglish_markers
markers_free = by_mark _ refl refl

-- A text with a mark behind it.
module _ (a : Alphabet) (standard : IsStandard a) (m : ℕ) (h : is_mark m ≡ true) where
  pub lacks-free : (p : Text) → free m p ≡ true → lacks a.same_letter m p ≡ true
  lacks-free p e =
      subst (λ (g : ℕ → Bool). (not (is_empty p) && all (λ c. not (g c)) p) ≡ true)
        (sym (fun_ext (λ c. standard.unlike m c h))) e

  pub has_word-mark : (s p : Text) → free m p ≡ true → has_word a (s ++ m ∷ []) p ≡ has_word a s p
  has_word-mark s p e =
      contains_word-mark a.same_letter m a.is_word (standard.unworded m h) false p s
        (lacks-free p e)

  has_term-mark :
      (sc : WritingSystem) (s p : Text)
      → free m p ≡ true
      → has_term a sc (s ++ m ∷ []) p ≡ has_term a sc s p
  has_term-mark sc s p e = elim (Bool-cases (is_latin sc)) [
    | inl q ↦ rw q (has_word-mark s p e)
    | inr q ↦ rw q (contains-mark a.same_letter m p s (lacks-free p e))
  ]

  pub analyze-mark :
      (sc : Language × WritingSystem) (s : Text) (c : Option Text)
      → apart (analyze a sc (s ++ m ∷ []) c) ≡ apart (analyze a sc s c)
  analyze-mark sc s c =
      let low = standard.lower_mark m s h in
      analyze-Agree a sc (s ++ m ∷ []) s c
        (rw low (
          All-of_all _ _ (λ e free_e. All-of_all _ _ (has_term-mark sc.1 (a.lower s)) e.1 free_e)
            category_lexicon (lexicon_free m h)))
        (rw low (
          All-of_all _ _ (λ e free_e. All-of_all _ _ (has_word-mark (a.lower s)) e.1 free_e)
            physical_severity_keywords (tiers_free m h)))

  in_block-mark :
      (first last : ℕ) (s : Text)
      → leb 0x900 first ≡ true
      → in_block first last (s ++ m ∷ []) ≡ in_block first last s
  in_block-mark first last s k =
      any-append (λ c. leb first c && leb c last) s (m ∷ []) ∙ ground arith

  pub detect_script-mark : (s : Text) → detect_script a (s ++ m ∷ []) ≡ detect_script a s
  unfolding detect_script
  detect_script-mark s =
      let markers =
        any-Agree (λ p. contains ◌==◌ p (a.lower s ++ m ∷ [])) (λ p. contains ◌==◌ p (a.lower s))
          hinglish_markers
          (All-of_all _ _ (λ p. contains-mark ◌==◌ m p (a.lower s)) hinglish_markers
            (markers_free m h)) in
      rw
        (
          in_block-mark 0xc80 0xcff s refl,
          in_block-mark 0xb80 0xbff s refl,
          in_block-mark 0xc00 0xc7f s refl,
          in_block-mark 0x900 0x97f s refl,
          standard.lower_mark m s h,
          markers,
        )
        refl

  pub join_words-mark :
      (s : Text) → ends_solid s ≡ true → join_words (s ++ m ∷ []) ≡ join_words s ++ m ∷ []
  unfolding join_words
  join_words-mark [] e = cc
  join_words-mark (c ∷ []) e = ground (arith)
  join_words-mark (c ∷ d ∷ s) e = ground (arith, join_words-mark (d ∷ s))
