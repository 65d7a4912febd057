-- ===== src/Language/Search.antt =====
-- What civicbrain/domain/nlp/processor.py uses of `re`: the search for a literal, with `\b` on both
-- sides or without.
use civicbrain_v.Base.{ℕ, [], ◌∷◌, ◌++◌, Bool, true, false, ◌&&◌, ◌||◌, not, ◌≡◌, refl, all, arith}
use civicbrain_v.Text.{Text, is_empty}

-- Are the truth values different?
abbrev pub differ : Bool → Bool → Bool
differ true b = not b
differ false b = b

module _ (same : ℕ → ℕ → Bool) where
  -- Does the text begin with the pattern, letters compared by `same`?
  unfoldable pub begins : Text → Text → Bool
  begins [] s = true
  begins (c ∷ p) [] = false
  begins (c ∷ p) (d ∷ s) = same c d && begins p s

  -- `re.search(re.escape(p), s)`
  unfoldable pub contains : Text → Text → Bool
  contains p [] = begins p []
  contains p (d ∷ s) = begins p (d ∷ s) || contains p s

module _ (is_word : ℕ → Bool) (same : ℕ → ℕ → Bool) where
  abbrev pub starts_word : Text → Bool
  starts_word [] = false
  starts_word (c ∷ _) = is_word c

  -- The pattern and a `\b`, where `prev` tells whether a word character stands before.
  unfoldable pub ends_word : Bool → Text → Text → Bool
  ends_word prev [] s = differ prev (starts_word s)
  ends_word prev (c ∷ p) [] = false
  ends_word prev (c ∷ p) (d ∷ s) = same c d && ends_word (is_word d) p s

  -- `re.search(r"\b" + re.escape(p) + r"\b", s)` from a place on.
  unfoldable pub contains_word : Bool → Text → Text → Bool
  contains_word prev p [] = differ prev false && ends_word prev p []
  contains_word prev p (d ∷ s) =
      differ prev (is_word d) && ends_word prev p (d ∷ s) || contains_word (is_word d) p s

-- A mark that no pattern has does not change what is found.
module _ (same : ℕ → ℕ → Bool) (m : ℕ) where
  -- The mark is no letter of the pattern, and the pattern is not empty.
  abbrev pub lacks : Text → Bool
  lacks p = not (is_empty p) && all (λ c. not (same c m)) p

  begins-mark :
      (p s : Text)
      → all (λ c. not (same c m)) p ≡ true
      → begins same p (s ++ m ∷ []) ≡ begins same p s
  unfolding begins
  begins-mark [] s h = refl
  begins-mark (c ∷ p) [] h = ground arith
  begins-mark (c ∷ p) (d ∷ s) h = ground (arith, begins-mark p s)

  pub contains-mark :
      (p s : Text) → lacks p ≡ true → contains same p (s ++ m ∷ []) ≡ contains same p s
  unfolding contains begins
  contains-mark [] s h = ground arith
  contains-mark (c ∷ p) [] h = ground arith
  contains-mark (c ∷ p) (d ∷ s) h =
      ground (arith, begins-mark (c ∷ p) (d ∷ s), contains-mark (c ∷ p) s)

  module _ (is_word : ℕ → Bool) (outside : is_word m ≡ false) where
    ends_word-mark :
        (prev : Bool) (p s : Text)
        → all (λ c. not (same c m)) p ≡ true
        → ends_word is_word same prev p (s ++ m ∷ []) ≡ ends_word is_word same prev p s
    unfolding ends_word
    ends_word-mark prev [] [] h = ground arith
    ends_word-mark prev [] (d ∷ s) h = ground arith
    ends_word-mark prev (c ∷ p) [] h = ground arith
    ends_word-mark prev (c ∷ p) (d ∷ s) h = ground (arith, ends_word-mark (is_word d) p s)

    pub contains_word-mark :
        (prev : Bool) (p s : Text)
        → lacks p ≡ true
        → contains_word is_word same prev p (s ++ m ∷ []) ≡ contains_word is_word same prev p s
    unfolding contains_word ends_word
    contains_word-mark prev [] s h = ground arith
    contains_word-mark prev (c ∷ p) [] h = ground arith
    contains_word-mark prev (c ∷ p) (d ∷ s) h =
        ground
          (arith, ends_word-mark prev (c ∷ p) (d ∷ s), contains_word-mark (is_word d) (c ∷ p) s)
