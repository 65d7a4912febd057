-- ===== src/Text/Strip.antt =====
-- `str.strip()` on texts, which the services apply to the fields that a user writes.
use civicbrain_v.Base.{
  ℕ, [], ◌∷◌, Bool, true, false, ◌&&◌, not, if◌then◌else◌, ◌≡◌, refl, ◌∙◌, arith, select,
  Bool-cases, inl, inr,
}
use civicbrain_v.Text.{Text, is_space, is_empty}

unfoldable pub strip_left : Text → Text
strip_left [] = []
strip_left (c ∷ s) = let rest = strip_left s in if is_space c then rest else c ∷ s

unfoldable pub strip_right : Text → Text
strip_right [] = []
strip_right (c ∷ s) =
    let rest = strip_right s in if is_space c && is_empty rest then [] else c ∷ rest

unfoldable pub strip : Text → Text
unfolding strip_left strip_right is_space
strip s = strip_right (strip_left s)

-- Does the text begin with something other than white space?
abbrev pub starts_solid : Text → Bool
starts_solid [] = true
starts_solid (c ∷ _) = not (is_space c)

strip_left-starts_solid : (s : Text) → starts_solid (strip_left s) ≡ true
unfolding strip_left
strip_left-starts_solid [] = refl
strip_left-starts_solid (c ∷ s) = ground (arith, strip_left-starts_solid s)

pub strip_left_fixed : (s : Text) → starts_solid s ≡ true → strip_left s ≡ s
unfolding strip_left
strip_left_fixed [] h = refl
strip_left_fixed (c ∷ s) h = ground arith

strip_right_idem : (s : Text) → strip_right (strip_right s) ≡ strip_right s
unfolding strip_right
strip_right_idem [] = refl
strip_right_idem (c ∷ s) = elim (Bool-cases (is_space c && is_empty (strip_right s))) [
  | inl e ↦ rw e refl
  | inr e ↦ rw (e, strip_right, strip_right_idem s, e) refl
]

strip_right-starts_solid : (s : Text) → starts_solid s ≡ true → starts_solid (strip_right s) ≡ true
unfolding strip_right
strip_right-starts_solid [] h = refl
strip_right-starts_solid (c ∷ s) h = ground arith

pub strip-starts_solid : (s : Text) → starts_solid (strip s) ≡ true
unfolding strip
strip-starts_solid s = strip_right-starts_solid (strip_left s) (strip_left-starts_solid s)

pub strip_right-strip : (s : Text) → strip_right (strip s) ≡ strip s
unfolding strip
strip_right-strip s = strip_right_idem (strip_left s)

pub strip_idem : (s : Text) → strip (strip s) ≡ strip s
unfolding strip
strip_idem s = rw (strip, strip_left_fixed (strip s) (strip-starts_solid s)) (strip_right-strip s)

module _ (q : ℕ → Bool) (skips : (c : ℕ) → is_space c ≡ true → q c ≡ false) where
  select-strip_left : (s : Text) → select q (strip_left s) ≡ select q s
  unfolding strip_left
  select-strip_left [] = refl
  select-strip_left (c ∷ s) = ground (arith, skips c, select-strip_left s)

  select-strip_right : (s : Text) → select q (strip_right s) ≡ select q s
  unfolding strip_right
  select-strip_right [] = refl
  select-strip_right (c ∷ s) = elim (Bool-cases (is_space c && is_empty (strip_right s))) [
    | inl e ↦ rw e (blank (strip_right s) e (select-strip_right s))
    | inr e ↦ rw (e, select-strip_right s) refl
  ]
    where
      blank :
          (t : Text)
          → (is_space c && is_empty t) ≡ true
          → select q t ≡ select q s
          → [] ≡ select q (c ∷ s)
      blank [] k h = ground (arith, skips c)
      blank (d ∷ t) k h = ground arith

  pub select-strip : (s : Text) → select q (strip s) ≡ select q s
  unfolding strip
  select-strip s = select-strip_right (strip_left s) ∙ select-strip_left s
