-- ===== src/Directory/Phone/Normal.antt =====
-- About the normal form of a phone number in civicbrain/api/v1/hierarchy.py.
use civicbrain_v.Base.{
  ℕ, [], ◌∷◌, ◌++◌, Bool, true, false, ◌&&◌, not, leb, ◌==◌, if◌then◌else◌, all, select, length,
  Option, none, some, ◌≡◌, refl, Bool-cases, Option-cases, inl, inr, arith, leb→le, ◌∙◌, sym,
}
use mathlib.Core.Option.{some-injective}
use civicbrain_v.Text.{Text, codes, is_space, is_empty}
use civicbrain_v.Text.Strip.{strip, select-strip}
use civicbrain_v.Directory.Cells.{Unicode, IsStandard}
use civicbrain_v.Directory.Phone.{
  is_separator, after_country_code, is_mobile, drop_separator, matches_phone, starts_91,
  with_country_code, cleaned, normalize_indian_phone,
}

-- A mobile number, or one after its country code, in front of which `+91` is put: the normal form
-- without a second look at the digits.
unfoldable pub normal_form : Unicode → Text → Option Text
unfolding after_country_code is_mobile
normal_form u s = if is_mobile u s then some (codes "+91" ++ s) else elim (after_country_code s) [
  | none ↦ none
  | some t ↦ if is_mobile u t then some (codes "+91" ++ t) else none
]

-- `+91` and ten digits, the first of which is 6, 7, 8 or 9.
abbrev pub IsE164 : Unicode → Text → Type 0
IsE164 u p = (s : Text) × (p ≡ codes "+91" ++ s) × (is_mobile u s ≡ true) × (length s ≡ 10)

select-all : (q : ℕ → Bool) (s : Text) → all q s ≡ true → select q s ≡ s
select-all q [] h = refl
select-all q (c ∷ s) h = ground (arith, select-all q s)

after_country_code-eq_some :
    (s : Text) {t : Text} → after_country_code s ≡ some t → s ≡ codes "+91" ++ t
unfolding after_country_code
after_country_code-eq_some [] h = cc
after_country_code-eq_some (a ∷ []) h = cc
after_country_code-eq_some (a ∷ b ∷ []) h = cc
after_country_code-eq_some (a ∷ b ∷ c ∷ s) h = ground arith

module _ (u : Unicode) (standard : IsStandard u) where
  is_mobile-all : (s : Text) → is_mobile u s ≡ true → all u.is_decimal s ≡ true
  unfolding is_mobile
  is_mobile-all [] h = cc
  is_mobile-all (c ∷ s) h =
      let low : leb b'6' c ≡ true = ground arith in
      let top : leb c b'9' ≡ true = ground arith in
      let least = leb→le b'6' c low in
      let first = standard.0 c (omega arith) (leb→le c b'9' top) in
      let rest : all u.is_decimal s ≡ true = ground arith in rw (first, rest) refl

  is_mobile-length : (s : Text) → is_mobile u s ≡ true → length s ≡ 10
  unfolding is_mobile
  is_mobile-length [] h = cc
  is_mobile-length (c ∷ s) h = ground arith

  with_country_code-mobile :
      (s : Text) → is_mobile u s ≡ true → with_country_code s ≡ some (codes "+91" ++ s)
  unfolding with_country_code
  with_country_code-mobile s h = rw (with_country_code, is_mobile-length s h) refl

  digits_after :
      (t : Text) → is_mobile u t ≡ true → select u.is_decimal (codes "+91" ++ t) ≡ codes "91" ++ t
  digits_after t h =
      let plus = standard.2 in
      let nine = standard.0 b'9' (omega arith) (omega arith) in
      let one = standard.0 b'1' (omega arith) (omega arith) in
      rw (plus, nine, one, select-all u.is_decimal t (is_mobile-all t h)) refl

  with_country_code-long :
      (t : Text)
      → is_mobile u t ≡ true
      → with_country_code (codes "91" ++ t) ≡ some (codes "+91" ++ t)
  unfolding with_country_code
  with_country_code-long t h = rw (with_country_code, is_mobile-length t h) refl

  -- A text with no separator, as `cleaned` gives it.
  drop_separator-after :
      (s : Text) {t : Text}
      → all (λ c. not (is_separator c)) s ≡ true
      → after_country_code s ≡ some t
      → drop_separator t ≡ t
  drop_separator-after s {t} h e = first t (rw (after_country_code-eq_some s e) at h)
    where
      first :
          (t : Text)
          → all (λ c. not (is_separator c)) (codes "+91" ++ t) ≡ true
          → drop_separator t ≡ t
      first [] k = refl
      first (c ∷ s) k = ground arith

  of_no_separator :
      (s : Text)
      → all (λ c. not (is_separator c)) s ≡ true
      → (if matches_phone u s then with_country_code (select u.is_decimal s) else none)
        ≡ normal_form u s
  unfolding matches_phone normal_form
  of_no_separator s h = elim (Bool-cases (is_mobile u s)) [
    | inl e ↦
        rw (matches_phone, normal_form, e, select-all u.is_decimal s (is_mobile-all s e))
          (with_country_code-mobile s e)
    | inr e ↦ elim (Option-cases (after_country_code s)) [
      | inl q ↦ rw (matches_phone, normal_form, e, q) refl
      | inr (t, q) ↦ elim (Bool-cases (is_mobile u t)) [
        | inl m ↦
            rw
              (
                matches_phone,
                normal_form,
                e,
                q,
                m,
                after_country_code-eq_some s q,
                digits_after t m,
              )
              (with_country_code-long t m)
        | inr m ↦ rw (matches_phone, normal_form, e, q, drop_separator-after s h q, m) refl
      ]
    ]
  ]

all-select : (q : ℕ → Bool) (s : Text) → all q (select q s) ≡ true
all-select q [] = refl
all-select q (c ∷ s) = ground (arith, all-select q s)

normal_form-IsE164 :
    (u : Unicode) → IsStandard u → (s : Text) {p : Text} → normal_form u s ≡ some p → IsE164 u p
unfolding normal_form
normal_form-IsE164 u standard s {p} h = elim (Bool-cases (is_mobile u s)) [
  | inl e ↦ found s e (rw (normal_form, e) at h)
  | inr e ↦ elim (Option-cases (after_country_code s)) [
    | inl q ↦ absurd_none (rw (normal_form, e, q) at h)
    | inr (t, q) ↦ elim (Bool-cases (is_mobile u t)) [
      | inl m ↦ found t m (rw (normal_form, e, q, m) at h)
      | inr m ↦ absurd_none (rw (normal_form, e, q, m) at h)
    ]
  ]
]
  where
    found : (t : Text) → is_mobile u t ≡ true → some (codes "+91" ++ t) ≡ some p → IsE164 u p
    found t m k =
        (t, some-injective p (codes "+91" ++ t) (sym k), m, is_mobile-length u standard t m)

    absurd_none : none ≡ some p → IsE164 u p
    absurd_none k = cc

module _ (u : Unicode) (standard : IsStandard u) where
  -- Where decimal digits are neither white space nor one of the signs, and the ASCII digits are
  -- decimal, the number that is made from the digits of a text is the text without its separators,
  -- behind `+91` in place of a country code it may have; no number results where that is not a
  -- mobile number of ten digits.
  pub normalize_indian_phone_lem :
      (raw : Text) → normalize_indian_phone u raw ≡ normal_form u (cleaned raw)
  unfolding normalize_indian_phone cleaned
  normalize_indian_phone_lem raw =
      of_no_separator u standard (cleaned raw) (all-select (λ c. not (is_separator c)) (strip raw))

  normalize_indian_phone-IsE164 :
      (raw : Text) {p : Text} → normalize_indian_phone u raw ≡ some p → IsE164 u p
  normalize_indian_phone-IsE164 raw h =
      normal_form-IsE164 u standard (cleaned raw) (sym (normalize_indian_phone_lem raw) ∙ h)

  solid_digit : (c : ℕ) → u.is_decimal c ≡ true → not (is_separator c) ≡ true
  solid_digit c h = elim (Bool-cases (is_space c)) [
    | inl e ↦ cc (standard.1 c e)
    | inr e ↦ elim (Bool-cases (c == b'-')) [
      | inl q ↦ let eq : c ≡ b'-' = ground arith in cc (standard.3)
      | inr q ↦ rw (e, q) refl
    ]
  ]

  solid_digits : (s : Text) → all u.is_decimal s ≡ true → all (λ c. not (is_separator c)) s ≡ true
  solid_digits [] h = refl
  solid_digits (c ∷ s) h = ground (arith, solid_digit c, solid_digits s)

  cleaned-E164 : (s : Text) → is_mobile u s ≡ true → cleaned (codes "+91" ++ s) ≡ codes "+91" ++ s
  unfolding cleaned is_space
  cleaned-E164 s m =
      let solid = solid_digits s (is_mobile-all u standard s m) in
      select-strip (λ c. not (is_separator c)) (λ c h. rw h refl) (codes "+91" ++ s)
      ∙ select-all (λ c. not (is_separator c)) (codes "+91" ++ s) (rw solid refl)

  normal_form-E164 :
      (s : Text) → is_mobile u s ≡ true → normal_form u (codes "+91" ++ s) ≡ some (codes "+91" ++ s)
  unfolding normal_form
  normal_form-E164 s m = rw m refl

  -- Provided that decimal digits are neither white space nor one of the signs and that the ASCII
  -- digits are decimal, a normalised number is `+91` and ten digits that begin with 6, 7, 8 or 9, and
  -- it is its own normal form.
  pub normalize_indian_phone_idem :
      (raw : Text) {p : Text}
      → normalize_indian_phone u raw ≡ some p
      → IsE164 u p × (normalize_indian_phone u p ≡ some p)
  normalize_indian_phone_idem raw {p} h =
      let normal = normalize_indian_phone-IsE164 raw h in
      let (s, e, m, _) = normal in
      (
        normal,
        rw e (
            normalize_indian_phone_lem (codes "+91" ++ s)
            ∙ rw (cleaned-E164 s m) (normal_form-E164 s m)),
      )

module _ (u : Unicode) where
  with_country_code-is_empty :
      (s : Text) {p : Text} → with_country_code s ≡ some p → is_empty p ≡ false
  unfolding with_country_code
  with_country_code-is_empty s {p} h = elim (Bool-cases (length s == 10)) [
    | inl e ↦ shown (codes "91" ++ s) (rw (with_country_code, e) at h)
    | inr e ↦ elim (Bool-cases (length s == 12 && starts_91 s)) [
      | inl q ↦ shown s (rw (with_country_code, e, q) at h)
      | inr q ↦ let k : none ≡ some p = rw (with_country_code, e, q) at h in cc
    ]
  ]
    where
      shown : (t : Text) → some (b'+' ∷ t) ≡ some p → is_empty p ≡ false
      shown t k = rw (← some-injective (b'+' ∷ t) p k) refl

  pub normalize_indian_phone-is_empty :
      (raw : Text) {p : Text} → normalize_indian_phone u raw ≡ some p → is_empty p ≡ false
  unfolding normalize_indian_phone
  normalize_indian_phone-is_empty raw {p} h = elim (Bool-cases (matches_phone u (cleaned raw))) [
    | inl e ↦
        with_country_code-is_empty (select u.is_decimal (cleaned raw))
          (rw (normalize_indian_phone, e) at h)
    | inr e ↦ let k : none ≡ some p = rw (normalize_indian_phone, e) at h in cc
  ]
