-- ===== src/Directory/Phone.antt =====
-- PHONE_REGEX and normalize_indian_phone of civicbrain/api/v1/hierarchy.py.
pub mod Normal
use civicbrain_v.Base.{
  ℕ, [], ◌∷◌, ◌++◌, Bool, true, false, ◌&&◌, ◌||◌, not, leb, ◌==◌, if◌then◌else◌, all, select,
  length, Option, none, some,
}
use civicbrain_v.Text.{Text, codes, is_space}
use civicbrain_v.Text.Strip.{strip}
use civicbrain_v.Directory.Cells.{Unicode}

-- `[\s-]`
abbrev pub is_separator : ℕ → Bool
is_separator c = is_space c || c == b'-'

-- What follows a leading `+91`.
unfoldable pub after_country_code : Text → Option Text
after_country_code [] = none
after_country_code (_ ∷ []) = none
after_country_code (_ ∷ _ ∷ []) = none
after_country_code (a ∷ b ∷ c ∷ s) = if a == b'+' && b == b'9' && c == b'1' then some s else none

abbrev starts_91 : Text → Bool
starts_91 (a ∷ b ∷ _) = a == b'9' && b == b'1'
starts_91 _ = false

-- The last two tests of `normalize_indian_phone`, on the digits.
unfoldable pub with_country_code : Text → Option Text
with_country_code digits =
    if length digits == 10
    then some (codes "+91" ++ digits)
    else if length digits == 12 && starts_91 digits
    then some (codes "+" ++ digits)
    else none

-- `[\s-]?`
abbrev drop_separator : Text → Text
drop_separator [] = []
drop_separator (c ∷ s) = if is_separator c then s else c ∷ s

unfoldable pub cleaned : Text → Text
unfolding is_space
cleaned raw = select (λ c. not (is_separator c)) (strip raw)

module _ (u : Unicode) where
  -- `[6-9]\d{9}$`. The text that is tested has no white space, so no final newline.
  unfoldable pub is_mobile : Text → Bool
  is_mobile [] = false
  is_mobile (c ∷ s) = leb b'6' c && leb c b'9' && all u.is_decimal s && length s == 9

  -- `PHONE_REGEX.match`
  unfoldable pub matches_phone : Text → Bool
  unfolding is_mobile after_country_code is_space
  matches_phone s = is_mobile s || elim (after_country_code s) [
    | none ↦ false
    | some t ↦ is_mobile t || is_mobile (drop_separator t)
  ]

  unfoldable pub normalize_indian_phone : Text → Option Text
  unfolding matches_phone with_country_code cleaned
  normalize_indian_phone raw =
      let s = cleaned raw in
      if matches_phone s then with_country_code (select u.is_decimal s) else none
