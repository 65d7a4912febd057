-- ===== src/Directory/Cells.antt =====
-- The cells of an uploaded file: sanitize_csv_cell of civicbrain/infra/security.py, EMAIL_REGEX of
-- civicbrain/api/v1/hierarchy.py, and what the import uses of Python's texts.
pub mod Formula
use civicbrain_v.Base.{
  ℕ, [], ◌∷◌, Bool, true, false, ◌&&◌, ◌||◌, not, ◌==◌, if◌then◌else◌, all, Option, none, some, ◌≡◌,
  ◌≤◌,
}
use civicbrain_v.Text.{Text, is_space, is_empty}
use civicbrain_v.Text.Strip.{strip}

-- What the import uses of Python's Unicode tables: is a character matched by `\d`, `str.upper`,
-- `str.lower`, `str.isdigit`, and `int`, which raises ValueError on some texts that `isdigit`
-- accepts (superscripts).
pub record Unicode : Type 0 where
  pub is_decimal : ℕ → Bool
  pub upper : Text → Text
  pub lower : Text → Text
  pub isdigit : Text → Bool
  pub int : Text → Option ℕ

-- `\d` matches the ten ASCII digits, no white space, and none of `'`, `+` and `-`.
abbrev pub IsStandard : Unicode → Type 0
IsStandard u =
    ((c : ℕ) → b'0' ≤ c → c ≤ b'9' → u.is_decimal c ≡ true)
    × ((c : ℕ) → is_space c ≡ true → u.is_decimal c ≡ false)
    × (u.is_decimal b'+' ≡ false)
    × (u.is_decimal b'-' ≡ false)

-- The characters with which a spreadsheet begins a formula: = + - @ tab and carriage return.
unfoldable pub starts_formula : ℕ → Bool
starts_formula c = c == b'=' || c == b'+' || c == b'-' || c == b'@' || c == 9 || c == 13

quote_formula : Text → Text
quote_formula [] = []
quote_formula (c ∷ s) = if starts_formula c then b'\'' ∷ c ∷ s else c ∷ s

-- A missing cell is `None`.
unfoldable pub sanitize_csv_cell : Option Text → Text
unfolding starts_formula quote_formula strip
sanitize_csv_cell none = []
sanitize_csv_cell (some s) = if is_empty s then [] else quote_formula (strip s)

-- `[^@\s]`
abbrev address_char : ℕ → Bool
address_char c = not (c == b'@' || is_space c)

-- `.+` and `\.` and a rest that is not empty, after at least one character.
abbrev dotted : Text → Bool
dotted [] = false
dotted (c ∷ s) = c == b'.' && not (is_empty s) || dotted s

abbrev is_domain : Text → Bool
is_domain [] = false
is_domain (c ∷ s) = all address_char (c ∷ s) && dotted s

abbrev after_local : Text → Bool
after_local [] = false
after_local (c ∷ s) =
    let rest = after_local s in if c == b'@' then is_domain s else address_char c && rest

-- `EMAIL_REGEX.match`: one `@` with something before it, and a dot inside what follows it. The
-- text is stripped, so it has no final newline.
unfoldable pub matches_email : Text → Bool
unfolding is_space
matches_email [] = false
matches_email (c ∷ s) = address_char c && after_local s
