-- ===== src/Directory/Cells/Formula.antt =====
-- About sanitize_csv_cell of civicbrain/infra/security.py.
use civicbrain_v.Base.{
  ℕ, [], ◌∷◌, Bool, true, false, ◌≡◌, refl, Bool-cases, inl, inr, arith, Option, none, some,
}
use civicbrain_v.Text.{Text, is_space}
use civicbrain_v.Text.Strip.{
  strip, starts_solid, strip_left, strip_right, strip-starts_solid, strip_left_fixed,
  strip_right-strip,
}
use civicbrain_v.Directory.Cells.{starts_formula, quote_formula, sanitize_csv_cell}

-- Does a spreadsheet read the text as a formula?
abbrev pub reads_as_formula : Text → Bool
reads_as_formula [] = false
reads_as_formula (c ∷ _) = starts_formula c

quote_formula-neutral : (s : Text) → reads_as_formula (quote_formula s) ≡ false
unfolding quote_formula starts_formula
quote_formula-neutral [] = refl
quote_formula-neutral (c ∷ s) = ground arith

quote_formula-fixed : (s : Text) → reads_as_formula s ≡ false → quote_formula s ≡ s
unfolding quote_formula
quote_formula-fixed [] h = refl
quote_formula-fixed (c ∷ s) h = rw (quote_formula, h) refl

-- Quoting a stripped text gives a stripped text.
quote_formula-strip :
    (s : Text)
    → starts_solid s ≡ true
    → strip_right s ≡ s
    → strip (quote_formula s) ≡ quote_formula s
unfolding quote_formula strip strip_right strip_left is_space
quote_formula-strip [] h k = refl
quote_formula-strip (c ∷ s) h k = elim (Bool-cases (starts_formula c)) [
  | inl e ↦ rw (quote_formula, e) (quoted c s k)
  | inr e ↦ rw (quote_formula, e, strip_left_fixed (c ∷ s) h) k
]
  where
    quoted :
        (c : ℕ) (s : Text)
        → strip_right (c ∷ s) ≡ c ∷ s
        → strip_right (strip_left (b'\'' ∷ c ∷ s)) ≡ b'\'' ∷ c ∷ s
    quoted c s e = rw e refl

sanitize_csv_cell-quote :
    (cell : Option Text)
    → (s : Text) × (starts_solid s ≡ true)
      × (strip_right s ≡ s)
      × (sanitize_csv_cell cell ≡ quote_formula s)
unfolding sanitize_csv_cell strip_right quote_formula
sanitize_csv_cell-quote none = ([], refl, refl, refl)
sanitize_csv_cell-quote (some []) = ([], refl, refl, refl)
sanitize_csv_cell-quote (some (c ∷ s)) =
    (strip (c ∷ s), strip-starts_solid (c ∷ s), strip_right-strip (c ∷ s), refl)

-- What the sanitiser gives is not read as a formula, and the sanitiser leaves it as it is, so a
-- text that is sanitised again when it is written to another file does not change.
pub sanitize_csv_cell_lem :
    (cell : Option Text)
    → (reads_as_formula (sanitize_csv_cell cell) ≡ false)
      × (sanitize_csv_cell (some (sanitize_csv_cell cell)) ≡ sanitize_csv_cell cell)
unfolding sanitize_csv_cell
sanitize_csv_cell_lem cell =
    let (s, solid, stripped, e) = sanitize_csv_cell-quote cell in
    let neutral = quote_formula-neutral s in
    (rw e neutral, rw e (again (quote_formula s) (quote_formula-strip s solid stripped) neutral))
  where
    again : (t : Text) → strip t ≡ t → reads_as_formula t ≡ false → sanitize_csv_cell (some t) ≡ t
    again [] h k = refl
    again (c ∷ t) h k = rw (sanitize_csv_cell, h) (quote_formula-fixed (c ∷ t) k)
