-- ===== src/Directory/Batch/CountryCode.antt =====
-- About phones that are written with the country code in a file for bulk_import_users,
-- civicbrain/api/v1/hierarchy.py.
use civicbrain_v.Base.{
  ℕ, [], ◌∷◌, Bool, false, not, none, some, ◌≡◌, refl, sym, ◌∙◌, select, inl, inr,
}
use civicbrain_v.Text.{Text, is_space}
use civicbrain_v.Text.Strip.{strip, select-strip}
use civicbrain_v.Directory.Models.{done}
use civicbrain_v.Directory.Cells.{Unicode, sanitize_csv_cell}
use civicbrain_v.Directory.Phone.{is_separator, matches_phone, cleaned, normalize_indian_phone}
use civicbrain_v.Directory.Rows.{Row, read_cells, Metadata, Reason, identify}
use civicbrain_v.Directory.Rows.Identity.{identify-IsIdentified}
use civicbrain_v.Directory.Batch.{Platform, Batch, skip, process_row}
use civicbrain_v.Directory.Batch.Step.{Identified-cases}

sanitize_csv_cell-plus :
    (raw : Text) {t : Text} → strip raw ≡ b'+' ∷ t → sanitize_csv_cell (some raw) ≡ b'\'' ∷ b'+' ∷ t
unfolding sanitize_csv_cell strip
sanitize_csv_cell-plus [] h = cc
sanitize_csv_cell-plus (c ∷ s) h = rw (sanitize_csv_cell, h) refl

matches_phone-quote : (u : Unicode) (s : Text) → matches_phone u (b'\'' ∷ s) ≡ false
unfolding matches_phone
matches_phone-quote u [] = refl
matches_phone-quote u (a ∷ []) = refl
matches_phone-quote u (a ∷ b ∷ s) = refl

cleaned-quote : (s : Text) → cleaned (b'\'' ∷ s) ≡ b'\'' ∷ select (λ c. not (is_separator c)) s
unfolding cleaned is_space
cleaned-quote s = select-strip (λ c. not (is_separator c)) (λ c h. rw h refl) (b'\'' ∷ s)

normalize_indian_phone-quote :
    (u : Unicode) (s : Text) → normalize_indian_phone u (b'\'' ∷ s) ≡ none
unfolding normalize_indian_phone
normalize_indian_phone-quote u s =
    rw
      (
        normalize_indian_phone,
        cleaned-quote s,
        matches_phone-quote u (select (λ c. not (is_separator c)) s),
      )
      refl

-- A row whose phone is written with a leading `+`, white space around it aside, is always skipped,
-- since the sanitiser puts a quote before it: the row never becomes an account, although the number
-- may be in the normal form that the import itself stores.
pub process_row_country_code :
    (pf : Platform) (org : ℕ) (m : Metadata) (dry_run : Bool) (n : ℕ) (row : Row) (b : Batch)
    (raw : Text) {t : Text}
    → (read_cells pf.unicode row).phone ≡ sanitize_csv_cell (some raw)
    → strip raw ≡ b'+' ∷ t
    → (shown : Text) × (reason : Reason) × (process_row pf org m dry_run n row b
        ≡ done (skip n (read_cells pf.unicode row) shown reason b))
unfolding process_row
process_row_country_code pf org m dry_run n row b raw {t} cell plus =
    let c = read_cells pf.unicode row in
    elim (Identified-cases (identify pf.unicode b.existing_phones b.seen_phones c)) [
      | inl (phone, reason, e) ↦ (phone, reason, rw (process_row, e) refl)
      | inr (phone, role, e) ↦
          let known = identify-IsIdentified pf.unicode b.existing_phones b.seen_phones c e in
          let quoted = cell ∙ sanitize_csv_cell-plus raw plus in
          let never : none ≡ some phone =
            sym (normalize_indian_phone-quote pf.unicode (b'+' ∷ t))
            ∙ (rw quoted at known.normal) in
          cc
    ]
