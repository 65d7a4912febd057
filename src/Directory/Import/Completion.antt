-- ===== src/Directory/Import/Completion.antt =====
-- About the ends of a dry run of bulk_import_users, civicbrain/api/v1/hierarchy.py.
use civicbrain_v.Base.{
  ℕ, suc, List, [], ◌∷◌, true, false, ◌&&◌, ◌||◌, not, ◌≡◌, refl, ◌⊎◌, inl, inr, length, ltb,
  Option, none, some, Option-cases, Bool-cases,
}
use civicbrain_v.Text.{Text, is_empty}
use civicbrain_v.Directory.Models.{Directory, StaffRole, Refusal, Outcome, done, refused, and_then}
use civicbrain_v.Directory.Cells.{Unicode, matches_email}
use civicbrain_v.Directory.Rows.{
  Row, Cells, Metadata, metadata, Scoped, out_of_scope, scoped, identify, read_cells, settle,
  role_scope, ward_in, with_ward, code_in, corporator_scope,
}
use civicbrain_v.Directory.Batch.{Platform, Batch, skip, mark, enter, process_row, process_rows}
use civicbrain_v.Directory.Batch.Step.{Identified-cases}
use civicbrain_v.Directory.Import.{
  Request, BulkImportResponse, loaded, check_repeated, read_rows, import_rows, bulk_import_users,
  max_import_file_bytes,
}

-- The call gives a value, or raises the ValueError of `int`.
abbrev Ends : {A : Type 0} → Outcome A → Type 0
Ends {A} o = ((a : A) × (o ≡ done a)) ⊎ (o ≡ refused Refusal.value_error)

Ends-and_then :
    {A B : Type 0} (o : Outcome A) (f : A → Outcome B)
    → Ends o
    → ((a : A) → Ends (f a))
    → Ends (and_then o f)
Ends-and_then o f (inl (a, e)) g = rw e (g a)
Ends-and_then o f (inr e) g = rw e (inr refl)

with_ward-Ends :
    (o : Outcome (Option ℕ)) (role : StaffRole) (f : ℕ → Scoped)
    → Ends o
    → Ends (with_ward o role f)
with_ward-Ends o role f (inl (none, e)) = rw e (inl (_, refl))
with_ward-Ends o role f (inl (some w, e)) = rw e (inl (_, refl))
with_ward-Ends o role f (inr e) = rw e (inr refl)

module _ (u : Unicode) (m : Metadata) where
  ward_in-Ends : (raw : Text) → Ends (ward_in u raw m.wards)
  unfolding ward_in
  ward_in-Ends raw = elim (Bool-cases (is_empty raw || not (u.isdigit raw))) [
    | inl e ↦ rw (ward_in, e) (inl (_, refl))
    | inr e ↦ elim (Option-cases (u.int raw)) [
      | inl q ↦ rw (ward_in, e, q) (inr refl)
      | inr (n, q) ↦ rw (ward_in, e, q) (inl (_, refl))
    ]
  ]

  role_scope-Ends :
      (taken : List ℕ) (c : Cells) (role : StaffRole) → Ends (role_scope u m taken c role)
  unfolding role_scope
  role_scope-Ends taken c StaffRole.admin = inl (_, refl)
  role_scope-Ends taken c StaffRole.dispatcher = inl (_, refl)
  role_scope-Ends taken c StaffRole.department_staff =
      elim (Option-cases (code_in c.department_code m.departments)) [
        | inl e ↦ rw (role_scope, e) (inl (_, refl))
        | inr (d, e) ↦ rw (role_scope, e) (inl (_, refl))
      ]
  role_scope-Ends taken c StaffRole.zonal_supervisor =
      elim (Option-cases (code_in c.zone_code m.zones)) [
        | inl e ↦ rw (role_scope, e) (inl (_, refl))
        | inr (z, e) ↦ rw (role_scope, e) (inl (_, refl))
      ]
  role_scope-Ends taken c StaffRole.field_worker =
      elim (Option-cases (code_in c.department_code m.departments)) [
        | inl e ↦ rw (role_scope, e) (inl (_, refl))
        | inr (d, e) ↦
            rw (role_scope, e)
              (with_ward-Ends (ward_in u c.ward_number m.wards) StaffRole.field_worker _
                (ward_in-Ends c.ward_number))
      ]
  role_scope-Ends taken c StaffRole.corporator =
      with_ward-Ends (ward_in u c.ward_number m.wards) StaffRole.corporator (corporator_scope taken)
        (ward_in-Ends c.ward_number)

  settle-Ends : (taken : List ℕ) (c : Cells) (role : StaffRole) → Ends (settle u m taken c role)
  unfolding settle
  settle-Ends taken c role =
      elim (Bool-cases (not (is_empty c.email) && not (matches_email c.email))) [
        | inl e ↦ rw (settle, e) (inl (_, refl))
        | inr e ↦ rw (settle, e) (role_scope-Ends taken c role)
      ]

module _ (pf : Platform) (org : ℕ) (m : Metadata) where
  settled-Ends :
      (n : ℕ) (c : Cells) (phone : Text) (role : StaffRole) (b : Batch) (r : Scoped)
      → Ends (elim r [
        | out_of_scope reason ↦ done (skip n c phone reason b)
        | scoped scope ↦ enter pf org true n c phone role scope b
      ])
  unfolding enter
  settled-Ends n c phone role b (out_of_scope reason) = inl (_, refl)
  settled-Ends n c phone role b (scoped scope) = inl (_, refl)

  process_row-Ends : (n : ℕ) (row : Row) (b : Batch) → Ends (process_row pf org m true n row b)
  unfolding process_row
  process_row-Ends n row b =
      let c = read_cells pf.unicode row in
      elim (Identified-cases (identify pf.unicode b.existing_phones b.seen_phones c)) [
        | inl (phone, reason, e) ↦ rw (process_row, e) (inl (_, refl))
        | inr (phone, role, e) ↦
            rw (process_row, e)
              (Ends-and_then (settle pf.unicode m b.corporator_wards c role) _
                (settle-Ends pf.unicode m b.corporator_wards c role)
                (settled-Ends n c phone role (mark phone b)))
      ]

  process_rows-Ends :
      (n : ℕ) (rows : List Row) (b : Batch) → Ends (process_rows pf org m true n rows b)
  unfolding process_rows
  process_rows-Ends n [] b = inl (b, refl)
  process_rows-Ends n (row ∷ rows) b =
      Ends-and_then (process_row pf org m true n row b) _ (process_row-Ends n row b)
        (process_rows-Ends (suc n) rows)

-- A dry run for an organization over a file that is small enough and from which rows are read comes
-- to an end with a response, or with the ValueError that `int` raises on a ward number that
-- `isdigit` accepts; nothing else stops it.
pub bulk_import_users_ends :
    (pf : Platform) (q : Request) (db : Directory) {org : ℕ} {rows : List Row}
    → q.org_id ≡ some org
    → q.dry_run ≡ true
    → ltb max_import_file_bytes (length q.content) ≡ false
    → read_rows pf org q ≡ done rows
    → ((r : BulkImportResponse × Directory) × (bulk_import_users pf q db ≡ done r))
      ⊎ (bulk_import_users pf q db ≡ refused Refusal.value_error)
unfolding bulk_import_users import_rows check_repeated
bulk_import_users_ends pf q db {org} {rows} claimed dry small read =
    let m = metadata pf.unicode org db in
    let loop = process_rows-Ends pf org m 2 rows (loaded pf org db) in
    rw (bulk_import_users, claimed, import_rows, small, check_repeated, dry, read)
      (Ends-and_then (process_rows pf org m true 2 rows (loaded pf org db)) _ loop
        (λ b. inl (_, refl)))
