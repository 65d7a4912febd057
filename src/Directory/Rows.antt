-- ===== src/Directory/Rows.antt =====
-- The tests that bulk_import_users of civicbrain/api/v1/hierarchy.py makes of one row.
pub mod Scopes
pub mod Identity
pub mod Agreement
use civicbrain_v.Base.{
  ℕ, List, [], ◌∷◌, Bool, ◌&&◌, ◌||◌, not, ◌==◌, if◌then◌else◌, any, select, map, Option, none,
  some,
}
use civicbrain_v.Text.{Text, codes, text_eq, is_empty}
use civicbrain_v.Text.Members.{member}
use civicbrain_v.Text.Strip.{strip}
use civicbrain_v.Directory.Models.{
  StaffRole, value, Department, Zone, Ward, Directory, Refusal, Outcome, done, refused,
}
use civicbrain_v.Directory.Cells.{Unicode, sanitize_csv_cell, matches_email}
use civicbrain_v.Directory.Phone.{normalize_indian_phone}

-- A row of `csv.DictReader`: the cells under the names of the columns, `None` where the row is
-- shorter than the header.
abbrev pub Row : Type 0
Row = List (Text × Option Text)

-- The value that a dictionary made from these pairs has under a key: the last one wins.
abbrev pub lookup {ℓ} : {A : Type ℓ} → Text → List (Text × A) → Option A
lookup k [] = none
lookup k ((j, v) ∷ m) = elim (lookup k m) [
  | some w ↦ some w
  | none ↦ if text_eq j k then some v else none
]

abbrev pub lookup_number {ℓ} : {A : Type ℓ} → ℕ → List (ℕ × A) → Option A
lookup_number k [] = none
lookup_number k ((j, v) ∷ m) = elim (lookup_number k m) [
  | some w ↦ some w
  | none ↦ if j == k then some v else none
]

-- `raw_row.get(name, "")`
abbrev get : Text → Row → Option Text
get name row = elim (lookup name row) [ some cell ↦ cell | none ↦ some [] ]

pub record Cells : Type 0 where
  pub full_name : Text
  pub phone : Text
  pub email : Text
  pub role : Text
  pub department_code : Text
  pub zone_code : Text
  pub ward_number : Text

-- `email_raw or None`
abbrev pub given : Text → Option Text
given s = if is_empty s then none else some s

abbrev pub read_cells : Unicode → Row → Cells
read_cells u row = record {
  full_name = sanitize_csv_cell (get (codes "full_name") row);
  phone = sanitize_csv_cell (get (codes "phone") row);
  email = sanitize_csv_cell (get (codes "email") row);
  role = strip (u.lower (sanitize_csv_cell (get (codes "role") row)));
  department_code = strip (u.upper (sanitize_csv_cell (get (codes "department_code") row)));
  zone_code = strip (u.upper (sanitize_csv_cell (get (codes "zone_code") row)));
  ward_number = strip (sanitize_csv_cell (get (codes "ward_number") row));
}

-- Why a row is skipped. The texts name the values besides, which the row's result has.
pub data Reason : Type 0 where
  full_name_required admin_prohibited invalid_role invalid_phone phone_registered phone_repeated :
      Reason
  invalid_email : Reason
  department_required zone_required ward_required : StaffRole → Reason
  ward_represented : Reason

-- A member of ALLOWED_BULK_ROLES, as `StaffRole(role_raw)`.
unfoldable pub bulk_role : Text → Option StaffRole
unfolding value text_eq
bulk_role s =
    if text_eq s (value StaffRole.dispatcher)
    then some StaffRole.dispatcher
    else if text_eq s (value StaffRole.department_staff)
    then some StaffRole.department_staff
    else if text_eq s (value StaffRole.zonal_supervisor)
    then some StaffRole.zonal_supervisor
    else if text_eq s (value StaffRole.field_worker)
    then some StaffRole.field_worker
    else if text_eq s (value StaffRole.corporator)
    then some StaffRole.corporator
    else none

-- The phone that the row's result shows, and the reason; or the phone and role of the person.
pub data Identified : Type 0 where
  halted : Text → Reason → Identified
  identified : Text → StaffRole → Identified

-- The tests up to the phone's, given the phones of the accounts and those of the rows before.
unfoldable pub identify : Unicode → List Text → List Text → Cells → Identified
unfolding bulk_role member normalize_indian_phone
identify u existing_phones seen c =
    if is_empty c.full_name
    then halted c.phone Reason.full_name_required
    else if text_eq c.role (value StaffRole.admin)
    then halted c.phone Reason.admin_prohibited
    else elim (bulk_role c.role) [
      | none ↦ halted c.phone Reason.invalid_role
      | some role ↦ elim (normalize_indian_phone u c.phone) [
        | none ↦ halted c.phone Reason.invalid_phone
        | some phone ↦
            if member phone existing_phones
            then halted phone Reason.phone_registered
            else if member phone seen
            then halted phone Reason.phone_repeated
            else identified phone role
      ]
    ]

-- `dept_map`, `zone_map` and `ward_map`
pub record Metadata : Type 0 where
  pub departments : List (Text × ℕ)
  pub zones : List (Text × ℕ)
  pub wards : List (ℕ × ℕ)

abbrev pub metadata : Unicode → ℕ → Directory → Metadata
metadata u org db = record {
  departments =
      map (λ (d : Department). (u.upper d.code, d.id))
        (select (λ (d : Department). d.organization_id == org && d.is_active) db.departments);
  zones =
      map (λ (z : Zone). (u.upper z.code, z.id))
        (select (λ (z : Zone). z.organization_id == org) db.zones);
  wards =
      map (λ (w : Ward). (w.ward_number, w.id))
        (select (λ (w : Ward). w.organization_id == org) db.wards);
}

-- `dept_id`, `zone_id` and `ward_id`
pub record Scope : Type 0 where
  pub department_id : Option ℕ
  pub zone_id : Option ℕ
  pub ward_id : Option ℕ

abbrev pub unscoped : Scope
unscoped = record { department_id = none; zone_id = none; ward_id = none }

pub data Scoped : Type 0 where
  out_of_scope : Reason → Scoped
  scoped : Scope → Scoped

abbrev pub code_in : Text → List (Text × ℕ) → Option ℕ
code_in code m = if is_empty code then none else lookup code m

-- The ward with this number, if the text is a number and the number is a ward's; `int` may raise.
unfoldable pub ward_in : Unicode → Text → List (ℕ × ℕ) → Outcome (Option ℕ)
ward_in u raw m =
    if is_empty raw || not (u.isdigit raw)
    then done none
    else elim (u.int raw) [ none ↦ refused Refusal.value_error | some n ↦ done (lookup_number n m) ]

abbrev pub with_ward : Outcome (Option ℕ) → StaffRole → (ℕ → Scoped) → Outcome Scoped
with_ward (refused e) role f = refused e
with_ward (done none) role f = done (out_of_scope (Reason.ward_required role))
with_ward (done (some w)) role f = done (f w)

abbrev pub corporator_scope : List ℕ → ℕ → Scoped
corporator_scope taken w =
    if any (λ v. v == w) taken
    then out_of_scope Reason.ward_represented
    else scoped (record unscoped { ward_id = some w })

-- The scope that the role needs, given the wards that have a representative.
unfoldable pub role_scope : Unicode → Metadata → List ℕ → Cells → StaffRole → Outcome Scoped
unfolding ward_in
role_scope u m taken c StaffRole.admin = done (scoped unscoped)
role_scope u m taken c StaffRole.dispatcher = done (scoped unscoped)
role_scope u m taken c StaffRole.department_staff = elim (code_in c.department_code m.departments) [
  | none ↦ done (out_of_scope (Reason.department_required StaffRole.department_staff))
  | some d ↦ done (scoped (record unscoped { department_id = some d }))
]
role_scope u m taken c StaffRole.zonal_supervisor = elim (code_in c.zone_code m.zones) [
  | none ↦ done (out_of_scope (Reason.zone_required StaffRole.zonal_supervisor))
  | some z ↦ done (scoped (record unscoped { zone_id = some z }))
]
role_scope u m taken c StaffRole.field_worker = elim (code_in c.department_code m.departments) [
  | none ↦ done (out_of_scope (Reason.department_required StaffRole.field_worker))
  | some d ↦
      with_ward (ward_in u c.ward_number m.wards) StaffRole.field_worker
        (λ w. scoped (record unscoped { department_id = some d; ward_id = some w }))
]
role_scope u m taken c StaffRole.corporator =
    with_ward (ward_in u c.ward_number m.wards) StaffRole.corporator (corporator_scope taken)

-- The tests after the phone's.
unfoldable pub settle : Unicode → Metadata → List ℕ → Cells → StaffRole → Outcome Scoped
unfolding role_scope matches_email
settle u m taken c role =
    if not (is_empty c.email) && not (matches_email c.email)
    then done (out_of_scope Reason.invalid_email)
    else role_scope u m taken c role
