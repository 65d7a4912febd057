-- ===== src/Directory/Departments.antt =====
-- create_department, get_representative and create_staff_member of
-- civicbrain/api/v1/hierarchy.py, and create_staff_user of
-- civicbrain/domain/identity/services.py.
pub mod Codes
use civicbrain_v.Base.{
  ℕ, List, [], ◌∷◌, ◌++◌, Bool, true, false, ◌&&◌, not, ◌==◌, if◌then◌else◌, any, find, select, map,
  Option, none, some,
}
use civicbrain_v.Text.{Text, text_eq}
use civicbrain_v.Text.Strip.{strip}
use civicbrain_v.Directory.Models.{
  StaffRole, Department, UserAccount, UserRoleAssignment, ElectedRepresentative, Directory, Refusal,
  Outcome, done, refused, and_then,
}
use civicbrain_v.Directory.Cells.{Unicode}

pub record DepartmentCreate : Type 0 where
  pub name : Text
  pub code : Text
  pub is_active : Bool

-- `payload.code.strip().upper()`
abbrev pub clean_code : Unicode → DepartmentCreate → Text
clean_code u payload = u.upper (strip payload.code)

abbrev pub has_code : ℕ → Text → Department → Bool
has_code org code d = d.organization_id == org && text_eq d.code code

abbrev pub new_department : Unicode → ℕ → ℕ → DepartmentCreate → Department
new_department u id org payload = record {
  id = id;
  organization_id = org;
  name = strip payload.name;
  code = clean_code u payload;
  is_active = payload.is_active;
}

-- The insert, given the departments that have the code; `scalar_one_or_none` raises on two.
abbrev pub insert_department :
    Unicode
    → ℕ
    → ℕ
    → DepartmentCreate
    → Directory
    → List Department
    → Outcome (Department × Directory)
insert_department u id org payload db [] = done (
  new_department u id org payload,
  record db { departments = db.departments ++ new_department u id org payload ∷ [] },
)
insert_department u id org payload db (_ ∷ []) = refused Refusal.department_exists
insert_department u id org payload db (_ ∷ _ ∷ _) = refused Refusal.multiple_results

-- The organization of the claims has to be that of the path.
unfoldable pub create_department :
    Unicode → ℕ → Option ℕ → ℕ → DepartmentCreate → Directory → Outcome (Department × Directory)
unfolding text_eq strip
create_department u id none org payload db = refused Refusal.other_organization
create_department u id (some own) org payload db =
    if not (own == org)
    then refused Refusal.other_organization
    else insert_department u id org payload db
        (select (has_code org (clean_code u payload)) db.departments)

-- The representative of a ward, which is one row at most (`uq_elected_representative_ward`).
unfoldable pub get_representative : ℕ → ℕ → Directory → Outcome ElectedRepresentative
get_representative org ward db = elim (find (λ r. r.ward_id == ward) db.representatives) [
  | none ↦ refused Refusal.representative_not_found
  | some r ↦
      if not (r.organization_id == org) then refused Refusal.representative_not_found else done r
]

-- An assignment as the admin asks for it; `key` is drawn.
pub record UserRoleAssignmentCreate : Type 0 where
  pub key : ℕ
  pub role : StaffRole
  pub department_id : Option ℕ
  pub zone_id : Option ℕ
  pub ward_id : Option ℕ

pub record UserAccountCreate : Type 0 where
  pub email : Option Text
  pub phone : Text
  pub full_name : Text
  pub role_assignments : List UserRoleAssignmentCreate

abbrev pub assigned : ℕ → ℕ → UserRoleAssignmentCreate → UserRoleAssignment
assigned user org r = record {
  id = r.key;
  user_id = user;
  organization_id = org;
  role = r.role;
  department_id = r.department_id;
  zone_id = r.zone_id;
  ward_id = r.ward_id;
}

abbrev pub staff_account : ℕ → ℕ → UserAccountCreate → UserAccount
staff_account user org payload = record {
  id = user;
  organization_id = org;
  email = payload.email;
  phone = payload.phone;
  full_name = payload.full_name;
  is_active = true;
  mfa_enabled = false;
}

-- The account, which the flush inserts, and the assignments.
unfoldable pub create_staff_user :
    ℕ → UserAccountCreate → ℕ → Directory → Outcome (UserAccount × Directory)
create_staff_user org payload user db =
    if any (λ a. a.id == user) db.accounts
    then refused Refusal.integrity_error
    else done (
      staff_account user org payload,
      record db {
        accounts = db.accounts ++ staff_account user org payload ∷ [];
        assignments = db.assignments ++ map (assigned user org) payload.role_assignments;
      },
    )

-- `user` is the key that is drawn for the account.
unfoldable pub create_staff_member :
    Option ℕ → UserAccountCreate → ℕ → Directory → Outcome (UserAccount × Directory)
unfolding create_staff_user
create_staff_member none payload user db = refused Refusal.no_organization
create_staff_member (some org) payload user db = create_staff_user org payload user db
