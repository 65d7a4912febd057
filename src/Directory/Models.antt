-- ===== src/Directory/Models.antt =====
-- The tables of civicbrain/domain/identity/models.py that the bulk import and the department
-- endpoints of civicbrain/api/v1/hierarchy.py read and write, and what these endpoints raise.
use civicbrain_v.Base.{◌≡◌, ℕ, Bool, Option, List}
use civicbrain_v.Text.{Text, codes}

pub data StaffRole : Type 0 where
  admin dispatcher department_staff zonal_supervisor field_worker corporator : StaffRole

-- `StaffRole.X.value`
unfoldable pub value : StaffRole → Text
value StaffRole.admin = codes "admin"
value StaffRole.dispatcher = codes "dispatcher"
value StaffRole.department_staff = codes "department_staff"
value StaffRole.zonal_supervisor = codes "zonal_supervisor"
value StaffRole.field_worker = codes "field_worker"
value StaffRole.corporator = codes "corporator"

pub record Department : Type 0 where
  pub id : ℕ
  pub organization_id : ℕ
  pub name : Text
  pub code : Text
  pub is_active : Bool

pub record Zone : Type 0 where
  pub id : ℕ
  pub organization_id : ℕ
  pub name : Text
  pub code : Text

pub record Ward : Type 0 where
  pub id : ℕ
  pub organization_id : ℕ
  pub zone_id : ℕ
  pub ward_number : ℕ
  pub name : Text
  pub code : Text

pub record UserAccount : Type 0 where
  pub id : ℕ
  pub organization_id : ℕ
  pub email : Option Text
  pub phone : Text
  pub full_name : Text
  pub is_active : Bool
  pub mfa_enabled : Bool

pub record UserRoleAssignment : Type 0 where
  pub id : ℕ
  pub user_id : ℕ
  pub organization_id : ℕ
  pub role : StaffRole
  pub department_id : Option ℕ
  pub zone_id : Option ℕ
  pub ward_id : Option ℕ

-- The days of the term are counted from an epoch.
pub record ElectedRepresentative : Type 0 where
  pub id : ℕ
  pub organization_id : ℕ
  pub ward_id : ℕ
  pub user_id : ℕ
  pub full_name : Text
  pub term_start : ℕ
  pub term_end : ℕ

pub record StaffBulkImportLog : Type 0 where
  pub id : ℕ
  pub organization_id : ℕ
  pub admin_user_id : ℕ
  pub file_name : Text
  pub file_hash : Text
  pub total_rows : ℕ
  pub created_count : ℕ
  pub skipped_count : ℕ
  pub is_dry_run : Bool
  pub created_at : ℕ

-- The entry that `dispatch_account_setup_invitation` puts under a setup token.
pub record Invitation : Type 0 where
  pub setup_token : Text
  pub user_id : ℕ
  pub org_id : ℕ
  pub phone : Text
  pub email : Option Text
  pub full_name : Text

-- The tables, and the setup tokens of the cache.
pub record Directory : Type 0 where
  pub departments : List Department
  pub zones : List Zone
  pub wards : List Ward
  pub accounts : List UserAccount
  pub assignments : List UserRoleAssignment
  pub representatives : List ElectedRepresentative
  pub import_logs : List StaffBulkImportLog
  pub invitations : List Invitation

-- What a call ends with if it gives no response.
pub data Refusal : Type 0 where
  no_organization other_organization department_exists representative_not_found : Refusal
  file_too_large already_processed missing_columns no_data_rows too_many_rows : Refusal
  malformed_csv multiple_results value_error integrity_error : Refusal

-- The status code of the response: an exception that is no `HTTPException` gives 500.
abbrev pub refusal_code : Refusal → ℕ
refusal_code Refusal.no_organization = 400
refusal_code Refusal.other_organization = 403
refusal_code Refusal.department_exists = 409
refusal_code Refusal.representative_not_found = 404
refusal_code Refusal.file_too_large = 413
refusal_code Refusal.already_processed = 409
refusal_code Refusal.missing_columns = 400
refusal_code Refusal.no_data_rows = 400
refusal_code Refusal.too_many_rows = 400
refusal_code Refusal.malformed_csv = 500
refusal_code Refusal.multiple_results = 500
refusal_code Refusal.value_error = 500
refusal_code Refusal.integrity_error = 500

pub data Outcome (A : Type 0) : Type 0 where
  done : A → Outcome A
  refused : Refusal → Outcome A

abbrev pub and_then : {A B : Type 0} → Outcome A → (A → Outcome B) → Outcome B
and_then (done a) f = f a
and_then (refused e) f = refused e

pub done-injective : {A : Type 0} {x y : A} → done x ≡ done y → x ≡ y
done-injective h = cc
