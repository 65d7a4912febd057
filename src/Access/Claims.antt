-- ===== src/Access/Claims.antt =====
-- CurrentUserClaims and require_roles of civicbrain/domain/identity/jwt.py.
pub mod Roles
use civicbrain_v.Base.{
  ℕ, List, [], ◌∷◌, Bool, true, false, ◌||◌, if◌then◌else◌, any, Option, none, some,
}
use civicbrain_v.Text.{Text, text_eq, is_empty}
use civicbrain_v.Directory.Models.{StaffRole, value}

-- The claims under one of the three dictionaries of the token that are read, as texts.
pub record Section : Type 0 where
  pub org_id : Option Text
  pub role : Option Text
  pub ward_id : Option Text

-- The payload of the token: the subject, the top level, and the two dictionaries of metadata.
pub record Payload : Type 0 where
  pub sub : Option Text
  pub top : Section
  pub app_metadata : Section
  pub user_metadata : Section

-- `uuid.UUID`, which raises ValueError on a text that is no UUID.
abbrev pub ParseUuid : Type 0
ParseUuid = Text → Option ℕ

pub record CurrentUserClaims : Type 0 where
  pub user_id : ℕ
  pub org_id : Option ℕ
  pub role : Option StaffRole
  pub ward_id : Option ℕ

-- The status codes are 401, 500 for the ValueError, and 403.
pub data ClaimsError : Type 0 where
  missing_subject malformed_uuid forbidden : ClaimsError

pub data Checked (A : Type 0) : Type 0 where
  passed : A → Checked A
  rejected : ClaimsError → Checked A

-- `a or b`: an empty text counts as none.
abbrev pub or_else : Option Text → Option Text → Option Text
or_else none b = b
or_else (some s) b = if is_empty s then b else some s

-- `top.get(k) or app_meta.get(k) or user_meta.get(k)`
abbrev pub first_of : (Section → Option Text) → Payload → Option Text
first_of get p = or_else (get p.top) (or_else (get p.app_metadata) (get p.user_metadata))

-- `StaffRole(role_str)`, none where it raises ValueError.
unfoldable pub staff_role : Text → Option StaffRole
unfolding value text_eq
staff_role s =
    if text_eq s (value StaffRole.admin)
    then some StaffRole.admin
    else if text_eq s (value StaffRole.dispatcher)
    then some StaffRole.dispatcher
    else if text_eq s (value StaffRole.department_staff)
    then some StaffRole.department_staff
    else if text_eq s (value StaffRole.zonal_supervisor)
    then some StaffRole.zonal_supervisor
    else if text_eq s (value StaffRole.field_worker)
    then some StaffRole.field_worker
    else if text_eq s (value StaffRole.corporator)
    then some StaffRole.corporator
    else none

abbrev pub role_of : Option Text → Option StaffRole
role_of none = none
role_of (some s) = if is_empty s then none else staff_role s

-- A UUID where the text is given, or the ValueError.
abbrev pub uuid_of : ParseUuid → Option Text → Checked (Option ℕ)
uuid_of parse none = passed none
uuid_of parse (some s) =
    if is_empty s
    then passed none
    else elim (parse s) [ none ↦ rejected ClaimsError.malformed_uuid | some k ↦ passed (some k) ]

abbrev and_check : {A B : Type 0} → Checked A → (A → Checked B) → Checked B
and_check (passed a) f = f a
and_check (rejected e) f = rejected e

-- The subject: `sub` has to be given.
abbrev subject_of : ParseUuid → Option Text → Checked ℕ
subject_of parse none = rejected ClaimsError.missing_subject
subject_of parse (some s) =
    if is_empty s
    then rejected ClaimsError.missing_subject
    else elim (parse s) [ none ↦ rejected ClaimsError.malformed_uuid | some k ↦ passed k ]

-- `CurrentUserClaims(raw_claims)`, the departments and zones, the email and the phone aside.
unfoldable pub current_user_claims : ParseUuid → Payload → Checked CurrentUserClaims
unfolding staff_role
current_user_claims parse p = and_check (subject_of parse p.sub) (λ user.
    and_check (uuid_of parse (first_of (λ s. s.org_id) p)) (λ org.
      and_check (uuid_of parse (first_of (λ s. s.ward_id) p)) (λ ward. passed (record {
        user_id = user;
        org_id = org;
        role = role_of (first_of (λ s. s.role) p);
        ward_id = ward;
      }))))

-- `claims.role not in allowed_roles`
abbrev same_role : StaffRole → StaffRole → Bool
same_role a b = text_eq (value a) (value b)

unfoldable pub require_roles : List StaffRole → CurrentUserClaims → Checked CurrentUserClaims
unfolding value text_eq
require_roles allowed claims = elim claims.role [
  | none ↦ rejected ClaimsError.forbidden
  | some r ↦
      if any (λ a. same_role r a) allowed then passed claims else rejected ClaimsError.forbidden
]
