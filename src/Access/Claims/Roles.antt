-- ===== src/Access/Claims/Roles.antt =====
-- About the role that civicbrain/domain/identity/jwt.py reads from a token.
use civicbrain_v.Base.{List, false, none, some, ◌≡◌, refl, sym, ◌∙◌, ap}
use civicbrain_v.Text.{Text, is_empty}
use civicbrain_v.Directory.Models.{StaffRole}
use civicbrain_v.Access.Claims.{
  Payload, ParseUuid, CurrentUserClaims, ClaimsError, Checked, passed, rejected, first_of,
  staff_role, role_of, uuid_of, subject_of, and_check, current_user_claims, require_roles,
}

passed-injective : {A : Type 0} {x y : A} → passed x ≡ passed y → x ≡ y
passed-injective h = cc

and_check-passed :
    {A B : Type 0} (c : Checked A) (f : A → Checked B) {b : B}
    → and_check c f ≡ passed b
    → (a : A) × (f a ≡ passed b)
and_check-passed (passed a) f h = (a, h)
and_check-passed (rejected e) f h = cc

claims-role :
    (parse : ParseUuid) (p : Payload) {c : CurrentUserClaims}
    → current_user_claims parse p ≡ passed c
    → c.role ≡ role_of (first_of (λ s. s.role) p)
unfolding current_user_claims
claims-role parse p h =
    let (user, h1) = and_check-passed (subject_of parse p.sub) _ h in
    let (org, h2) = and_check-passed (uuid_of parse (first_of (λ s. s.org_id) p)) _ h1 in
    let (ward, h3) = and_check-passed (uuid_of parse (first_of (λ s. s.ward_id) p)) _ h2 in
    sym (ap (λ (c : CurrentUserClaims). c.role) (passed-injective h3))

-- A token whose top level has a role that is not a staff role, such as "authenticated", passes no
-- check for roles, whatever role its metadata give.
pub require_roles_top :
    (parse : ParseUuid) (p : Payload) (allowed : List StaffRole) {c : CurrentUserClaims} {s : Text}
    → current_user_claims parse p ≡ passed c
    → p.top.role ≡ some s
    → is_empty s ≡ false
    → staff_role s ≡ none
    → require_roles allowed c ≡ rejected ClaimsError.forbidden
unfolding require_roles
require_roles_top parse p allowed {c} {s} h top full foreign =
    let nobody : c.role ≡ none = claims-role parse p h ∙ rw (top, full, full, foreign) refl in
    rw (require_roles, nobody) refl
