-- ===== src/Directory/Batch/Roles.antt =====
-- About the accounts and role assignments that bulk_import_users,
-- civicbrain/api/v1/hierarchy.py, creates.
use mathlib.Core.List.{append_assoc, append-nil}
use civicbrain_v.Base.{
  ℕ, List, [], ◌∷◌, ◌++◌, map, Bool, true, ◌&&◌, ◌==◌, ◌≡◌, refl, sym, ◌∙◌, all, all-append,
  map-append, ==_refl,
}
use civicbrain_v.Directory.Models.{UserAccount, UserRoleAssignment, Directory}
use civicbrain_v.Directory.Rows.{Cells, metadata}
use civicbrain_v.Directory.Rows.Scopes.{is_in_scope, settle-is_in_scope}
use civicbrain_v.Directory.Rows.Identity.{identify-IsIdentified}
use civicbrain_v.Directory.Batch.{
  Platform, Batch, Person, skip, plan, invite, new_account, new_assignment,
}
use civicbrain_v.Directory.Batch.Step.{Step, person}

module _ (org : ℕ) (db : Directory) where
  -- Is it of the organization, with a role other than administrator and the keys of its scope?
  abbrev pub is_permitted : UserRoleAssignment → Bool
  is_permitted a =
      a.organization_id == org && is_in_scope org db a.role a.department_id a.zone_id a.ward_id

  abbrev pub is_staff : UserAccount → Bool
  is_staff a = a.organization_id == org && a.is_active

  -- The accounts and assignments of `db'` are those of `db` and new ones, one assignment for each
  -- new account.
  pub record IsEnrolled (db' : Directory) : Type 0 where
    pub accounts : List UserAccount
    pub assignments : List UserRoleAssignment
    pub more_accounts : db'.accounts ≡ db.accounts ++ accounts
    pub more_assignments : db'.assignments ≡ db.assignments ++ assignments
    pub owners :
        map (λ (a : UserRoleAssignment). a.user_id) assignments
        ≡ map (λ (a : UserAccount). a.id) accounts
    pub staff : all is_staff accounts ≡ true
    pub permitted : all is_permitted assignments ≡ true

  pub IsEnrolled-refl : IsEnrolled db
  IsEnrolled-refl = record {
    accounts = [];
    assignments = [];
    more_accounts = sym (append-nil db.accounts);
    more_assignments = sym (append-nil db.assignments);
    owners = refl;
    staff = refl;
    permitted = refl;
  }

  module _ (pf : Platform) (n : ℕ) (p : Person) (now : Directory) (enrolled : IsEnrolled now) where
    abbrev account : UserAccount
    account = new_account pf org (pf.draw n) p

    abbrev assignment : UserRoleAssignment
    assignment = new_assignment pf org (pf.draw n) p

    enrol :
        is_permitted assignment ≡ true
        → (db' : Directory) → db'.accounts ≡ now.accounts ++ account ∷ []
        → db'.assignments ≡ now.assignments ++ assignment ∷ []
        → IsEnrolled db'
    enrol allowed db' e q = record {
      accounts = enrolled.accounts ++ account ∷ [];
      assignments = enrolled.assignments ++ assignment ∷ [];
      more_accounts =
          e ∙ rw enrolled.more_accounts (append_assoc db.accounts enrolled.accounts (account ∷ []));
      more_assignments =
          q
          ∙ rw enrolled.more_assignments
              (append_assoc db.assignments enrolled.assignments (assignment ∷ []));
      owners =
          rw
            (
              map-append (λ (a : UserRoleAssignment). a.user_id) enrolled.assignments
                  (assignment ∷ []),
              map-append (λ (a : UserAccount). a.id) enrolled.accounts (account ∷ []),
              enrolled.owners,
            )
            refl;
      staff =
          rw (all-append is_staff enrolled.accounts (account ∷ []), enrolled.staff, ==_refl org)
            refl;
      permitted =
          rw
            (
              all-append is_permitted enrolled.assignments (assignment ∷ []),
              enrolled.permitted,
              allowed,
            )
            refl;
    }

  pub Step-IsEnrolled :
      (pf : Platform) (dry_run : Bool) (n : ℕ) (c : Cells) (b b' : Batch)
      → Step pf org (metadata pf.unicode org db) dry_run n c b b'
      → IsEnrolled b.db
      → IsEnrolled b'.db
  unfolding skip plan invite
  Step-IsEnrolled pf dry n c b b' (Step.halts e) h = h
  Step-IsEnrolled pf dry n c b b' (Step.refuses e q) h = h
  Step-IsEnrolled pf dry n c b b' (Step.plans e q d) h = h
  Step-IsEnrolled pf dry n c b b' (Step.creates {phone} {role} {scope} e q d k) h =
      let known = identify-IsIdentified pf.unicode b.existing_phones b.seen_phones c e in
      let fits = settle-is_in_scope pf.unicode org db b.corporator_wards c role known.no_admin q in
      enrol pf n (person c phone role scope) b.db h (rw (==_refl org) fits) b'.db refl refl
