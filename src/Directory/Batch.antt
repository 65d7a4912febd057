-- ===== src/Directory/Batch.antt =====
-- bulk_import_users of civicbrain/api/v1/hierarchy.py: the loop over the rows.
pub mod Step
pub mod Audit
pub mod Roles
pub mod Phones
pub mod CountryCode
pub mod Forecast
use civicbrain_v.Base.{
  ℕ, suc, ◌+◌, ◌*◌, List, [], ◌∷◌, ◌++◌, Bool, true, false, ◌||◌, ◌==◌, if◌then◌else◌, any, Option,
  none, some,
}
use civicbrain_v.Text.{Text}
use civicbrain_v.Directory.Models.{
  StaffRole, UserAccount, UserRoleAssignment, ElectedRepresentative, Invitation, Directory, Refusal,
  Outcome, done, refused, and_then,
}
use civicbrain_v.Directory.Cells.{Unicode}
use civicbrain_v.Directory.Rows.{
  Row, Cells, read_cells, given, Reason, halted, identified, identify, Metadata, Scope,
  out_of_scope, scoped, settle,
}

-- What is drawn or answered for the account of one row: `secrets.token_urlsafe`, `uuid.uuid4`, the
-- user that Supabase created if it did not raise, and the keys of two more rows.
pub record Draw : Type 0 where
  pub setup_token : Text
  pub uuid : ℕ
  pub auth_user : Option ℕ
  pub assignment_id : ℕ
  pub representative_id : ℕ

-- `csv.DictReader` on the decoded content gives the names of the columns (none for an empty file)
-- and the rows, unless it raises. A draw is made for each row number.
pub record Platform : Type 0 where
  pub unicode : Unicode
  pub sha256 : List ℕ → Text
  pub fieldnames : List ℕ → Option (List Text)
  pub rows : List ℕ → Option (List Row)
  pub draw : ℕ → Draw
  pub log_id : ℕ
  pub today : ℕ
  pub now : ℕ

pub data RowStatus : Type 0 where
  created would_create skipped : RowStatus

pub record BulkImportRowResult : Type 0 where
  pub row_number : ℕ
  pub full_name : Text
  pub phone : Text
  pub email : Option Text
  pub role : Text
  pub status : RowStatus
  pub reason : Option Reason
  pub setup_link_dispatched : Bool

-- The variables of the loop.
pub record Batch : Type 0 where
  pub db : Directory
  pub existing_phones : List Text
  pub corporator_wards : List ℕ
  pub seen_phones : List Text
  pub results : List BulkImportRowResult
  pub created_count : ℕ
  pub skipped_count : ℕ

abbrev pub row_result : ℕ → Cells → Text → RowStatus → Option Reason → Bool → BulkImportRowResult
row_result n c phone status reason dispatched = record {
  row_number = n;
  full_name = c.full_name;
  phone = phone;
  email = given c.email;
  role = c.role;
  status = status;
  reason = reason;
  setup_link_dispatched = dispatched;
}

-- `skipped_count += 1` and the result.
unfoldable pub skip : ℕ → Cells → Text → Reason → Batch → Batch
skip n c phone reason b = record b {
  results = b.results ++ row_result n c phone RowStatus.skipped (some reason) false ∷ [];
  skipped_count = b.skipped_count + 1;
}

unfoldable pub plan : ℕ → Cells → Text → Batch → Batch
plan n c phone b = record b {
  results = b.results ++ row_result n c phone RowStatus.would_create none false ∷ [];
  created_count = b.created_count + 1;
}

-- `seen_batch_phones.add(normalized_phone)`
abbrev pub mark : Text → Batch → Batch
mark phone b = record b { seen_phones = phone ∷ b.seen_phones }

abbrev pub auth_user_id : Draw → ℕ
auth_user_id d = elim d.auth_user [ none ↦ d.uuid | some k ↦ k ]

-- The person of a row that passed every test.
pub record Person : Type 0 where
  pub full_name : Text
  pub phone : Text
  pub email : Option Text
  pub role : StaffRole
  pub scope : Scope

-- The ward of a new representative, if the person is to be one.
unfoldable pub represented : Person → Option ℕ
represented p = elim p.role [ StaffRole.corporator ↦ p.scope.ward_id | _ ↦ none ]

-- The body of the loop, in the organization of the claims.
module _ (pf : Platform) (org : ℕ) where
  abbrev pub new_account : Draw → Person → UserAccount
  new_account d p = record {
    id = auth_user_id d;
    organization_id = org;
    email = p.email;
    phone = p.phone;
    full_name = p.full_name;
    is_active = true;
    mfa_enabled = false;
  }

  abbrev pub new_assignment : Draw → Person → UserRoleAssignment
  new_assignment d p = record {
    id = d.assignment_id;
    user_id = auth_user_id d;
    organization_id = org;
    role = p.role;
    department_id = p.scope.department_id;
    zone_id = p.scope.zone_id;
    ward_id = p.scope.ward_id;
  }

  abbrev pub new_representative : Draw → Person → ℕ → ElectedRepresentative
  new_representative d p ward = record {
    id = d.representative_id;
    organization_id = org;
    ward_id = ward;
    user_id = auth_user_id d;
    full_name = p.full_name;
    term_start = pf.today;
    term_end = pf.today + 5 * 365;
  }

  abbrev pub new_invitation : Draw → Person → Invitation
  new_invitation d p = record {
    setup_token = d.setup_token;
    user_id = auth_user_id d;
    org_id = org;
    phone = p.phone;
    email = p.email;
    full_name = p.full_name;
  }

  -- The representative's entry; a ward or a user has at most one (`uq_elected_representative_ward`
  -- and `_user`).
  unfoldable pub add_representative : Draw → Person → Option ℕ → Batch → Outcome Batch
  add_representative d p none b = done b
  add_representative d p (some w) b =
      if any (λ r. r.ward_id == w || r.user_id == auth_user_id d) b.db.representatives
      then refused Refusal.integrity_error
      else done (record b {
        db = record b.db {
          representatives = b.db.representatives ++ new_representative d p w ∷ [];
        };
        corporator_wards = w ∷ b.corporator_wards;
      })

  -- The account, which the flush inserts, and its role.
  unfoldable pub add_account : Draw → Person → Batch → Outcome Batch
  add_account d p b =
      if any (λ a. a.id == auth_user_id d) b.db.accounts
      then refused Refusal.integrity_error
      else done (record b {
        db = record b.db {
          accounts = b.db.accounts ++ new_account d p ∷ [];
          assignments = b.db.assignments ++ new_assignment d p ∷ [];
        };
      })

  -- The invitation, and the count and result.
  unfoldable pub invite : ℕ → Draw → Cells → Person → Batch → Batch
  invite n d c p b = record b {
    db = record b.db { invitations = b.db.invitations ++ new_invitation d p ∷ [] };
    existing_phones = p.phone ∷ b.existing_phones;
    results = b.results ++ row_result n c p.phone RowStatus.created none true ∷ [];
    created_count = b.created_count + 1;
  }

  -- A row that passed every test, outside of a dry run.
  unfoldable pub create : ℕ → Cells → Person → Batch → Outcome Batch
  unfolding add_account add_representative represented invite
  create n c p b =
      let d = pf.draw n in
      and_then (add_account d p b) (λ b1.
        and_then (add_representative d p (represented p) b1) (λ b2. done (invite n d c p b2)))

  unfoldable pub enter : Bool → ℕ → Cells → Text → StaffRole → Scope → Batch → Outcome Batch
  unfolding create plan
  enter dry_run n c phone role scope b =
      if dry_run
      then done (plan n c phone b)
      else create n c
          (record {
            full_name = c.full_name;
            phone = phone;
            email = given c.email;
            role = role;
            scope = scope;
          })
          b

  -- The body of the loop for a row with this number.
  unfoldable pub process_row : Metadata → Bool → ℕ → Row → Batch → Outcome Batch
  unfolding identify settle skip enter
  process_row m dry_run n row b =
      let c = read_cells pf.unicode row in
      elim (identify pf.unicode b.existing_phones b.seen_phones c) [
        | halted phone reason ↦ done (skip n c phone reason b)
        | identified phone role ↦ and_then (settle pf.unicode m b.corporator_wards c role) (λ r.
            elim r [
              | out_of_scope reason ↦ done (skip n c phone reason (mark phone b))
              | scoped scope ↦ enter dry_run n c phone role scope (mark phone b)
            ])
      ]

  -- The loop, from the row with this number on.
  unfoldable pub process_rows : Metadata → Bool → ℕ → List Row → Batch → Outcome Batch
  unfolding process_row
  process_rows m dry_run n [] b = done b
  process_rows m dry_run n (row ∷ rows) b =
      and_then (process_row m dry_run n row b) (process_rows m dry_run (suc n) rows)
