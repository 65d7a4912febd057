-- ===== src/Directory/Import.antt =====
-- bulk_import_users of civicbrain/api/v1/hierarchy.py: the endpoint, from the tests of the
-- file to the log.
pub mod Run
pub mod Effect
pub mod Repeat
pub mod Completion
pub mod Preview
use civicbrain_v.Base.{
  ℕ, ◌*◌, List, [], ◌∷◌, ◌++◌, Bool, ◌&&◌, not, ltb, ◌==◌, if◌then◌else◌, any, all, select, map,
  length, Option, none, some,
}
use civicbrain_v.Text.{Text, codes, text_eq, is_empty}
use civicbrain_v.Text.Strip.{strip}
use civicbrain_v.Directory.Models.{
  UserAccount, ElectedRepresentative, StaffBulkImportLog, Directory, Refusal, Outcome, done,
  refused, and_then,
}
use civicbrain_v.Directory.Rows.{Row, metadata}
use civicbrain_v.Directory.Batch.{Platform, BulkImportRowResult, Batch, process_rows}

-- The arguments of the call: the claims of the admin, the query and the file.
pub record Request : Type 0 where
  pub org_id : Option ℕ
  pub user_id : ℕ
  pub dry_run : Bool
  pub filename : Text
  pub content : List ℕ

pub record BulkImportResponse : Type 0 where
  pub file_name : Text
  pub file_hash : Text
  pub dry_run : Bool
  pub total_rows : ℕ
  pub created_count : ℕ
  pub skipped_count : ℕ
  pub results : List BulkImportRowResult

abbrev pub max_import_file_bytes : ℕ
max_import_file_bytes = 2 * 1024 * 1024

abbrev pub max_import_rows : ℕ
max_import_rows = 500

abbrev required_headers : List Text
required_headers = codes "full_name" ∷ codes "phone" ∷ codes "role" ∷ []

-- `file.filename or "bulk_import.csv"`
abbrev file_name : Request → Text
file_name q = if is_empty q.filename then codes "bulk_import.csv" else q.filename

-- The tests before the loop, the loop and the log, in the organization of the claims.
module _ (pf : Platform) (org : ℕ) where
  -- The variables before the loop.
  abbrev pub loaded : Directory → Batch
  loaded db = record {
    db = db;
    existing_phones =
        select (λ p. not (is_empty p)) (map (λ (a : UserAccount). a.phone) db.accounts);
    corporator_wards =
        map (λ (r : ElectedRepresentative). r.ward_id)
          (select (λ (r : ElectedRepresentative). r.organization_id == org) db.representatives);
    seen_phones = [];
    results = [];
    created_count = 0;
    skipped_count = 0;
  }

  abbrev pub import_log : Request → ℕ → Batch → StaffBulkImportLog
  import_log q total b = record {
    id = pf.log_id;
    organization_id = org;
    admin_user_id = q.user_id;
    file_name = file_name q;
    file_hash = pf.sha256 q.content;
    total_rows = total;
    created_count = b.created_count;
    skipped_count = b.skipped_count;
    is_dry_run = q.dry_run;
    created_at = pf.now;
  }

  -- The log, the commit and the response.
  unfoldable pub finish : Request → ℕ → Batch → BulkImportResponse × Directory
  finish q total b = (
    record {
      file_name = file_name q;
      file_hash = pf.sha256 q.content;
      dry_run = q.dry_run;
      total_rows = total;
      created_count = b.created_count;
      skipped_count = b.skipped_count;
      results = b.results;
    },
    record b.db { import_logs = b.db.import_logs ++ import_log q total b ∷ [] },
  )

  -- Is it the log of a commit of this content for this organization?
  abbrev pub is_same_import : Text → StaffBulkImportLog → Bool
  is_same_import hash l = l.organization_id == org && text_eq l.file_hash hash && not l.is_dry_run

  -- The test that a file is committed once; `scalar_one_or_none` raises on two rows.
  unfoldable pub check_repeated : Request → Directory → Outcome Unit
  unfolding text_eq
  check_repeated q db =
      if q.dry_run
      then done tt
      else elim (select (is_same_import (pf.sha256 q.content)) db.import_logs) [
        | [] ↦ done tt
        | _ ∷ [] ↦ refused Refusal.already_processed
        | _ ∷ _ ∷ _ ↦ refused Refusal.multiple_results
      ]

  abbrev has_column : List Text → Text → Bool
  has_column names k = any (λ f. text_eq (strip f) k) names

  -- The tests of the header and of the number of rows, and the rows.
  unfoldable pub read_rows : Request → Outcome (List Row)
  unfolding text_eq strip
  read_rows q = elim (pf.fieldnames q.content) [
    | none ↦ refused Refusal.malformed_csv
    | some names ↦
        if all (has_column names) required_headers
        then elim (pf.rows q.content) [
          | none ↦ refused Refusal.malformed_csv
          | some [] ↦ refused Refusal.no_data_rows
          | some (row ∷ rows) ↦
              if ltb max_import_rows (length (row ∷ rows))
              then refused Refusal.too_many_rows
              else done (row ∷ rows)
        ]
        else refused Refusal.missing_columns
  ]

  unfoldable pub import_rows : Request → Directory → Outcome (BulkImportResponse × Directory)
  unfolding check_repeated read_rows process_rows finish
  import_rows q db =
      if ltb max_import_file_bytes (length q.content)
      then refused Refusal.file_too_large
      else and_then (check_repeated q db) (λ _. and_then (read_rows q) (λ rows.
        and_then (process_rows pf org (metadata pf.unicode org db) q.dry_run 2 rows (loaded db))
          (λ b. done (finish q (length rows) b))))

unfoldable pub bulk_import_users :
    Platform → Request → Directory → Outcome (BulkImportResponse × Directory)
unfolding import_rows
bulk_import_users pf q db = elim q.org_id [
  | none ↦ refused Refusal.no_organization
  | some org ↦ import_rows pf org q db
]
