-- ===== src/Directory/Import/Run.antt =====
-- The calls that a response of bulk_import_users, civicbrain/api/v1/hierarchy.py, comes from.
use civicbrain_v.Base.{
  ℕ, List, Bool, ◌≡◌, sym, ltb, length, some, Option-cases, Bool-cases, inl, inr,
}
use civicbrain_v.Directory.Models.{done-injective, Directory, Refusal, done, refused}
use civicbrain_v.Directory.Rows.{Row, metadata}
use civicbrain_v.Directory.Batch.{Platform, Batch, process_rows}
use civicbrain_v.Directory.Batch.Step.{and_then-done}
use civicbrain_v.Directory.Import.{
  Request, BulkImportResponse, loaded, finish, check_repeated, read_rows, import_rows,
  bulk_import_users, max_import_file_bytes,
}

-- How a response came about: the organization of the claims, the rows of the file, and the
-- variables after the loop.
pub record Run (pf : Platform) (q : Request) (db : Directory) (response : BulkImportResponse)
    (db' : Directory) : Type 0 where
  pub org : ℕ
  pub rows : List Row
  pub batch : Batch
  pub claimed : q.org_id ≡ some org
  pub small : ltb max_import_file_bytes (length q.content) ≡ Bool.false
  pub first : check_repeated pf org q db ≡ done tt
  pub read : read_rows pf org q ≡ done rows
  pub looped :
      process_rows pf org (metadata pf.unicode org db) q.dry_run 2 rows (loaded pf org db)
      ≡ done batch
  pub result : (response, db') ≡ finish pf org q (length rows) batch

module _ (pf : Platform) (q : Request) (db : Directory) (response : BulkImportResponse)
    (db' : Directory) where
  import_rows-Run :
      (org : ℕ)
      → q.org_id ≡ some org
      → import_rows pf org q db ≡ done (response, db')
      → Run pf q db response db'
  unfolding import_rows
  import_rows-Run org claimed h = elim (Bool-cases (ltb max_import_file_bytes (length q.content))) [
    | inl e ↦
        let k : refused Refusal.file_too_large ≡ done (response, db') = rw (import_rows, e) at h in
        cc
    | inr e ↦
        let (t, first, h1) =
          and_then-done (check_repeated pf org q db) _ (rw (import_rows, e) at h) in
        let (rows, read, h2) = and_then-done (read_rows pf org q) _ h1 in
        let (batch, looped, h3) =
          and_then-done
            (process_rows pf org (metadata pf.unicode org db) q.dry_run 2 rows (loaded pf org db)) _
            h2 in
        record {
          org = org;
          rows = rows;
          batch = batch;
          claimed = claimed;
          small = e;
          first = first;
          read = read;
          looped = looped;
          result = sym (done-injective h3);
        }
  ]

  pub bulk_import_users-Run :
      bulk_import_users pf q db ≡ done (response, db') → Run pf q db response db'
  unfolding bulk_import_users
  bulk_import_users-Run h = elim (Option-cases q.org_id) [
    | inl e ↦
        let k : refused Refusal.no_organization ≡ done (response, db') =
          rw (bulk_import_users, e) at h in
        cc
    | inr (org, e) ↦ import_rows-Run org e (rw (bulk_import_users, e) at h)
  ]
