-- ===== src/Directory/Import/Preview.antt =====
-- About a dry run of bulk_import_users, civicbrain/api/v1/hierarchy.py, and the real import of the
-- same file.
use mathlib.Core.Option.{some-injective}
use civicbrain_v.Base.{
  ℕ, List, ◌≤◌, Bool, true, false, ◌≡◌, refl, sym, ◌∙◌, ap, subst, length, arith,
}
use civicbrain_v.Directory.Models.{done-injective, Directory, done}
use civicbrain_v.Directory.Rows.{Row, metadata}
use civicbrain_v.Directory.Batch.{Platform, process_rows}
use civicbrain_v.Directory.Batch.Forecast.{IsForecast, process_rows-IsAhead}
use civicbrain_v.Directory.Import.{
  Request, BulkImportResponse, loaded, finish, read_rows, bulk_import_users,
}
use civicbrain_v.Directory.Import.Run.{Run, bulk_import_users-Run}

abbrev pub as_dry : Bool → Request → Request
as_dry dry q = record q { dry_run = dry }

module _ (pf : Platform) (q : Request) (db : Directory) where
  -- The loop of a run, at an organization and rows that are known from elsewhere.
  looped_at :
      (dry : Bool) {r : BulkImportResponse} {db' : Directory} (run : Run pf (as_dry dry q) db r db')
      (org : ℕ) (rows : List Row)
      → run.org ≡ org
      → run.rows ≡ rows
      → process_rows pf org (metadata pf.unicode org db) dry 2 rows (loaded pf org db)
        ≡ done run.batch
  looped_at dry run org rows e k =
      subst
        (λ xs.
          process_rows pf org (metadata pf.unicode org db) dry 2 xs (loaded pf org db)
          ≡ done run.batch)
        k
        (subst
          (λ o.
            process_rows pf o (metadata pf.unicode o db) dry 2 run.rows (loaded pf o db)
            ≡ done run.batch)
          e run.looped)

module _ (pf : Platform) (q : Request) (db : Directory) {r1 r2 : BulkImportResponse}
    {db1 db2 : Directory} where
  -- If a dry run and the real import of the same file from the same state both give a response, the
  -- real import skips every row that the dry run skips, in the same order of rows, and creates at most
  -- as many accounts as the dry run announces.
  pub bulk_import_users-IsForecast :
      bulk_import_users pf (as_dry true q) db ≡ done (r1, db1)
      → bulk_import_users pf (as_dry false q) db ≡ done (r2, db2)
      → (r2.created_count ≤ r1.created_count) × IsForecast r1.results r2.results
  unfolding finish read_rows
  bulk_import_users-IsForecast h1 h2 =
      let run1 = bulk_import_users-Run pf (as_dry true q) db r1 db1 h1 in
      let run2 = bulk_import_users-Run pf (as_dry false q) db r2 db2 h2 in
      let org = some-injective run2.org run1.org (sym run2.claimed ∙ run1.claimed) in
      let rows : run2.rows ≡ run1.rows =
        done-injective (sym run2.read ∙ ap (λ o. read_rows pf o q) org ∙ run1.read) in
      let start = loaded pf run1.org db in
      let ahead =
        process_rows-IsAhead pf run1.org (metadata pf.unicode run1.org db) 2 run1.rows start start
          (record {
            seen = refl;
            registered = λ p. refl;
            represented = λ w h. h;
            created = omega arith;
            forecast = tt;
          })
          run1.looped (looped_at pf q db false run2 run1.org run1.rows org rows) in
      let answer1 : r1 ≡ (finish pf run1.org (as_dry true q) (length run1.rows) run1.batch).0 =
        ap (λ r. r.0) run1.result in
      let answer2 : r2 ≡ (finish pf run2.org (as_dry false q) (length run2.rows) run2.batch).0 =
        ap (λ r. r.0) run2.result in
      rw (answer1, answer2) (ahead.created, ahead.forecast)
