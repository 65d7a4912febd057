-- ===== src/Directory/Import/Repeat.antt =====
-- About the idempotence test of bulk_import_users, civicbrain/api/v1/hierarchy.py.
use civicbrain_v.Base.{
  ℕ, List, [], ◌∷◌, ◌++◌, Bool, true, false, ◌≡◌, refl, ◌∙◌, ap, length, select, select-append, ltb,
  ==_refl, some,
}
use civicbrain_v.Text.{text_eq_refl}
use civicbrain_v.Directory.Models.{Directory, StaffBulkImportLog, Refusal, done, refused}
use civicbrain_v.Directory.Rows.{Cells, Metadata, metadata}
use civicbrain_v.Directory.Batch.{Platform, Batch, skip, plan, invite}
use civicbrain_v.Directory.Batch.Step.{Step, process_rows-invariant}
use civicbrain_v.Directory.Import.{
  Request, BulkImportResponse, loaded, finish, check_repeated, import_rows, bulk_import_users,
  is_same_import, import_log, max_import_file_bytes,
}
use civicbrain_v.Directory.Import.Run.{Run, bulk_import_users-Run}

Step-import_logs :
    (pf : Platform) (org : ℕ) (m : Metadata) (dry_run : Bool) (n : ℕ) (c : Cells) (b b' : Batch)
    → Step pf org m dry_run n c b b'
    → b'.db.import_logs ≡ b.db.import_logs
unfolding skip plan invite
Step-import_logs pf org m dry n c b b' (Step.halts e) = refl
Step-import_logs pf org m dry n c b b' (Step.refuses e q) = refl
Step-import_logs pf org m dry n c b b' (Step.plans e q d) = refl
Step-import_logs pf org m dry n c b b' (Step.creates e q d k) = refl

check_repeated-fresh :
    (pf : Platform) (org : ℕ) (q : Request) (db : Directory)
    → q.dry_run ≡ false
    → check_repeated pf org q db ≡ done tt
    → select (is_same_import pf org (pf.sha256 q.content)) db.import_logs ≡ []
unfolding check_repeated
check_repeated-fresh pf org q db real h =
    among (select (is_same_import pf org (pf.sha256 q.content)) db.import_logs)
      (rw (check_repeated, real) at h)
  where
    among :
        (ls : List StaffBulkImportLog)
        → elim ls [
          | [] ↦ done tt
          | _ ∷ [] ↦ refused Refusal.already_processed
          | _ ∷ _ ∷ _ ↦ refused Refusal.multiple_results
        ]
          ≡ done tt
        → ls ≡ []
    among [] k = refl
    among (_ ∷ []) k = cc
    among (_ ∷ _ ∷ _) k = cc

check_repeated-again :
    (pf : Platform) (org : ℕ) (q : Request) (db : Directory) {l : StaffBulkImportLog}
    → q.dry_run ≡ false
    → select (is_same_import pf org (pf.sha256 q.content)) db.import_logs ≡ l ∷ []
    → check_repeated pf org q db ≡ refused Refusal.already_processed
unfolding check_repeated
check_repeated-again pf org q db real e = rw (check_repeated, real, e) refl

import_rows-again :
    (pf : Platform) (org : ℕ) (q : Request) (db : Directory)
    → ltb max_import_file_bytes (length q.content) ≡ false
    → check_repeated pf org q db ≡ refused Refusal.already_processed
    → import_rows pf org q db ≡ refused Refusal.already_processed
unfolding import_rows
import_rows-again pf org q db small e = rw (import_rows, small, e) refl

module _ (pf : Platform) (q : Request) (db : Directory) {response : BulkImportResponse}
    {db' : Directory} where
  logged :
      (run : Run pf q db response db')
      → q.dry_run ≡ false
      → (l : StaffBulkImportLog) × (select
            (is_same_import pf run.org (pf.sha256 q.content))
            db'.import_logs
          ≡ l ∷ [])
  unfolding finish
  logged run real =
      let org = run.org in
      let m = metadata pf.unicode org db in
      let same = is_same_import pf org (pf.sha256 q.content) in
      let kept =
        process_rows-invariant pf org m q.dry_run (λ n b. b.db.import_logs ≡ db.import_logs)
          (λ n c b b' s k. Step-import_logs pf org m q.dry_run n c b b' s ∙ k) 2 run.rows
          (loaded pf org db) run.looped refl in
      let fresh = check_repeated-fresh pf org q db real run.first in
      let log = import_log pf org q (length run.rows) run.batch in
      let logs : db'.import_logs ≡ db.import_logs ++ log ∷ [] =
        ap (λ r. r.1.import_logs) run.result ∙ ap (λ ls. ls ++ log ∷ []) kept in
      let found : same log ≡ true =
        rw (==_refl org, text_eq_refl (pf.sha256 q.content), real) refl in
      (log, rw (logs, select-append same db.import_logs (log ∷ []), fresh, found) refl)

  -- After a real import, a second real import of the same content for the same organization is
  -- refused as already processed (409), whatever its file is called, whoever calls, and whatever is
  -- drawn, if the digest of the content is the same.
  pub bulk_import_users_repeated :
      (pf2 : Platform) (q2 : Request)
      → q.dry_run ≡ false
      → bulk_import_users pf q db ≡ done (response, db')
      → q2.org_id ≡ q.org_id
      → q2.content ≡ q.content
      → q2.dry_run ≡ false
      → pf2.sha256 q.content ≡ pf.sha256 q.content
      → bulk_import_users pf2 q2 db' ≡ refused Refusal.already_processed
  unfolding bulk_import_users
  bulk_import_users_repeated pf2 q2 real h same_org same_content real2 same_hash =
      let run = bulk_import_users-Run pf q db response db' h in
      let org = run.org in
      let (l, e) = logged run real in
      let hash : pf2.sha256 q2.content ≡ pf.sha256 q.content =
        ap pf2.sha256 same_content ∙ same_hash in
      let again =
        check_repeated-again pf2 org q2 db' real2
          (ap (λ t. select (is_same_import pf org t) db'.import_logs) hash ∙ e) in
      let small =
        ap (λ (s : List ℕ). ltb max_import_file_bytes (length s)) same_content ∙ run.small in
      let claimed : q2.org_id ≡ some org = same_org ∙ run.claimed in
      rw (bulk_import_users, claimed) (import_rows-again pf2 org q2 db' small again)
