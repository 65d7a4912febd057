-- ===== src/Directory/Import/Effect.antt =====
-- About what bulk_import_users of civicbrain/api/v1/hierarchy.py answers and changes.
use civicbrain_v.Base.{
  ℕ, List, [], ◌∷◌, ◌++◌, ◌+◌, ◌≤◌, Bool, true, false, not, ◌≡◌, refl, ◌∙◌, ap, subst, length,
  select, all, ltb, some, Option-cases, Bool-cases, inl, inr, arith, if◌then◌else◌,
}
use civicbrain_v.Text.{Text, is_empty, text_eq}
use civicbrain_v.Directory.Models.{
  done-injective, Directory, StaffBulkImportLog, Refusal, done, refused,
}
use civicbrain_v.Text.Members.{member}
use civicbrain_v.Directory.Rows.{Row, Cells, Metadata, metadata}
use civicbrain_v.Directory.Batch.{Platform, Batch, skip, plan}
use civicbrain_v.Directory.Batch.Step.{Step, process_rows-invariant}
use civicbrain_v.Directory.Batch.Audit.{is_skipped, IsNumbered, IsAudited, Step-IsAudited}
use civicbrain_v.Directory.Batch.Roles.{IsEnrolled, IsEnrolled-refl, Step-IsEnrolled}
use civicbrain_v.Text.Members.{all_distinct}
use civicbrain_v.Directory.Batch.Phones.{phones, IsDistinct, Step-IsDistinct}
use civicbrain_v.Directory.Import.{
  Request, BulkImportResponse, loaded, finish, read_rows, bulk_import_users, max_import_rows,
  required_headers, has_column,
}
use civicbrain_v.Directory.Import.Run.{bulk_import_users-Run}

read_rows-length :
    (pf : Platform) (org : ℕ) (q : Request) {rows : List Row}
    → read_rows pf org q ≡ done rows
    → (1 ≤ length rows) × (length rows ≤ 500)
unfolding read_rows
read_rows-length pf org q {rows} h = elim (Option-cases (pf.fieldnames q.content)) [
  | inl e ↦ let k : refused Refusal.malformed_csv ≡ done rows = rw (read_rows, e) at h in cc
  | inr (names, e) ↦ elim (Bool-cases (all (has_column pf org names) required_headers)) [
    | inr e2 ↦
        let k : refused Refusal.missing_columns ≡ done rows = rw (read_rows, e, e2) at h in cc
    | inl e2 ↦ elim (Option-cases (pf.rows q.content)) [
      | inl e3 ↦
          let k : refused Refusal.malformed_csv ≡ done rows = rw (read_rows, e, e2, e3) at h in cc
      | inr (rs, e3) ↦ sized rs (rw (read_rows, e, e2, e3) at h)
    ]
  ]
]
  where
    sized :
        (rs : List Row)
        → elim rs [
          | [] ↦ refused Refusal.no_data_rows
          | row ∷ rest ↦
              if ltb max_import_rows (length (row ∷ rest))
              then refused Refusal.too_many_rows
              else done (row ∷ rest)
        ]
          ≡ done rows
        → (1 ≤ length rows) × (length rows ≤ 500)
    sized [] k = cc
    sized (row ∷ rest) k = elim (Bool-cases (ltb max_import_rows (length (row ∷ rest)))) [
      | inl e ↦ let bad : refused Refusal.too_many_rows ≡ done rows = rw e at k in cc
      | inr e ↦
          subst (λ (rs : List Row). (1 ≤ length rs) × (length rs ≤ 500))
            (done-injective (rw e at k)) (ground arith)
    ]

Step-dry :
    (pf : Platform) (org : ℕ) (m : Metadata) (dry_run : Bool) (n : ℕ) (c : Cells) (b b' : Batch)
    → dry_run ≡ true
    → Step pf org m dry_run n c b b'
    → b'.db ≡ b.db
unfolding skip plan
Step-dry pf org m dry n c b b' h (Step.halts e) = refl
Step-dry pf org m dry n c b b' h (Step.refuses e q) = refl
Step-dry pf org m dry n c b b' h (Step.plans e q d) = refl
Step-dry pf org m dry n c b b' h (Step.creates e q d k) = cc

-- The empty phones, which are left out, are no others' either.
known_loaded :
    (ps : List Text) (p : Text)
    → is_empty p ≡ false
    → member p ps ≡ true
    → member p (select (λ t. not (is_empty t)) ps) ≡ true
unfolding member text_eq
known_loaded [] p e h = h
known_loaded ([] ∷ ps) [] e h = cc
known_loaded ([] ∷ ps) (c ∷ p) e h = known_loaded ps (c ∷ p) e h
known_loaded ((d ∷ q) ∷ ps) p e h = ground (arith, known_loaded ps p e)

module _ (pf : Platform) (q : Request) (db : Directory) {response : BulkImportResponse}
    {db' : Directory} where
  -- The response of an import gives 1 to 500 results, one for each row and with the numbers 2, 3 and
  -- so on in this order; the created and the skipped rows add up to the total, which is the number of
  -- results, and the skipped ones are as many as the results say.
  pub bulk_import_users_counts :
      bulk_import_users pf q db ≡ done (response, db')
      → (1 ≤ response.total_rows)
        × (response.total_rows ≤ 500)
        × (length response.results ≡ response.total_rows)
        × (response.created_count + response.skipped_count ≡ response.total_rows)
        × (length (select is_skipped response.results) ≡ response.skipped_count)
        × IsNumbered 2 response.results
  unfolding finish
  bulk_import_users_counts h =
      let run = bulk_import_users-Run pf q db response db' h in
      let m = metadata pf.unicode run.org db in
      let audited =
        process_rows-invariant pf run.org m q.dry_run IsAudited
          (Step-IsAudited pf run.org m q.dry_run) 2 run.rows (loaded pf run.org db) run.looped
          (record { numbers = tt; next = refl; total = refl; skipped = refl }) in
      let (least, most) = read_rows-length pf run.org q run.read in
      let answer : response ≡ (finish pf run.org q (length run.rows) run.batch).0 =
        ap (λ r. r.0) run.result in
      let every : length run.batch.results ≡ length run.rows = omega (arith, audited.next) in
      rw answer
        (least, most, every, omega (arith, audited.total, every), audited.skipped, audited.numbers)

  -- A dry run changes nothing but the log, to which it adds one entry that is marked as a dry run.
  pub bulk_import_users_dry :
      q.dry_run ≡ true
      → bulk_import_users pf q db ≡ done (response, db')
      → (l : StaffBulkImportLog) × (l.is_dry_run ≡ true)
        × (db' ≡ record db { import_logs = db.import_logs ++ l ∷ [] })
  unfolding finish
  bulk_import_users_dry dry h =
      let run = bulk_import_users-Run pf q db response db' h in
      let m = metadata pf.unicode run.org db in
      let same =
        process_rows-invariant pf run.org m q.dry_run (λ n b. b.db ≡ db)
          (λ n c b b' s k. Step-dry pf run.org m q.dry_run n c b b' dry s ∙ k) 2 run.rows
          (loaded pf run.org db) run.looped refl in
      let state : db' ≡ (finish pf run.org q (length run.rows) run.batch).1 =
        ap (λ r. r.1) run.result in
      (_, dry, rw same at state)

  -- An import, dry or real, keeps the accounts and role assignments there are and adds active
  -- accounts of the claims' organization with one assignment each; no new assignment is an
  -- administrator's, and each has the keys of its role's scope and no others: an active department, a
  -- zone or a ward of that organization.
  pub bulk_import_users-IsEnrolled :
      bulk_import_users pf q db ≡ done (response, db')
      → (org : ℕ) × (q.org_id ≡ some org) × IsEnrolled org db db'
  unfolding finish
  bulk_import_users-IsEnrolled h =
      let run = bulk_import_users-Run pf q db response db' h in
      let org = run.org in
      let enrolled =
        process_rows-invariant pf org (metadata pf.unicode org db) q.dry_run
          (λ n b. IsEnrolled org db b.db)
          (λ n c b b' s k. Step-IsEnrolled org db pf q.dry_run n c b b' s k) 2 run.rows
          (loaded pf org db) run.looped (IsEnrolled-refl org db) in
      let state : db' ≡ (finish pf org q (length run.rows) run.batch).1 =
        ap (λ r. r.1) run.result in
      (
        org,
        run.claimed,
        rw state (record {
          accounts = enrolled.accounts;
          assignments = enrolled.assignments;
          more_accounts = enrolled.more_accounts;
          more_assignments = enrolled.more_assignments;
          owners = enrolled.owners;
          staff = enrolled.staff;
          permitted = enrolled.permitted;
        }),
      )

  -- Where no two accounts have the same phone, no two have it after an import.
  pub bulk_import_users-all_distinct :
      all_distinct (phones db) ≡ true
      → bulk_import_users pf q db ≡ done (response, db')
      → all_distinct (phones db') ≡ true
  unfolding finish
  bulk_import_users-all_distinct d h =
      let run = bulk_import_users-Run pf q db response db' h in
      let org = run.org in
      let m = metadata pf.unicode org db in
      let after =
        process_rows-invariant pf org m q.dry_run (λ n b. IsDistinct b)
          (λ n c b b' s k. Step-IsDistinct pf org m q.dry_run n c b b' s k) 2 run.rows
          (loaded pf org db) run.looped
          (record { distinct = d; known = known_loaded (phones db) }) in
      let state : db' ≡ (finish pf org q (length run.rows) run.batch).1 =
        ap (λ r. r.1) run.result in
      rw state after.distinct
