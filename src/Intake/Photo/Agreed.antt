-- ===== src/Intake/Photo/Agreed.antt =====
-- About the reports after process_photo_intake, civicbrain/domain/intake/services.py.
use mathlib.Core.List.{append-nil}
use civicbrain_v.Base.{
  ℕ, List, [], ◌∷◌, ◌++◌, Bool, false, ◌==◌, ==_refl, any, all, All, All-append, modify, some, ◌≡◌,
  refl, sym, subst, ◌∙◌, ap, arith, Bool-cases, inl, inr, elem,
}
use civicbrain_v.Intake.Models.{Incident, IncidentStatus, IntakeReport, IntakeStatus, Observation}
use civicbrain_v.Intake.Status.{calculate_intake_status_from_children}
use civicbrain_v.Intake.Recompute.{child_statuses}
use civicbrain_v.Intake.Recompute.Consistency.{IsConsistent, due_status}
use civicbrain_v.Store.{Db}
use civicbrain_v.Intake.Routing.{IntakeDb}
use civicbrain_v.Intake.Photo.{
  PhotoCall, Reference, Drawn, PhotoOutcome, PhotoError, processed, failed, ◌>>=◌, process_defects,
  process_photo_intake, add_report, finish_report,
}
use civicbrain_v.Intake.Photo.Keys.{IsReady}
use civicbrain_v.Intake.Photo.Collected.{Collected, process_defects-Collected}

-- The report that is added, with its status at the end.
abbrev pub new_report : PhotoCall → IntakeStatus → IntakeReport
new_report call status = record {
  id = call.report_id;
  organization_id = call.organization_id;
  status = status;
  tracking_token = some call.tracking_token;
}

abbrev pub has_report : ℕ → List IntakeReport → Bool
has_report k = any (λ (r : IntakeReport). r.id == k)

modify-last_report :
    (call : PhotoCall) (status : IntakeStatus) (rs : List IntakeReport)
    → has_report call.report_id rs ≡ false
    → modify
        (λ (r : IntakeReport). r.id == call.report_id)
        (λ (r : IntakeReport). record r { status = status })
        (rs ++ new_report call IntakeStatus.submitted ∷ [])
      ≡ rs ++ new_report call status ∷ []
modify-last_report call status [] h = rw (==_refl call.report_id) refl
modify-last_report call status (r ∷ rs) h = ground (arith, modify-last_report call status rs)

finish_report-reports :
    (call : PhotoCall) (ds : List Drawn) (statuses : List IncidentStatus) (s : IntakeDb)
    (rs : List IntakeReport)
    → has_report call.report_id rs ≡ false
    → s.db.reports ≡ rs ++ new_report call IntakeStatus.submitted ∷ []
    → (finish_report call.report_id ds statuses s).db ≡ record s.db {
      reports = rs ++ new_report call (calculate_intake_status_from_children statuses) ∷ [];
    }
unfolding calculate_intake_status_from_children
finish_report-reports call ds [] s rs h e =
    elim (Bool-cases (all (λ (d : Drawn). d.defect.needs_manual_triage) ds)) [
      | inl q ↦ rw (q, e, modify-last_report call IntakeStatus.submitted rs h) refl
      | inr q ↦ rw (q, ← e) refl
    ]
finish_report-reports call ds (x ∷ xs) s rs h e =
    rw (e, modify-last_report call (calculate_intake_status_from_children (x ∷ xs)) rs h) refl

-- No observation belongs to the report.
child_statuses-nil :
    (r : ℕ) (is : List Incident) (os : List Observation)
    → any (λ (o : Observation). o.intake_report_id == r) os ≡ false
    → child_statuses r is os ≡ []
unfolding child_statuses
child_statuses-nil r is [] h = refl
child_statuses-nil r is (o ∷ os) h = ground (arith, child_statuses-nil r is os)

All-due :
    (k : ℕ) (db db' : Db)
    → ((r : ℕ) → (k == r) ≡ false → due_status db' r ≡ due_status db r)
    → (rs : List IntakeReport) → has_report k rs ≡ false
    → All (λ (r : IntakeReport). r.status ≡ due_status db r.id) rs
    → All (λ (r : IntakeReport). r.status ≡ due_status db' r.id) rs
All-due k db db' same [] h a = tt
All-due k db db' same (r ∷ rs) h (e, a) =
    (e ∙ sym (same r.id (ground arith)), All-due k db db' same rs (ground arith) a)

-- The key of the report is new too.
pub record IsNew (call : PhotoCall) (db : Db) : Type 0 where
  pub unreported : has_report call.report_id db.reports ≡ false
  pub unobserved :
      any (λ (o : Observation). o.intake_report_id == call.report_id) db.observations ≡ false

module _ (call : PhotoCall) (tables : Reference) (ds : List Drawn) (s : IntakeDb)
    (new : IsNew call s.db) (ready : IsReady s.db ds) where
  others :
      {statuses : List IncidentStatus} (t : IntakeDb)
      → Collected call (add_report call s).db [] statuses t.db
      → (k : ℕ) → (call.report_id == k) ≡ false
      → due_status t.db k ≡ due_status s.db k
  others t got k q =
      ap calculate_intake_status_from_children (
        got.children k
        ∙ rw (q, append-nil (child_statuses k s.db.incidents s.db.observations)) refl)

  own :
      {statuses : List IncidentStatus} (t : IntakeDb)
      → Collected call (add_report call s).db [] statuses t.db
      → statuses ≡ child_statuses call.report_id t.db.incidents t.db.observations
  own t got =
      got.collected
      ∙ sym (
          got.children call.report_id
          ∙ rw
              (
                ==_refl call.report_id,
                child_statuses-nil call.report_id s.db.incidents s.db.observations new.unobserved,
              )
              refl)

  finish_report-IsConsistent :
      {statuses : List IncidentStatus} (t : IntakeDb)
      → IsConsistent s.db
      → Collected call (add_report call s).db [] statuses t.db
      → IsConsistent (finish_report call.report_id ds statuses t).db
  finish_report-IsConsistent {statuses} t agree got =
      let reports = finish_report-reports call ds statuses t s.db.reports new.unreported got.kept in
      rw reports (
        All-append _ s.db.reports
          (new_report call (calculate_intake_status_from_children statuses) ∷ [])
          (All-due call.report_id s.db t.db (others t got) s.db.reports new.unreported agree)
          (ap calculate_intake_status_from_children (own t got), tt))

  -- A photo intake that is processed leaves all reports in agreement with their incidents, the new
  -- one included, if they were before and the keys that are drawn are new.
  pub process_photo_intake-IsConsistent :
      {s' : IntakeDb}
      → IsConsistent s.db
      → process_photo_intake call tables ds s ≡ processed s'
      → IsConsistent s'.db
  unfolding process_photo_intake
  process_photo_intake-IsConsistent agree h =
      elim (Bool-cases (elem call.organization_id tables.organizations)) [
        | inl e ↦ given (process_defects call tables ds [] (add_report call s)) refl (rw e at h)
        | inr e ↦ let never : failed PhotoError.unknown_organization ≡ processed _ = rw e at h in cc
      ]
    where
      given :
          (o : PhotoOutcome (List IncidentStatus × IntakeDb))
          → process_defects call tables ds [] (add_report call s) ≡ o
          → {s' : IntakeDb}
          → (o >>= λ r. processed (finish_report call.report_id ds r.0 r.1)) ≡ processed s'
          → IsConsistent s'.db
      given (failed e) run h = cc
      given (processed (statuses, t)) run {s'} h =
          let same : finish_report call.report_id ds statuses t ≡ s' = cc in
          let got =
            process_defects-Collected call tables ds [] (add_report call s)
              (record { unique = ready.unique; fresh = ready.fresh; apart = ready.apart }) run in
          subst (λ (x : IntakeDb). IsConsistent x.db) same (finish_report-IsConsistent t agree got)
