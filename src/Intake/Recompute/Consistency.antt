-- ===== src/Intake/Recompute/Consistency.antt =====
-- What it means that a report agrees with its incidents, for the recomputation in
-- civicbrain/domain/intake/services.py.
use civicbrain_v.Base.{
  ℕ, List, [], ◌∷◌, map, Bool, false, ◌&&◌, ◌==◌, any, select, modify, elem, All, ◌≡◌, refl, ap,
  arith, sym, ◌∙◌, Option, elem-distinct, Bool-cases, inl, inr,
}
use civicbrain_v.Intake.Models.{IntakeStatus, IntakeReport, Incident, Observation}
use civicbrain_v.Intake.Status.{calculate_intake_status_from_children}
use civicbrain_v.Store.{Db, refers_to, change_incident}
use civicbrain_v.Intake.Recompute.{
  child_statuses, recompute_intake_report_status, recompute_reports, parent_report_ids,
  recompute_reports_for_incident,
}

-- The status that the report should have.
abbrev pub due_status : Db → ℕ → IntakeStatus
due_status db report_id =
    calculate_intake_status_from_children (child_statuses report_id db.incidents db.observations)

-- Every report has the status that its incidents give.
abbrev pub IsConsistent : Db → Type 0
IsConsistent db = All (λ r. r.status ≡ due_status db r.id) db.reports

-- The reports after the recomputation of those listed.
abbrev pub refresh : Db → List ℕ → List IntakeReport → List IntakeReport
refresh db ids = modify (λ r. elem r.id ids) (λ r. record r { status = due_status db r.id })

refresh-modify :
    (db : Db) (k : ℕ) (ids : List ℕ) (rs : List IntakeReport)
    → refresh db ids (modify (λ r. r.id == k) (λ r. record r { status = due_status db k }) rs)
      ≡ refresh db (k ∷ ids) rs
refresh-modify db k ids [] = refl
refresh-modify db k ids (r ∷ rs) = ground (arith, refresh-modify db k ids rs)

refresh-nil : (db : Db) (rs : List IntakeReport) → refresh db [] rs ≡ rs
refresh-nil db [] = refl
refresh-nil db (r ∷ rs) = rw (refresh-nil db rs)

-- The loop changes the table of reports alone, and there sets the due status of each listed report.
pub recompute_reports-refresh :
    (ids : List ℕ) (db : Db)
    → recompute_reports ids db ≡ record db { reports = refresh db ids db.reports }
unfolding recompute_reports recompute_intake_report_status
recompute_reports-refresh [] db = rw (refresh-nil db db.reports)
recompute_reports-refresh (k ∷ ids) db =
    recompute_reports-refresh ids (recompute_intake_report_status k db)
    ∙ ap (λ rs. record db { reports = rs }) (refresh-modify db k ids db.reports)

abbrev links : ℕ → ℕ → List Observation → Bool
links report_id incident_id =
    any (λ o. o.intake_report_id == report_id && refers_to o.incident_id incident_id)

elem-map-select :
    (r k : ℕ) (os : List Observation)
    → elem r (map (λ o. o.intake_report_id) (select (λ o. refers_to o.incident_id k) os))
      ≡ links r k os
elem-map-select r k [] = refl
elem-map-select r k (o ∷ os) = ground (arith, elem-map-select r k os)

elem-parent_report_ids :
    (r k : ℕ) (os : List Observation) → elem r (parent_report_ids k os) ≡ links r k os
unfolding parent_report_ids
elem-parent_report_ids r k os = elem-distinct r _ ∙ elem-map-select r k os

module _ (k : ℕ) (f : Incident → Incident) (same_id : (i : Incident) → (f i).id ≡ i.id) where
  -- A change of incident `k` is not seen by an observation of another incident.
  select-modify :
      (o : Option ℕ) (is : List Incident)
      → refers_to o k ≡ false
      → map (λ i. i.status) (select (λ i. refers_to o i.id) (modify (λ i. i.id == k) f is))
        ≡ map (λ i. i.status) (select (λ i. refers_to o i.id) is)
  select-modify o [] h = refl
  select-modify o (i ∷ is) h = ground (arith, same_id i, select-modify o is h)

  child_statuses-change :
      (r : ℕ) (is : List Incident) (os : List Observation)
      → links r k os ≡ false
      → child_statuses r (modify (λ i. i.id == k) f is) os ≡ child_statuses r is os
  unfolding child_statuses
  child_statuses-change r is [] h = refl
  child_statuses-change r is (o ∷ os) h =
      ground (arith, child_statuses-change r is os, select-modify o.incident_id is)

  due_status-change :
      (db : Db) (r : ℕ)
      → elem r (parent_report_ids k db.observations) ≡ false
      → due_status (change_incident k f db) r ≡ due_status db r
  due_status-change db r h = ap calculate_intake_status_from_children (
      child_statuses-change r db.incidents db.observations
        (sym (elem-parent_report_ids r k db.observations) ∙ h))

  refresh-All :
      (db : Db) (rs : List IntakeReport)
      → All (λ r. r.status ≡ due_status db r.id) rs
      → All
          (λ r. r.status ≡ due_status (change_incident k f db) r.id)
          (refresh (change_incident k f db) (parent_report_ids k db.observations) rs)
  refresh-All db [] h = tt
  refresh-All db (r ∷ rs) (h, hs) =
      elim (Bool-cases (elem r.id (parent_report_ids k db.observations))) [
        | inl e ↦ rw e (refl, refresh-All db rs hs)
        | inr e ↦ rw e (h ∙ sym (due_status-change db r.id e), refresh-All db rs hs)
      ]

  pub recompute_reports-IsConsistent :
      (db : Db)
      → IsConsistent db
      → IsConsistent
          (recompute_reports (parent_report_ids k db.observations) (change_incident k f db))
  recompute_reports-IsConsistent db h =
      rw (recompute_reports-refresh (parent_report_ids k db.observations) (change_incident k f db))
        (refresh-All db db.reports h)

  -- Whatever the change of incident `k`, if it keeps the id, once its reports are recomputed all
  -- reports agree with their incidents, if they did before.
  pub recompute_reports_for_incident-IsConsistent :
      (db : Db)
      → IsConsistent db
      → IsConsistent (recompute_reports_for_incident k (change_incident k f db))
  unfolding recompute_reports_for_incident
  recompute_reports_for_incident-IsConsistent db h = recompute_reports-IsConsistent db h

-- The recomputation touches the table of reports alone.
pub recompute_frame :
    (k : ℕ) (db : Db)
    → recompute_reports_for_incident k db
      ≡ record db { reports = refresh db (parent_report_ids k db.observations) db.reports }
unfolding recompute_reports_for_incident
recompute_frame k db = recompute_reports-refresh (parent_report_ids k db.observations) db
