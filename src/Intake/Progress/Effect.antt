-- ===== src/Intake/Progress/Effect.antt =====
-- About update_incident_status of civicbrain/api/v1/incidents.py.
use civicbrain_v.Base.{ℕ, ◌≡◌, refl, ◌∙◌, ap, arith, some, Option-cases, inl, inr, find-modify_self}
use civicbrain_v.Intake.Models.{Incident, IncidentStatus}
use civicbrain_v.Intake.Recompute.{parent_report_ids, recompute_reports}
use civicbrain_v.Intake.Recompute.Consistency.{
  IsConsistent, recompute_reports-refresh, recompute_reports-IsConsistent,
}
use civicbrain_v.Intake.Progress.{StatusUpdate, stamp, progress, update_incident_status}
use civicbrain_v.Store.{Db, ok, find_incident, change_incident}

-- Neither the id, nor the place, nor the proof of the incident changes.
pub progress_keeps :
    (now : ℕ) (u : StatusUpdate) (i : Incident)
    → ((progress now u i).id ≡ i.id)
      × ((progress now u i).geom ≡ i.geom)
      × ((progress now u i).resolution_proof_urls ≡ i.resolution_proof_urls)
      × ((progress now u i).auto_confirm_deadline ≡ i.auto_confirm_deadline)
unfolding progress stamp
progress_keeps now u i = ground arith

progress-status : (now : ℕ) (u : StatusUpdate) (i : Incident) → (progress now u i).status ≡ u.status
unfolding progress
progress-status now u i = refl

pub update_incident_status-eq-ok :
    (now id : ℕ) (u : StatusUpdate) (db : Db) {i' : Incident} {db' : Db}
    → update_incident_status now id u db ≡ ok (i', db')
    → (i : Incident) × (find_incident id db ≡ some i)
      × (i' ≡ progress now u i)
      × (db'
          ≡ recompute_reports
              (parent_report_ids id db.observations)
              (change_incident id (progress now u) db))
unfolding update_incident_status
update_incident_status-eq-ok now id u db h = elim (Option-cases (find_incident id db)) [
  | inl e ↦ ground arith
  | inr (i, e) ↦ (i, e, ground arith, ground arith)
]

-- Every report still agrees with its incidents.
pub update_incident_status-IsConsistent :
    (now id : ℕ) (u : StatusUpdate) (db : Db) {i' : Incident} {db' : Db}
    → IsConsistent db
    → update_incident_status now id u db ≡ ok (i', db')
    → IsConsistent db'
update_incident_status-IsConsistent now id u db h e =
    let (i, _, _, eq) = update_incident_status-eq-ok now id u db e in
    rw eq
      (recompute_reports-IsConsistent id (progress now u) (λ j. (progress_keeps now u j).0) db h)

-- The endpoint resolves any incident that exists: an update to RESOLVED is accepted from whatever
-- status, with or without notes, and leaves the photos and the deadline for the automatic
-- confirmation as they were, so that an incident without a photo is resolved without one.
pub update_incident_status_unproved :
    (now id : ℕ) (u : StatusUpdate) (db : Db) {i : Incident}
    → find_incident id db ≡ some i
    → u.status ≡ IncidentStatus.resolved
    → (i' : Incident) × (db' : Db) × (update_incident_status now id u db ≡ ok (i', db'))
      × (find_incident id db' ≡ some i')
      × (i'.status ≡ IncidentStatus.resolved)
      × (i'.resolution_proof_urls ≡ i.resolution_proof_urls)
      × (i'.auto_confirm_deadline ≡ i.auto_confirm_deadline)
unfolding update_incident_status
update_incident_status_unproved now id u db {i} found asked =
    let ids = parent_report_ids id db.observations in
    let changed = change_incident id (progress now u) db in
    (
      progress now u i,
      recompute_reports ids changed,
      rw (found, update_incident_status),
      ap (find_incident id) (recompute_reports-refresh ids changed)
          ∙ find-modify_self (λ j. j.id) (progress now u) (λ j. (progress_keeps now u j).0) id
              db.incidents
          ∙ rw found,
      progress-status now u i ∙ asked,
      (progress_keeps now u i).2,
      (progress_keeps now u i).3,
    )
