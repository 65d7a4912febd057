-- ===== src/Intake/Progress.antt =====
-- civicbrain/api/v1/incidents.py: update_incident_status.
pub mod Effect
use civicbrain_v.Base.{ℕ, Option, some, none, find, modify, ◌==◌}
use civicbrain_v.Text.{Text}
use civicbrain_v.Intake.Models.{Incident, IncidentStatus}
use civicbrain_v.Intake.Recompute.{parent_report_ids, recompute_reports}
use civicbrain_v.Store.{Db, Error, Result, ok, err, find_incident, change_incident}

-- `IncidentStatusUpdate`
pub record StatusUpdate : Type 0 where
  pub status : IncidentStatus
  pub reason : Option Text
  pub resolution_notes : Option Text

-- The ladder of tests on `new_status`.
pub stamp : ℕ → StatusUpdate → IncidentStatus → Incident → Incident
stamp now u IncidentStatus.triaged i = record i { triaged_at = some now }
stamp now u IncidentStatus.verified i = record i { verified_at = some now }
stamp now u IncidentStatus.prioritized i = record i { prioritized_at = some now }
stamp now u IncidentStatus.assigned i = record i { assigned_at = some now }
stamp now u IncidentStatus.in_progress i = record i { in_progress_at = some now }
stamp now u IncidentStatus.resolved i = record i {
  resolved_at = some now;
  resolution_notes = u.resolution_notes;
}
stamp now u IncidentStatus.confirmed i = record i { confirmed_at = some now }
stamp now u IncidentStatus.rejected i = record i {
  rejected_at = some now;
  rejection_reason = u.reason;
}
stamp now u IncidentStatus.appealed i = record i {
  appealed_at = some now;
  appeal_reason = u.reason;
}
stamp now u IncidentStatus.reopened i = record i { reopened_at = some now }
stamp now u IncidentStatus.reported i = i

-- The stamp, then `inc.status = new_status`.
pub progress : ℕ → StatusUpdate → Incident → Incident
progress now u i = let j = stamp now u u.status i in record j { status = u.status }

pub update_incident_status : ℕ → ℕ → StatusUpdate → Db → Result (Incident × Db)
update_incident_status now id u db = elim (find_incident id db) [
  | none ↦ err Error.incident_not_found
  | some i ↦ ok (
    progress now u i,
    recompute_reports (parent_report_ids id db.observations)
        (change_incident id (progress now u) db),
  )
]
