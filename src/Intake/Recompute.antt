-- ===== src/Intake/Recompute.antt =====
-- civicbrain/domain/intake/services.py: recompute_intake_report_status, and the helpers of
-- civicbrain/domain/dispatch/services.py that go from incidents to reports and back.
pub mod Consistency
use civicbrain_v.Base.{
  ℕ, List, [], ◌∷◌, ◌++◌, map, Bool, ◌&&◌, if◌then◌else◌, ◌==◌, any, select, modify, distinct,
}
use civicbrain_v.Intake.Models.{IncidentStatus, IntakeStatus, IntakeReport, Incident, Observation}
use civicbrain_v.Intake.Status.{calculate_intake_status_from_children}
use civicbrain_v.Store.{Db, refers_to}

-- `select(Incident.status).join(Observation).where(Observation.intake_report_id == report_id)`:
-- a status for each observation of the report that has an incident.
unfoldable pub child_statuses : ℕ → List Incident → List Observation → List IncidentStatus
child_statuses report_id incidents [] = []
child_statuses report_id incidents (o ∷ os) =
    let rest = child_statuses report_id incidents os in
    if o.intake_report_id == report_id
    then map (λ i. i.status) (select (λ i. refers_to o.incident_id i.id) incidents) ++ rest
    else rest

-- Assigns the computed status to the report, if there is one.
unfoldable pub recompute_intake_report_status : ℕ → Db → Db
recompute_intake_report_status report_id db =
    let new_status =
      calculate_intake_status_from_children
        (child_statuses report_id db.incidents db.observations) in
    record db {
      reports = modify (λ r. r.id == report_id) (λ r. record r { status = new_status }) db.reports;
    }

-- The loop of `_recompute_reports_for_incident`.
unfoldable pub recompute_reports : List ℕ → Db → Db
recompute_reports [] db = db
recompute_reports (r ∷ rs) db = recompute_reports rs (recompute_intake_report_status r db)

-- The reports with an observation of the incident, each once.
unfoldable pub parent_report_ids : ℕ → List Observation → List ℕ
parent_report_ids incident_id observations =
    distinct (
      map (λ o. o.intake_report_id)
        (select (λ o. refers_to o.incident_id incident_id) observations))

-- `_recompute_reports_for_incident`
unfoldable pub recompute_reports_for_incident : ℕ → Db → Db
recompute_reports_for_incident incident_id db =
    recompute_reports (parent_report_ids incident_id db.observations) db

-- Has the report an observation of the incident?
abbrev pub is_child : List Observation → ℕ → Incident → Bool
is_child observations report_id i =
    any (λ o. o.intake_report_id == report_id && refers_to o.incident_id i.id) observations

-- `_get_incidents_for_report`: the incidents of the report, each once.
abbrev pub incidents_for_report : ℕ → Db → List Incident
incidents_for_report report_id db = select (is_child db.observations report_id) db.incidents
