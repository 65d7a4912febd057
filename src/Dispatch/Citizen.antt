-- ===== src/Dispatch/Citizen.antt =====
-- civicbrain/domain/dispatch/services.py: citizen_confirm_report, citizen_dispute_report and
-- evaluate_auto_confirm_cron.
pub mod Gate
pub mod Children
pub mod Decision
use civicbrain_v.Base.{
  ℕ, List, [], ◌∷◌, map, Bool, true, false, ◌&&◌, Option, some, none, if◌then◌else◌, ◌==◌, leb,
  find, select, modify, all,
}
use civicbrain_v.Text.{Text, text_eq}
use civicbrain_v.Intake.Models.{
  Incident, IncidentStatus, IntakeReport, IntakeStatus, Observation, is_resolved,
}
use civicbrain_v.Intake.Recompute.{is_child, incidents_for_report, recompute_reports_for_incident}
use civicbrain_v.Store.{Db, Error, Result, ok, err, change_incident}

abbrev pub has_token : Text → IntakeReport → Bool
has_token token r = elim r.tracking_token [ none ↦ false | some t ↦ text_eq t token ]

abbrev pub confirm : ℕ → Incident → Incident
confirm now i = record i { status = IncidentStatus.confirmed; confirmed_at = some now }

abbrev pub appeal : ℕ → Text → Incident → Incident
appeal now reason i = record i {
  status = IncidentStatus.appealed;
  appealed_at = some now;
  appeal_reason = some reason;
}

-- `resolved_incidents` of the report.
abbrev pub resolved_incidents : ℕ → Db → List Incident
resolved_incidents report_id db =
    select (λ i. is_resolved i.status) (incidents_for_report report_id db)

-- The loop over `resolved_incidents`, which assigns to each of these rows, and the assignment to
-- the report.
unfoldable pub decide : ℕ → IntakeStatus → (Incident → Incident) → Db → Db
decide report_id status f db = record db {
  incidents =
      modify (λ i. is_child db.observations report_id i && is_resolved i.status) f db.incidents;
  reports = modify (λ r. r.id == report_id) (λ r. record r { status = status }) db.reports;
}

-- The ids that are answered, with the new database.
abbrev pub decide_report : Text → IntakeStatus → (Incident → Incident) → Db → Result (List ℕ × Db)
decide_report token status f db = elim (find (has_token token) db.reports) [
  | none ↦ err Error.report_not_found
  | some r ↦ elim (resolved_incidents r.id db) [
    | [] ↦ err Error.nothing_resolved
    | i ∷ is ↦ ok (map (λ j. j.id) (i ∷ is), decide r.id status f db)
  ]
]

unfoldable pub citizen_confirm_report : ℕ → Text → Db → Result (List ℕ × Db)
citizen_confirm_report now token db = decide_report token IntakeStatus.closed (confirm now) db

unfoldable pub citizen_dispute_report : ℕ → Text → Text → Db → Result (List ℕ × Db)
citizen_dispute_report now token reason db =
    decide_report token IntakeStatus.in_progress (appeal now reason) db

-- `Incident.status == RESOLVED, Incident.auto_confirm_deadline <= now`; NULL is at most nothing.
abbrev pub is_expired : ℕ → Incident → Bool
is_expired now i =
    is_resolved i.status && elim i.auto_confirm_deadline [ none ↦ false | some d ↦ leb d now ]

-- The loop over the expired incidents.
unfoldable pub confirm_each : ℕ → List ℕ → Db → Db
confirm_each now [] db = db
confirm_each now (k ∷ ks) db =
    confirm_each now ks (recompute_reports_for_incident k (change_incident k (confirm now) db))

abbrev pub expired_ids : ℕ → Db → List ℕ
expired_ids now db = map (λ i. i.id) (select (is_expired now) db.incidents)

unfoldable pub evaluate_auto_confirm_cron : ℕ → Db → List ℕ × Db
evaluate_auto_confirm_cron now db = let ids = expired_ids now db in (ids, confirm_each now ids db)
