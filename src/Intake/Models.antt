-- ===== src/Intake/Models.antt =====
-- civicbrain/domain/intake/models.py: the statuses and the rows that the services read and write.
-- Ids are UUIDs that the program only compares, so they are numbers; a `datetime` is its number of
-- microseconds. Columns that are written at most when a row is created, and read by no modelled
-- operation, are left out.
use civicbrain_v.Base.{ℕ, Bool, true, false, Option, List}
use civicbrain_v.Text.{Text}
use civicbrain_v.Geo.{Point}

-- `IntakeStatus`
pub data IntakeStatus : Type 0 where
  submitted processing triaged in_progress partially_resolved resolved closed rejected :
      IntakeStatus

-- `IncidentStatus`
pub data IncidentStatus : Type 0 where
  reported triaged verified prioritized assigned in_progress resolved confirmed rejected appealed
        reopened :
      IncidentStatus

-- `ObservationStatus`
pub data ObservationStatus : Type 0 where
  detected verified linked_to_incident rejected resolved : ObservationStatus

-- `DedupDecision`
pub data DedupDecision : Type 0 where
  exact_match probable_match distinct manual_review : DedupDecision

-- The row of `intake_report`.
pub record IntakeReport : Type 0 where
  pub id : ℕ
  pub organization_id : ℕ
  pub status : IntakeStatus
  pub tracking_token : Option Text

-- The row of `incident`.
pub record Incident : Type 0 where
  pub id : ℕ
  pub organization_id : ℕ
  pub department_id : ℕ
  pub ward_id : ℕ
  pub category_code : Text
  pub geom : Point
  pub status : IncidentStatus
  pub severity : ℕ
  pub assigned_worker_id : Option ℕ
  pub triaged_at : Option ℕ
  pub verified_at : Option ℕ
  pub prioritized_at : Option ℕ
  pub assigned_at : Option ℕ
  pub in_progress_at : Option ℕ
  pub resolved_at : Option ℕ
  pub confirmed_at : Option ℕ
  pub rejected_at : Option ℕ
  pub appealed_at : Option ℕ
  pub reopened_at : Option ℕ
  pub rejection_reason : Option Text
  pub appeal_reason : Option Text
  pub resolution_notes : Option Text
  pub resolution_proof_urls : List Text
  pub resolution_geom : Option Point
  pub auto_confirm_deadline : Option ℕ
  pub created_at : ℕ

-- The row of `observation`.
pub record Observation : Type 0 where
  pub id : ℕ
  pub intake_report_id : ℕ
  pub incident_id : Option ℕ
  pub status : ObservationStatus

abbrev pub is_rejected : IncidentStatus → Bool
is_rejected IncidentStatus.rejected = true
is_rejected _ = false

abbrev pub is_resolved : IncidentStatus → Bool
is_resolved IncidentStatus.resolved = true
is_resolved _ = false
