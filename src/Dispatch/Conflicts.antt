-- ===== src/Dispatch/Conflicts.antt =====
-- civicbrain/domain/dispatch/services.py: adjudicate_dispatch_conflict.
pub mod Gate
use civicbrain_v.Base.{
  ℕ, ◌+◌, List, Bool, true, false, not, Option, some, none, if◌then◌else◌, ◌==◌, find, modify_first,
}
use civicbrain_v.Text.{Text}
use civicbrain_v.Intake.Models.{Incident, IncidentStatus}
use civicbrain_v.Dispatch.Models.{
  WorkOrder, WorkOrderStatus, ConflictReviewStatus, DispatchConflictReview, ConflictDecision,
}
use civicbrain_v.Dispatch.WorkOrders.{three_days, update_incident}
use civicbrain_v.Store.{Db, Error, Result, ok, err, Clock, change_work_order}

abbrev pub is_pending : ConflictReviewStatus → Bool
is_pending ConflictReviewStatus.pending = true
is_pending _ = false

-- What a supervisor submits.
pub record Ruling : Type 0 where
  pub reviewer_id : ℕ
  pub decision : ConflictDecision
  pub notes : Option Text

abbrev pub decided_status : ConflictDecision → ConflictReviewStatus
decided_status ConflictDecision.accept_worker_evidence = ConflictReviewStatus.accepted
decided_status ConflictDecision.uphold_dispatcher_action = ConflictReviewStatus.dismissed

-- The assignments to the review.
abbrev pub close_review : ℕ → Ruling → DispatchConflictReview → DispatchConflictReview
close_review now ruling r = record r {
  status = decided_status ruling.decision;
  reviewed_by = some ruling.reviewer_id;
  reviewed_at = some now;
  review_notes = ruling.notes;
}

-- The worker's evidence stands: the assignments to the work order.
abbrev pub complete_from_review : ℕ → DispatchConflictReview → WorkOrder → WorkOrder
complete_from_review transaction r w = record w {
  status = WorkOrderStatus.completed;
  assigned_worker_id = some r.worker_id;
  completed_at = some r.captured_at;
  resolution_notes = some r.submitted_notes;
  resolution_media_urls = r.submitted_media_urls;
  resolution_geom = some r.submitted_geom;
  version = w.version + 1;
  updated_at = transaction;
}

-- The assignments to the incident.
abbrev pub resolve_from_review : ℕ → DispatchConflictReview → Incident → Incident
resolve_from_review now r i = record i {
  status = IncidentStatus.resolved;
  assigned_worker_id = some r.worker_id;
  resolved_at = some r.captured_at;
  resolution_notes = some r.submitted_notes;
  resolution_proof_urls = r.submitted_media_urls;
  resolution_geom = some r.submitted_geom;
  auto_confirm_deadline = some (now + three_days);
}

abbrev pub change_review : ℕ → (DispatchConflictReview → DispatchConflictReview) → Db → Db
change_review k f db = record db { reviews = modify_first (λ r. r.id == k) f db.reviews }

-- What the decision does to the work order and the incident.
unfoldable pub carry_out : Clock → ConflictDecision → DispatchConflictReview → Db → Db
carry_out clock ConflictDecision.uphold_dispatcher_action r db = db
carry_out clock ConflictDecision.accept_worker_evidence r db =
    update_incident r.incident_id (resolve_from_review clock.now r)
      (change_work_order r.work_order_id (complete_from_review clock.transaction r) db)

unfoldable pub adjudicate_dispatch_conflict :
    Clock → ℕ → Ruling → Db → Result (DispatchConflictReview × Db)
adjudicate_dispatch_conflict clock id ruling db = elim (find (λ r. r.id == id) db.reviews) [
  | none ↦ err Error.conflict_not_found
  | some r ↦
      if not (is_pending r.status)
      then err Error.already_adjudicated
      else ok (
        close_review clock.now ruling r,
        carry_out clock ruling.decision r (change_review id (close_review clock.now ruling) db),
      )
]
