-- ===== src/Dispatch/Models.antt =====
-- civicbrain/domain/dispatch/models.py and schemas/dispatch.py: work orders, the log of offline
-- mutations, the queue of conflict reviews, and what a client pushes and gets back.
use civicbrain_v.Base.{ℕ, Bool, true, false, Option, List}
use civicbrain_v.Text.{Text}
use civicbrain_v.Geo.{Point}

-- `WorkOrderStatus`
pub data WorkOrderStatus : Type 0 where
  created dispatched accepted in_progress completed cancelled : WorkOrderStatus

-- `SyncMutationStatus`
pub data SyncMutationStatus : Type 0 where
  applied conflict rejected : SyncMutationStatus

-- `ConflictReviewStatus`
pub data ConflictReviewStatus : Type 0 where
  pending accepted dismissed : ConflictReviewStatus

-- The row of `work_order`.
pub record WorkOrder : Type 0 where
  pub id : ℕ
  pub organization_id : ℕ
  pub incident_id : ℕ
  pub department_id : ℕ
  pub assigned_worker_id : Option ℕ
  pub status : WorkOrderStatus
  pub version : ℕ
  pub dispatched_at : Option ℕ
  pub started_at : Option ℕ
  pub completed_at : Option ℕ
  pub resolution_notes : Option Text
  pub resolution_media_urls : List Text
  pub resolution_geom : Option Point
  pub created_at : ℕ
  pub updated_at : ℕ

-- The action of a mutation is a string, of which the program tells two values apart.
pub data Action : Type 0 where
  start resolve : Action
  other : Text → Action

-- The keys of the JSON payload that the program reads; a missing key and a JSON null are `none`.
-- Values of other JSON types than the client's schema sends are not modelled.
pub record Payload : Type 0 where
  pub resolution_notes : Option Text
  pub resolution_media_urls : Option (List Text)
  pub latitude : Option ℕ
  pub longitude : Option ℕ

-- The strings that the program writes as `conflict_reason` or `conflict_type`.
pub data Reason : Type 0 where
  work_order_not_found reassigned_by_dispatcher cancelled_by_dispatcher missing_evidence
        resolution_out_of_bounds conflict_already_completed unsupported_action :
      Reason

-- The row of `sync_mutation_log`.
pub record SyncMutationLog : Type 0 where
  pub id : ℕ
  pub client_mutation_id : ℕ
  pub organization_id : ℕ
  pub worker_id : ℕ
  pub entity_type : Text
  pub entity_id : ℕ
  pub action : Action
  pub payload : Payload
  pub status : SyncMutationStatus
  pub conflict_reason : Option Reason
  pub server_version : Option ℕ
  pub created_at : ℕ

-- The row of `dispatch_conflict_review`.
pub record DispatchConflictReview : Type 0 where
  pub id : ℕ
  pub organization_id : ℕ
  pub work_order_id : ℕ
  pub incident_id : ℕ
  pub worker_id : ℕ
  pub client_mutation_id : ℕ
  pub conflict_type : Reason
  pub submitted_notes : Text
  pub submitted_media_urls : List Text
  pub submitted_geom : Point
  pub captured_at : ℕ
  pub status : ConflictReviewStatus
  pub reviewed_by : Option ℕ
  pub reviewed_at : Option ℕ
  pub review_notes : Option Text
  pub created_at : ℕ

-- `ClientMutationItem`
pub record ClientMutationItem : Type 0 where
  pub client_mutation_id : ℕ
  pub entity_type : Text
  pub entity_id : ℕ
  pub action : Action
  pub base_version : ℕ
  pub captured_at : ℕ
  pub payload : Payload

-- `MutationResult`
pub record MutationResult : Type 0 where
  pub client_mutation_id : ℕ
  pub status : SyncMutationStatus
  pub conflict_reason : Option Reason
  pub conflict_review_id : Option ℕ

-- `FieldSyncResponse`
pub record FieldSyncResponse : Type 0 where
  pub mutation_results : List MutationResult
  pub server_changes : List WorkOrder
  pub new_cursor : ℕ

-- `ConflictDecision`
pub data ConflictDecision : Type 0 where
  accept_worker_evidence uphold_dispatcher_action : ConflictDecision

abbrev pub is_completed : WorkOrderStatus → Bool
is_completed WorkOrderStatus.completed = true
is_completed _ = false

abbrev pub is_cancelled : WorkOrderStatus → Bool
is_cancelled WorkOrderStatus.cancelled = true
is_cancelled _ = false
