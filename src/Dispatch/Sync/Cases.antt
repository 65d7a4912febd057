-- ===== src/Dispatch/Sync/Cases.antt =====
-- The ways in which a new mutation of process_field_sync in
-- civicbrain/domain/dispatch/services.py can end.
use civicbrain_v.Base.{ℕ, ◌+◌, List, [], ◌∷◌, ◌++◌, true, false, Option, some, none, ◌≡◌, ◌⊎◌}
use civicbrain_v.Text.{Text}
use civicbrain_v.Geo.{Within, Point, make_point}
use civicbrain_v.Intake.Models.{Incident, IncidentStatus}
use civicbrain_v.Dispatch.Models.{
  WorkOrder, WorkOrderStatus, MutationResult, Action, Reason, SyncMutationStatus,
  ConflictReviewStatus, DispatchConflictReview, is_completed, is_cancelled,
}
use civicbrain_v.Dispatch.Evidence.{IsSound}
use civicbrain_v.Dispatch.WorkOrders.{
  Evidence, assigned_to_other, begin_work, begin_incident, complete_work, resolve_incident,
  near_incident, update_incident,
}
use civicbrain_v.Dispatch.WorkOrders.Effect.{IsCompletedWith, IsResolvedWith}
use civicbrain_v.Dispatch.Sync.{hold}
use civicbrain_v.Dispatch.Sync.Submitted.{HasEvidence, IsSubmitted}
use civicbrain_v.Dispatch.Answers.{Call, conclude, applied, refused}
use civicbrain_v.Store.{Db, find_incident, find_work_order, change_work_order}

-- The answer that tells the client this.
abbrev pub IsAnswer : Call → SyncMutationStatus → Option Reason → Option ℕ → MutationResult → Type 0
IsAnswer c status reason review a = a ≡ record {
  client_mutation_id = c.mut.client_mutation_id;
  status = status;
  conflict_reason = reason;
  conflict_review_id = review;
}

-- Why a mutation of this order is not applied, and what is then answered.
pub data Declined (within : Within) (c : Call) (db : Db) (w : WorkOrder)
    : SyncMutationStatus → Reason → Type 0 where
  start_of_other :
      c.mut.action ≡ Action.start
      → assigned_to_other w c.worker_id ≡ true
      → Declined within c db w SyncMutationStatus.conflict Reason.reassigned_by_dispatcher
  start_of_cancelled :
      c.mut.action ≡ Action.start
      → assigned_to_other w c.worker_id ≡ false
      → is_cancelled w.status ≡ true
      → Declined within c db w SyncMutationStatus.conflict Reason.cancelled_by_dispatcher
  without_evidence :
      c.mut.action ≡ Action.resolve
      → ((notes : Text) (media : List Text) → ¬ HasEvidence c.mut.payload notes media)
      → Declined within c db w SyncMutationStatus.rejected Reason.missing_evidence
  out_of_place :
      c.mut.action ≡ Action.resolve
      → ((notes : Text) × (media : List Text) × HasEvidence c.mut.payload notes media)
      → ((place : Point)
          → make_point c.mut.payload.longitude c.mut.payload.latitude ≡ some place
          → near_incident within w.incident_id place db.incidents ≡ false)
      → Declined within c db w SyncMutationStatus.rejected Reason.resolution_out_of_bounds
  completed_before :
      (e : Evidence)
      → c.mut.action ≡ Action.resolve
      → IsSubmitted c.mut.payload e
      → IsSound within db.incidents w.incident_id e.place e.notes e.media
      → is_completed w.status ≡ true
      → Declined within c db w SyncMutationStatus.conflict Reason.conflict_already_completed
  not_supported :
      (a : Text)
      → c.mut.action ≡ Action.other a
      → Declined within c db w SyncMutationStatus.rejected Reason.unsupported_action

-- The decision of the dispatcher that evidence has met.
abbrev pub Clashes : Call → WorkOrder → Reason → Type 0
Clashes c w reason =
    ((assigned_to_other w c.worker_id ≡ true) × (reason ≡ Reason.reassigned_by_dispatcher))
    ⊎ ((assigned_to_other w c.worker_id ≡ false)
        × (is_cancelled w.status ≡ true)
        × (reason ≡ Reason.cancelled_by_dispatcher))

-- A pending review is added, with the worker, the incident and the evidence; the answer names it.
abbrev pub IsHeld : Call → WorkOrder → Evidence → Reason → Db → MutationResult × Db → Type 0
IsHeld c w e reason db r =
    (v : DispatchConflictReview) × (r.1.reviews ≡ db.reviews ++ v ∷ [])
    × IsAnswer c SyncMutationStatus.conflict (some reason) (some v.id) r.0
    × (v.status ≡ ConflictReviewStatus.pending)
    × (v.work_order_id ≡ w.id)
    × (v.incident_id ≡ w.incident_id)
    × (v.worker_id ≡ c.worker_id)
    × (v.client_mutation_id ≡ c.mut.client_mutation_id)
    × (v.conflict_type ≡ reason)
    × (v.submitted_notes ≡ e.notes)
    × (v.submitted_media_urls ≡ e.media)
    × (v.submitted_geom ≡ e.place)

-- The order is in progress since the worker's start, one version up, and so is its incident.
abbrev pub IsStarted : Call → Db → WorkOrder → MutationResult × Db → Type 0
IsStarted c db w r =
    IsAnswer c SyncMutationStatus.applied none none r.0
    × ((w' : WorkOrder) × (find_work_order c.mut.entity_id r.1 ≡ some w')
        × (w'.status ≡ WorkOrderStatus.in_progress)
        × (w'.started_at ≡ some c.mut.captured_at)
        × (w'.version ≡ w.version + 1))
    × ((i : Incident)
        → find_incident w.incident_id db ≡ some i
        → (i' : Incident) × (find_incident w.incident_id r.1 ≡ some i')
          × (i'.status ≡ IncidentStatus.in_progress)
          × (i'.in_progress_at ≡ some c.mut.captured_at))

-- The order is completed with the evidence at the time that the worker captured, one version up,
-- and its incident is resolved with it.
abbrev pub IsSettled : Call → Db → WorkOrder → Evidence → MutationResult × Db → Type 0
IsSettled c db w e r =
    IsAnswer c SyncMutationStatus.applied none none r.0
    × ((w' : WorkOrder) × (find_work_order c.mut.entity_id r.1 ≡ some w')
        × IsCompletedWith c.mut.captured_at e w'
        × (w'.version ≡ w.version + 1))
    × ((i : Incident)
        → find_incident w.incident_id db ≡ some i
        → (i' : Incident) × (find_incident w.incident_id r.1 ≡ some i')
          × IsResolvedWith c.mut.captured_at e i')

pub data Outcome (within : Within) (c : Call) (db : Db) (r : MutationResult × Db) : Type 0 where
  -- Only the log grows.
  logged :
      (w : WorkOrder) (status : SyncMutationStatus) (reason : Reason)
      → find_work_order c.mut.entity_id db ≡ some w
      → Declined within c db w status reason
      → IsAnswer c status (some reason) none r.0
      → r ≡ conclude c (refused status reason w) db
      → Outcome within c db r
  -- The log and the review queue grow: sound evidence met a dispatcher's decision.
  held :
      (w : WorkOrder) (e : Evidence) (reason : Reason)
      → find_work_order c.mut.entity_id db ≡ some w
      → c.mut.action ≡ Action.resolve
      → IsSubmitted c.mut.payload e
      → IsSound within db.incidents w.incident_id e.place e.notes e.media
      → is_completed w.status ≡ false
      → Clashes c w reason
      → IsHeld c w e reason db r
      → r ≡ hold c w e reason db
      → Outcome within c db r
  -- The work order and its incident go on.
  started :
      (w : WorkOrder)
      → find_work_order c.mut.entity_id db ≡ some w
      → c.mut.action ≡ Action.start
      → assigned_to_other w c.worker_id ≡ false
      → is_cancelled w.status ≡ false
      → IsStarted c db w r
      → r
        ≡ conclude c (applied w) (
            update_incident w.incident_id (begin_incident c.mut.captured_at) (
              change_work_order c.mut.entity_id
                (begin_work c.mut.captured_at c.clock.transaction)
                db))
      → Outcome within c db r
  resolved :
      (w : WorkOrder) (e : Evidence)
      → find_work_order c.mut.entity_id db ≡ some w
      → c.mut.action ≡ Action.resolve
      → IsSubmitted c.mut.payload e
      → IsSound within db.incidents w.incident_id e.place e.notes e.media
      → is_completed w.status ≡ false
      → assigned_to_other w c.worker_id ≡ false
      → is_cancelled w.status ≡ false
      → IsSettled c db w e r
      → r
        ≡ conclude c (applied w) (
            update_incident w.incident_id (resolve_incident c.mut.captured_at e) (
              change_work_order c.mut.entity_id
                (complete_work c.mut.captured_at c.clock.transaction e)
                db))
      → Outcome within c db r
