-- ===== src/Dispatch/WorkOrders.antt =====
-- civicbrain/domain/dispatch/services.py: create_work_order, start_work_order, resolve_work_order.
pub mod Frame
pub mod Gate
pub mod Effect
pub mod Refusals
use civicbrain_v.Base.{
  ℕ, ◌+◌, List, [], ◌∷◌, ◌++◌, Bool, true, false, ◌&&◌, not, Option, some, none, if◌then◌else◌,
  ◌==◌, find,
}
use civicbrain_v.Text.{Text, is_blank}
use civicbrain_v.Geo.{Point, Within}
use civicbrain_v.Intake.Models.{Incident, IncidentStatus}
use civicbrain_v.Intake.Recompute.{recompute_reports_for_incident}
use civicbrain_v.Dispatch.Models.{WorkOrder, WorkOrderStatus, is_completed}
use civicbrain_v.Store.{
  Db, Error, Result, ok, err, Clock, find_incident, find_work_order, change_incident,
  change_work_order,
}

-- `work_order.assigned_worker_id and work_order.assigned_worker_id != worker_id`
abbrev pub assigned_to_other : WorkOrder → ℕ → Bool
assigned_to_other w worker = elim w.assigned_worker_id [ none ↦ false | some a ↦ not (a == worker) ]

-- `not xs or len(xs) == 0`
abbrev pub is_empty : List Text → Bool
is_empty [] = true
is_empty (_ ∷ _) = false

-- `timedelta(hours=72)` in microseconds.
abbrev pub three_days : ℕ
three_days = 259_200_000_000

abbrev initial_status : Option ℕ → WorkOrderStatus
initial_status none = WorkOrderStatus.created
initial_status (some _) = WorkOrderStatus.dispatched

abbrev dispatch_time : Option ℕ → ℕ → Option ℕ
dispatch_time none now = none
dispatch_time (some _) now = some now

-- The row that `create_work_order` adds, under the id that `uuid4` gives.
unfoldable pub new_work_order : Clock → ℕ → ℕ → ℕ → ℕ → Option ℕ → WorkOrder
new_work_order clock fresh org incident department worker = record {
  id = fresh;
  organization_id = org;
  incident_id = incident;
  department_id = department;
  assigned_worker_id = worker;
  status = initial_status worker;
  version = 1;
  dispatched_at = dispatch_time worker clock.now;
  started_at = none;
  completed_at = none;
  resolution_notes = none;
  resolution_media_urls = [];
  resolution_geom = none;
  created_at = clock.transaction;
  updated_at = clock.transaction;
}

abbrev pub assign : ℕ → ℕ → Incident → Incident
assign now worker i = record i {
  status = IncidentStatus.assigned;
  assigned_at = some now;
  assigned_worker_id = some worker;
}

-- `if assigned_worker_id:` the incident follows.
unfoldable pub sync_assignment : Clock → ℕ → Option ℕ → Db → Db
sync_assignment clock incident none db = db
sync_assignment clock incident (some worker) db =
    recompute_reports_for_incident incident (change_incident incident (assign clock.now worker) db)

unfoldable pub create_work_order : Clock → ℕ → ℕ → ℕ → ℕ → Option ℕ → Db → Result (WorkOrder × Db)
unfolding new_work_order
create_work_order clock fresh org incident department worker db =
    elim (find (λ i. i.id == incident && i.organization_id == org) db.incidents) [
      | none ↦ err Error.incident_not_found
      | some _ ↦ elim (find (λ d. d.id == department && d.organization_id == org) db.departments) [
        | none ↦ err Error.department_not_found
        | some _ ↦
            let w = new_work_order clock fresh org incident department worker in
            ok (
              w,
              sync_assignment clock incident worker
                  (record db { work_orders = db.work_orders ++ w ∷ [] }),
            )
      ]
    ]

-- The assignments of `start_work_order` to the work order and to the incident. Its server writes
-- `updated_at` on every change.
abbrev pub begin_work : ℕ → ℕ → WorkOrder → WorkOrder
begin_work at transaction w = record w {
  status = WorkOrderStatus.in_progress;
  started_at = some at;
  version = w.version + 1;
  updated_at = transaction;
}

abbrev pub begin_incident : ℕ → Incident → Incident
begin_incident at i = record i { status = IncidentStatus.in_progress; in_progress_at = some at }

-- `if incident:` the change of a missing row changes nothing, and no report is recomputed.
unfoldable pub update_incident : ℕ → (Incident → Incident) → Db → Db
update_incident k f db = elim (find_incident k db) [
  | none ↦ db
  | some _ ↦ recompute_reports_for_incident k (change_incident k f db)
]

unfoldable pub start_work_order : Clock → ℕ → ℕ → Db → Result (WorkOrder × Db)
start_work_order clock id worker db = elim (find_work_order id db) [
  | none ↦ err Error.work_order_not_found
  | some w ↦
      if assigned_to_other w worker
      then err Error.not_assigned
      else if is_completed w.status
      then err Error.already_completed
      else ok (
        begin_work clock.now clock.transaction w,
        update_incident w.incident_id (begin_incident clock.now)
            (change_work_order id (begin_work clock.now clock.transaction) db),
      )
]

-- What a resolution submits: the time, the notes, the photos and the place.
pub record Evidence : Type 0 where
  pub notes : Text
  pub media : List Text
  pub place : Point

-- The assignments of a resolution to the work order and to the incident.
abbrev pub complete_work : ℕ → ℕ → Evidence → WorkOrder → WorkOrder
complete_work at transaction e w = record w {
  status = WorkOrderStatus.completed;
  completed_at = some at;
  resolution_notes = some e.notes;
  resolution_media_urls = e.media;
  resolution_geom = some e.place;
  version = w.version + 1;
  updated_at = transaction;
}

abbrev pub resolve_incident : ℕ → Evidence → Incident → Incident
resolve_incident at e i = record i {
  status = IncidentStatus.resolved;
  resolved_at = some at;
  resolution_notes = some e.notes;
  resolution_proof_urls = e.media;
  resolution_geom = some e.place;
  auto_confirm_deadline = some (at + three_days);
}

-- `SELECT ST_DWithin(…, 50.0) FROM incident WHERE id = …`: no row gives None, which is false.
abbrev pub near_incident : Within → ℕ → Point → List Incident → Bool
near_incident within k p incidents = elim (find (λ i. i.id == k) incidents) [
  | none ↦ false
  | some i ↦ within i.geom p
]

unfoldable pub resolve_work_order : Within → Clock → ℕ → ℕ → Evidence → Db → Result (WorkOrder × Db)
resolve_work_order within clock id worker e db = elim (find_work_order id db) [
  | none ↦ err Error.work_order_not_found
  | some w ↦
      if assigned_to_other w worker
      then err Error.not_assigned
      else if is_completed w.status
      then err Error.already_completed
      else if is_empty e.media
      then err Error.media_empty
      else if is_blank e.notes
      then err Error.notes_empty
      else if not (near_incident within w.incident_id e.place db.incidents)
      then err Error.out_of_bounds
      else ok (
        complete_work clock.now clock.transaction e w,
        update_incident w.incident_id (resolve_incident clock.now e)
            (change_work_order id (complete_work clock.now clock.transaction e) db),
      )
]
