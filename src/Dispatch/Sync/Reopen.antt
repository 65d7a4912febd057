-- ===== src/Dispatch/Sync/Reopen.antt =====
-- About the start of a completed order in process_field_sync of
-- civicbrain/domain/dispatch/services.py.
use civicbrain_v.Base.{◌+◌, true, false, some, ◌≡◌, refl, ◌∙◌, arith}
use civicbrain_v.Geo.{Within}
use civicbrain_v.Dispatch.Models.{
  MutationResult, WorkOrder, WorkOrderStatus, Action, SyncMutationStatus, is_completed,
  is_cancelled,
}
use civicbrain_v.Dispatch.WorkOrders.{
  assigned_to_other, begin_work, begin_incident, update_incident,
}
use civicbrain_v.Dispatch.WorkOrders.Effect.{step_work_order}
use civicbrain_v.Dispatch.Sync.{process_new, process_action, process_start}
use civicbrain_v.Dispatch.Answers.{Call, conclude, applied}
use civicbrain_v.Store.{Db, ok, find_work_order, change_work_order}

completed-not_cancelled : (s : WorkOrderStatus) → is_completed s ≡ true → is_cancelled s ≡ false
completed-not_cancelled s h = ground arith

process_start-applied :
    (c : Call) (w : WorkOrder) (db : Db)
    → is_completed w.status ≡ true
    → assigned_to_other w c.worker_id ≡ false
    → process_start c w db
      ≡ conclude c (applied w) (
          update_incident w.incident_id (begin_incident c.mut.captured_at) (
            change_work_order c.mut.entity_id
              (begin_work c.mut.captured_at c.clock.transaction)
              db))
unfolding process_start
process_start-applied c w db done mine =
    rw (mine, completed-not_cancelled w.status done, process_start)

process_new-start :
    (within : Within) (c : Call) (w : WorkOrder) (db : Db)
    → c.mut.action ≡ Action.start
    → find_work_order c.mut.entity_id db ≡ some w
    → process_new within c db ≡ ok (process_start c w db)
unfolding process_new process_action
process_new-start within c w db act found = rw (found, process_new, act)

-- Whenever a work order is completed and is not another worker's, a new offline start of it is
-- applied and puts it back in progress, one version up.
pub process_new_reopens :
    (within : Within) (c : Call) (w : WorkOrder) (db : Db)
    → c.mut.action ≡ Action.start
    → find_work_order c.mut.entity_id db ≡ some w
    → is_completed w.status ≡ true
    → assigned_to_other w c.worker_id ≡ false
    → (r : MutationResult × Db) × (process_new within c db ≡ ok r)
      × (r.0.status ≡ SyncMutationStatus.applied)
      × ((w' : WorkOrder) × (find_work_order c.mut.entity_id r.1 ≡ some w')
          × (w'.status ≡ WorkOrderStatus.in_progress)
          × (w'.version ≡ w.version + 1))
process_new_reopens within c w db act found done mine =
    let eq = process_start-applied c w db done mine in
    (
      process_start c w db,
      process_new-start within c w db act found,
      rw eq,
      (
        begin_work c.mut.captured_at c.clock.transaction w,
        rw eq (
            step_work_order c.mut.entity_id (begin_work c.mut.captured_at c.clock.transaction)
              (λ v. refl) w.incident_id (begin_incident c.mut.captured_at) (λ i. refl) db
            ∙ rw found),
        refl,
        refl,
      ),
    )
