-- ===== src/Dispatch/Lifecycle/Invariant.antt =====
-- About every database that the services of civicbrain/domain/dispatch can reach.
use civicbrain_v.Base.{ℕ, ◌≡◌, ◌==◌, subst}
use civicbrain_v.Geo.{Within}
use civicbrain_v.Intake.Models.{Incident}
use civicbrain_v.Intake.Recompute.{parent_report_ids}
use civicbrain_v.Intake.Recompute.Consistency.{IsConsistent, recompute_reports-refresh}
use civicbrain_v.Intake.Progress.{StatusUpdate, progress, update_incident_status}
use civicbrain_v.Intake.Progress.Effect.{
  progress_keeps, update_incident_status-eq-ok, update_incident_status-IsConsistent,
}
use civicbrain_v.Dispatch.Evidence.{IsEvidenced, moved-IsEvidenced}
use civicbrain_v.Dispatch.WorkOrders.Gate.{
  create_work_order-IsEvidenced, start_work_order-IsEvidenced, resolve_work_order-IsEvidenced,
}
use civicbrain_v.Dispatch.WorkOrders.Effect.{
  create_work_order-IsConsistent, start_work_order-IsConsistent, resolve_work_order-IsConsistent,
}
use civicbrain_v.Dispatch.Citizen.Gate.{
  citizen_confirm_report-IsEvidenced, citizen_dispute_report-IsEvidenced,
  evaluate_auto_confirm_cron-IsEvidenced, evaluate_auto_confirm_cron-IsConsistent,
}
use civicbrain_v.Dispatch.Sync.Loop.{process_mutations-IsEvidenced, process_mutations-IsConsistent}
use civicbrain_v.Dispatch.Conflicts.Gate.{
  adjudicate_dispatch_conflict-IsEvidenced, adjudicate_dispatch_conflict-IsConsistent,
}
use civicbrain_v.Dispatch.Lifecycle.{Service, Citizen, Reach, Served}
use civicbrain_v.Store.{Db, ok, change_incident}

-- A change of status by the staff keeps the gate.
update_incident_status-IsEvidenced :
    (within : Within) (now id : ℕ) (u : StatusUpdate) (db : Db) {i : Incident} {db' : Db}
    → IsEvidenced within db
    → update_incident_status now id u db ≡ ok (i, db')
    → IsEvidenced within db'
update_incident_status-IsEvidenced within now id u db h e =
    let (_, _, _, eq) = update_incident_status-eq-ok now id u db e in
    let ids = parent_report_ids id db.observations in
    rw (eq, recompute_reports-refresh ids (change_incident id (progress now u) db))
      (moved-IsEvidenced within (λ i. i.id == id) (progress now u) (λ i. (progress_keeps now u i).0)
        (λ i. (progress_keeps now u i).1) db _ h)

Service-IsEvidenced :
    (within : Within) {db db' : Db}
    → IsEvidenced within db
    → Service within db db'
    → IsEvidenced within db'
Service-IsEvidenced within {db} h (Service.create clock fresh org i d w _ new unused e) =
    create_work_order-IsEvidenced within clock fresh org i d w db new unused h e
Service-IsEvidenced within {db} h (Service.start clock id worker _ e) =
    start_work_order-IsEvidenced within clock id worker db h e
Service-IsEvidenced within {db} h (Service.resolve clock id worker e _ q) =
    resolve_work_order-IsEvidenced within clock id worker db e h q
Service-IsEvidenced within {db} h (Service.cron now e) =
    subst (IsEvidenced within) e (evaluate_auto_confirm_cron-IsEvidenced now within db h)
Service-IsEvidenced within {db} h (Service.push clock worker ms _ e) =
    process_mutations-IsEvidenced within clock worker ms db h e
Service-IsEvidenced within {db} h (Service.adjudicate clock id ruling _ e) =
    adjudicate_dispatch_conflict-IsEvidenced within clock id ruling db h e
Service-IsEvidenced within {db} h (Service.update now id u _ e) =
    update_incident_status-IsEvidenced within now id u db h e

Citizen-IsEvidenced :
    (within : Within) {db db' : Db}
    → IsEvidenced within db
    → Citizen db db'
    → IsEvidenced within db'
Citizen-IsEvidenced within {db} h (Citizen.confirm now token _ e) =
    citizen_confirm_report-IsEvidenced within now token db h e
Citizen-IsEvidenced within {db} h (Citizen.dispute now token reason _ e) =
    citizen_dispute_report-IsEvidenced within now token db reason h e

Service-IsConsistent :
    (within : Within) {db db' : Db} → IsConsistent db → Service within db db' → IsConsistent db'
Service-IsConsistent within {db} h (Service.create clock fresh org i d w _ _ _ e) =
    create_work_order-IsConsistent clock fresh org i d w db h e
Service-IsConsistent within {db} h (Service.start clock id worker _ e) =
    start_work_order-IsConsistent clock id worker db h e
Service-IsConsistent within {db} h (Service.resolve clock id worker e _ q) =
    resolve_work_order-IsConsistent clock id worker db within e h q
Service-IsConsistent within {db} h (Service.cron now e) =
    subst IsConsistent e (evaluate_auto_confirm_cron-IsConsistent now db h)
Service-IsConsistent within {db} h (Service.push clock worker ms _ e) =
    process_mutations-IsConsistent within clock worker ms db h e
Service-IsConsistent within {db} h (Service.adjudicate clock id ruling _ e) =
    adjudicate_dispatch_conflict-IsConsistent clock id ruling db h e
Service-IsConsistent within {db} h (Service.update now id u _ e) =
    update_incident_status-IsConsistent now id u db h e

-- Whatever is called in whatever order, online, offline, by citizens, dispatchers or the nightly
-- run, the evidence gate that held of the first database holds of every later one, provided that a
-- new work order gets an id that no order and no review has: no two work orders have one id, each
-- completed work order carries notes that are not blank, a photo and a place within 50 m of its
-- incident, and each conflict review preserves such evidence for the incident of its work order.
pub reach-IsEvidenced :
    (within : Within) (start : Db) {db : Db}
    → IsEvidenced within start
    → Reach within start db
    → IsEvidenced within db
reach-IsEvidenced within start h Reach.here = h
reach-IsEvidenced within start h (Reach.serve r s) =
    Service-IsEvidenced within (reach-IsEvidenced within start h r) s
reach-IsEvidenced within start h (Reach.decide r s) =
    Citizen-IsEvidenced within (reach-IsEvidenced within start h r) s

-- As long as no citizen decides on a report, every report that is reached has the status that its
-- incidents give, if the reports of the first database have.
pub served-IsConsistent :
    (within : Within) (start : Db) {db : Db}
    → IsConsistent start
    → Served within start db
    → IsConsistent db
served-IsConsistent within start h Served.here = h
served-IsConsistent within start h (Served.serve r s) =
    Service-IsConsistent within (served-IsConsistent within start h r) s
