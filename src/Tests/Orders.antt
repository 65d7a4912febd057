-- ===== src/Tests/Orders.antt =====
-- Resolutions and adjudications in the city.
use civicbrain_v.Base.{
  ◌⊎◌, ℕ, [], ◌∷◌, ◌≡◌, ◌≢◌, ◌+◌, true, false, some, none, refl, distinct, arith,
}
use civicbrain_v.Text.{is_blank, is_space}
use civicbrain_v.Intake.Recompute.{
  recompute_reports_for_incident, recompute_reports, parent_report_ids,
  recompute_intake_report_status,
}
use civicbrain_v.Intake.Recompute.Consistency.{IsConsistent}
use civicbrain_v.Dispatch.Models.{WorkOrder, WorkOrderStatus, ConflictDecision, is_completed}
use civicbrain_v.Dispatch.Evidence.{IsEvidenced}
use civicbrain_v.Dispatch.WorkOrders.{
  Evidence, assigned_to_other, is_empty, create_work_order, new_work_order, sync_assignment,
  resolve_work_order, complete_work,
}
use civicbrain_v.Dispatch.WorkOrders.Refusals.{Refusal, resolve_work_order_refusal}
use civicbrain_v.Dispatch.WorkOrders.Effect.{
  IsCompletedWith, IsResolvedWith, resolve_work_order_effect,
}
use civicbrain_v.Dispatch.Conflicts.{Ruling, adjudicate_dispatch_conflict, close_review}
use civicbrain_v.Dispatch.Conflicts.Gate.{adjudicate_dispatch_conflict_accepts}
use civicbrain_v.Dispatch.Citizen.{citizen_confirm_report}
use civicbrain_v.Dispatch.Lifecycle.{Service, Reach, Served}
use civicbrain_v.Dispatch.Lifecycle.Invariant.{reach-IsEvidenced, served-IsConsistent}
use civicbrain_v.Intake.Models.{Incident}
use civicbrain_v.Store.{status_code, Db, Error, ok, err, find_incident, find_work_order}
use civicbrain_v.Tests.City.{
  near, clock, city, order, review, proof, after, city-IsEvidenced, city-IsConsistent,
}

-- The evidence is accepted.
abbrev resolved : Db
resolved = after (resolve_work_order near clock 20 5 proof city)

is_resolved :
    resolve_work_order near clock 20 5 proof city
    ≡ ok (complete_work clock.now clock.transaction proof (order (some 5)), resolved)
unfolding resolve_work_order is_blank is_space
is_resolved = refl

-- A blank note, another worker and a place that is too far away are refused.
refused_blank :
    resolve_work_order near clock 20 5 (record proof { notes = 32 ∷ 10 ∷ [] }) city
    ≡ err Error.notes_empty
unfolding resolve_work_order is_blank is_space
refused_blank = refl

refused_worker : resolve_work_order near clock 20 6 proof city ≡ err Error.not_assigned
unfolding resolve_work_order
refused_worker = refl

abbrev far : Evidence
far = record proof { place = record { lon = 80; lat = 12 } }

refused_place : resolve_work_order near clock 20 5 far city ≡ err Error.out_of_bounds
unfolding resolve_work_order is_blank is_space
refused_place = refl

resolve_work_order_refusal_example :
    ((find_work_order 20 city ≡ none) × (status_code Error.out_of_bounds ≡ 404))
    ⊎ ((w : WorkOrder) × (find_work_order 20 city ≡ some w)
        × Refusal near 5 far city w (status_code Error.out_of_bounds))
resolve_work_order_refusal_example =
    resolve_work_order_refusal near clock 20 5 far city refused_place

resolve_work_order_effect_example :
    (w : WorkOrder) × (find_work_order 20 city ≡ some w)
    × (assigned_to_other w 5 ≡ false)
    × (is_completed w.status ≡ false)
    × (is_empty proof.media ≡ false)
    × (is_blank proof.notes ≡ false)
    × (find_work_order 20 resolved
        ≡ some (complete_work clock.now clock.transaction proof (order (some 5))))
    × IsCompletedWith clock.now proof
        (complete_work clock.now clock.transaction proof (order (some 5)))
    × (3 ≡ w.version + 1)
    × ((i : Incident) × (find_incident w.incident_id city ≡ some i)
        × (near i.geom proof.place ≡ true))
    × ((i' : Incident) × (find_incident w.incident_id resolved ≡ some i')
        × IsResolvedWith clock.now proof i')
    × ((j : ℕ) → j ≢ 20 → find_work_order j resolved ≡ find_work_order j city)
    × ((j : ℕ) → j ≢ w.incident_id → find_incident j resolved ≡ find_incident j city)
resolve_work_order_effect_example = resolve_work_order_effect clock 20 5 city near proof is_resolved

-- A supervisor takes the evidence of worker 6.
abbrev ruling : Ruling
ruling = record {
  reviewer_id = 9;
  decision = ConflictDecision.accept_worker_evidence;
  notes = none;
}

abbrev ruled : Db
ruled = after (adjudicate_dispatch_conflict clock 40 ruling city)

is_ruled :
    adjudicate_dispatch_conflict clock 40 ruling city
    ≡ ok (close_review clock.now ruling review, ruled)
unfolding adjudicate_dispatch_conflict
is_ruled = refl

adjudicate_dispatch_conflict_accepts_example :
    (w' : WorkOrder) × (find_work_order 20 ruled ≡ some w')
    × (w'.status ≡ WorkOrderStatus.completed)
    × (w'.assigned_worker_id ≡ some 6)
    × (w'.resolution_notes ≡ some review.submitted_notes)
    × (w'.resolution_media_urls ≡ review.submitted_media_urls)
    × (w'.resolution_geom ≡ some review.submitted_geom)
    × (w'.version ≡ 3)
adjudicate_dispatch_conflict_accepts_example =
    adjudicate_dispatch_conflict_accepts clock 40 ruling city is_ruled refl refl refl

-- A second work order is made and dispatched, the first is resolved, the nightly run follows and
-- the citizen confirms.
abbrev created : Db
created = after (create_work_order clock 21 1 8 2 (some 6) city)

create : Service near city created
unfolding create_work_order
create =
    Service.create clock 21 1 8 2 (some 6) (new_work_order clock 21 1 8 2 (some 6))
      ((λ e. ground arith), tt) ((λ e. ground arith), tt) refl

abbrev served : Db
served = after (resolve_work_order near clock 20 5 proof created)

resolve : Service near created served
unfolding resolve_work_order is_blank is_space create_work_order sync_assignment new_work_order
    recompute_reports_for_incident recompute_reports parent_report_ids
    recompute_intake_report_status distinct
resolve =
    Service.resolve clock 20 5 proof
      (complete_work clock.now clock.transaction proof (order (some 5))) refl

abbrev confirmed : Db
confirmed = after (citizen_confirm_report 2000 (84 ∷ []) served)

reach-IsEvidenced_example : IsEvidenced near served
reach-IsEvidenced_example =
    reach-IsEvidenced near city city-IsEvidenced
      (Reach.serve (Reach.serve Reach.here create) resolve)

served-IsConsistent_example : IsConsistent served
served-IsConsistent_example =
    served-IsConsistent near city city-IsConsistent
      (Served.serve (Served.serve Served.here create) resolve)
