-- ===== src/Tests/City.antt =====
-- A city with two incidents, one report about both, and a work order of worker 5 for the first.
use civicbrain_v.Base.{ℕ, [], ◌∷◌, refl, true, Option, some, none, ◌==◌}
use civicbrain_v.Geo.{Point, Within}
use civicbrain_v.Text.{is_blank, is_space}
use civicbrain_v.Intake.Models.{
  Incident, IncidentStatus, IntakeReport, IntakeStatus, ObservationStatus,
}
use civicbrain_v.Dispatch.Models.{
  WorkOrder, WorkOrderStatus, DispatchConflictReview, ConflictReviewStatus, Reason,
}
use civicbrain_v.Dispatch.WorkOrders.{Evidence}
use civicbrain_v.Dispatch.Evidence.{IsEvidenced}
use civicbrain_v.Intake.Recompute.{child_statuses}
use civicbrain_v.Intake.Recompute.Consistency.{IsConsistent}
use civicbrain_v.Intake.Status.{
  calculate_intake_status_from_children, status_of_active, least_child, progression_rank, mapping,
}
use civicbrain_v.Store.{Db, Result, ok, err, Clock}

-- Near is: on the same meridian.
abbrev pub near : Within
near p q = p.lon == q.lon

abbrev pub clock : Clock
clock = record { now = 1000; transaction = 990 }

abbrev pub here : Point
here = record { lon = 77; lat = 12 }

abbrev pub incident : ℕ → IncidentStatus → Incident
incident id status = record {
  id = id;
  organization_id = 1;
  department_id = 2;
  ward_id = 3;
  category_code = [];
  geom = here;
  status = status;
  severity = 1;
  assigned_worker_id = none;
  triaged_at = none;
  verified_at = none;
  prioritized_at = none;
  assigned_at = none;
  in_progress_at = none;
  resolved_at = none;
  confirmed_at = none;
  rejected_at = none;
  appealed_at = none;
  reopened_at = none;
  rejection_reason = none;
  appeal_reason = none;
  resolution_notes = none;
  resolution_proof_urls = [];
  resolution_geom = none;
  auto_confirm_deadline = none;
  created_at = 100;
}

abbrev pub order : Option ℕ → WorkOrder
order worker = record {
  id = 20;
  organization_id = 1;
  incident_id = 7;
  department_id = 2;
  assigned_worker_id = worker;
  status = WorkOrderStatus.in_progress;
  version = 2;
  dispatched_at = some 100;
  started_at = some 200;
  completed_at = none;
  resolution_notes = none;
  resolution_media_urls = [];
  resolution_geom = none;
  created_at = 100;
  updated_at = 200;
}

abbrev pub review : DispatchConflictReview
review = record {
  id = 40;
  organization_id = 1;
  work_order_id = 20;
  incident_id = 7;
  worker_id = 6;
  client_mutation_id = 900;
  conflict_type = Reason.reassigned_by_dispatcher;
  submitted_notes = 102 ∷ [];
  submitted_media_urls = (112 ∷ []) ∷ [];
  submitted_geom = here;
  captured_at = 300;
  status = ConflictReviewStatus.pending;
  reviewed_by = none;
  reviewed_at = none;
  review_notes = none;
  created_at = 310;
}

abbrev pub report : IntakeStatus → IntakeReport
report status = record {
  id = 10;
  organization_id = 1;
  status = status;
  tracking_token = some (84 ∷ []);
}

abbrev pub city : Db
city = record {
  departments = record { id = 2; organization_id = 1; name = []; code = []; is_active = true } ∷ [];
  incidents = incident 7 IncidentStatus.in_progress ∷ incident 8 IncidentStatus.triaged ∷ [];
  observations =
      record {
        id = 30;
        intake_report_id = 10;
        incident_id = some 7;
        status = ObservationStatus.linked_to_incident;
      }
      ∷ record {
        id = 31;
        intake_report_id = 10;
        incident_id = some 8;
        status = ObservationStatus.linked_to_incident;
      }
      ∷ [];
  reports = report IntakeStatus.processing ∷ [];
  work_orders = order (some 5) ∷ [];
  mutation_log = [];
  reviews = review ∷ [];
}

abbrev pub proof : Evidence
proof = record { notes = 102 ∷ []; media = (112 ∷ []) ∷ []; place = here }

-- What a call leaves behind; the city where it is refused.
abbrev pub after : {A : Type 0} → Result (A × Db) → Db
after (ok (_, db)) = db
after (err _) = city

pub city-IsEvidenced : IsEvidenced near city
unfolding is_blank is_space
city-IsEvidenced = record {
  keyed = (tt, tt);
  proved = ((λ h. cc), tt);
  preserved = (((refl, refl, refl), ((λ e. refl), tt)), tt);
}

pub city-IsConsistent : IsConsistent city
unfolding calculate_intake_status_from_children child_statuses status_of_active least_child
    progression_rank mapping
city-IsConsistent = (refl, tt)
