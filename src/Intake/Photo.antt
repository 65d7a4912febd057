-- ===== src/Intake/Photo.antt =====
-- process_photo_intake of civicbrain/domain/intake/services.py. Departments stand in the order in
-- which they were created, and no two of an organization share a code, as the table demands. What
-- of a report or an observation is only stored (channel, media, address, box) is left out.
pub mod Children
pub mod Step
pub mod Keys
pub mod Collected
pub mod Agreed
pub mod Ends
use civicbrain_v.Base.{
  ℕ, List, [], ◌∷◌, ◌++◌, Bool, true, false, ◌&&◌, not, ◌==◌, if◌then◌else◌, all, elem, find,
  select, modify, Option, none, some,
}
use civicbrain_v.Text.{Text, text_eq}
use civicbrain_v.Geo.{Point}
use civicbrain_v.Directory.Models.{Department}
use civicbrain_v.Taxonomy.Categories.{TaxonomyCategory, CategoryStatus}
use civicbrain_v.Intake.Models.{
  Incident, IncidentStatus, IntakeReport, IntakeStatus, Observation, ObservationStatus,
}
use civicbrain_v.Intake.Status.{calculate_intake_status_from_children}
use civicbrain_v.Intake.Vision.{DetectedDefect}
use civicbrain_v.Intake.Routing.{Detected, IntakeDb, RoutingCall, route_and_deduplicate_observation}
use civicbrain_v.Store.{Db}

-- The arguments, what PostGIS and the clock answer, and the key and the token that are drawn.
pub record PhotoCall : Type 0 where
  pub lower : Text → Text
  pub distance : Point → Point → ℕ
  pub now : ℕ
  pub organization_id : ℕ
  pub report_id : ℕ
  pub tracking_token : Text
  pub ward_id : Option ℕ
  pub description : Option Text
  pub place : Point

-- The tables that are only read.
pub record Reference : Type 0 where
  pub organizations : List ℕ
  pub categories : List TaxonomyCategory

-- A detected defect with the keys that are drawn for its observation and for a new incident.
pub record Drawn : Type 0 where
  pub defect : DetectedDefect
  pub observation_id : ℕ
  pub incident_id : ℕ

pub data PhotoError : Type 0 where
  unknown_organization no_department multiple_categories routing_raised : PhotoError

pub data PhotoOutcome (A : Type 0) : Type 0 where
  processed : A → PhotoOutcome A
  failed : PhotoError → PhotoOutcome A

infixl 5 ◌>>=◌
abbrev pub ◌>>=◌ : {A B : Type 0} → PhotoOutcome A → (A → PhotoOutcome B) → PhotoOutcome B
processed a >>= f = f a
failed e >>= f = failed e

abbrev pub is_approved : CategoryStatus → Bool
is_approved CategoryStatus.approved = true
is_approved _ = false

abbrev pub categories_of : ℕ → Text → List TaxonomyCategory → List TaxonomyCategory
categories_of org code = select (λ (c : TaxonomyCategory).
    c.organization_id == org && text_eq c.code code && is_approved c.status)

abbrev pub or_missing : Option Department → PhotoOutcome ℕ
or_missing none = failed PhotoError.no_department
or_missing (some d) = processed d.id

-- The department with the code of the defect, or the first of the organization.
abbrev pub by_code : ℕ → Text → List Department → PhotoOutcome ℕ
by_code org code ds =
    elim (find (λ (d : Department). d.organization_id == org && text_eq d.code code) ds) [
      | some d ↦ processed d.id
      | none ↦ or_missing (find (λ (d : Department). d.organization_id == org) ds)
    ]

-- The department of the approved category; `scalar_one_or_none` raises on two.
abbrev pub by_category : ℕ → Text → List Department → List TaxonomyCategory → PhotoOutcome ℕ
by_category org code ds [] = by_code org code ds
by_category org code ds (c ∷ []) = processed c.department_id
by_category org code ds (_ ∷ _ ∷ _) = failed PhotoError.multiple_categories

abbrev pub add_observation : ℕ → ℕ → IntakeDb → IntakeDb
add_observation id report_id s = record s {
  db = record s.db {
    observations =
        s.db.observations
        ++ record {
          id = id;
          intake_report_id = report_id;
          incident_id = none;
          status = ObservationStatus.detected;
        }
          ∷ [];
  };
}

-- `defect.severity_hint or 1`
abbrev pub severity_or_one : Option ℕ → ℕ
severity_or_one none = 1
severity_or_one (some k) = if k == 0 then 1 else k

abbrev pub routing_call : PhotoCall → ℕ → ℕ → RoutingCall
routing_call call ward incident_id = record {
  lower = call.lower;
  distance = call.distance;
  now = call.now;
  incident_id = incident_id;
  organization_id = call.organization_id;
  ward_id = ward;
  description = call.description;
  place = call.place;
}

abbrev pub observed : ℕ → Drawn → Detected
observed department d = record {
  id = d.observation_id;
  department_id = department;
  category_code = d.defect.category_code;
  severity_score = severity_or_one d.defect.severity_hint;
}

-- `child_incident_statuses.append(incident.status)`
abbrev pub with_status :
    List IncidentStatus
    → Option (Incident × IntakeDb)
    → PhotoOutcome (List IncidentStatus × IntakeDb)
with_status statuses none = failed PhotoError.routing_raised
with_status statuses (some (i, s)) = processed (statuses ++ i.status ∷ [], s)

-- Routing, if the defect is not left to a person and the ward is known.
abbrev pub routed_defect :
    PhotoCall
    → Option ℕ
    → ℕ
    → Drawn
    → List IncidentStatus
    → IntakeDb
    → PhotoOutcome (List IncidentStatus × IntakeDb)
routed_defect call none department d statuses s = processed (statuses, s)
routed_defect call (some ward) department d statuses s =
    if d.defect.needs_manual_triage
    then processed (statuses, s)
    else with_status statuses (
        route_and_deduplicate_observation (routing_call call ward d.incident_id)
          (observed department d) s)

-- One round of the loop.
unfoldable pub process_defect :
    PhotoCall
    → Reference
    → Drawn
    → List IncidentStatus
    → IntakeDb
    → PhotoOutcome (List IncidentStatus × IntakeDb)
process_defect call tables d statuses s =
    by_category call.organization_id d.defect.category_code s.db.departments
      (categories_of call.organization_id d.defect.category_code tables.categories)
    >>= λ department.
        routed_defect call call.ward_id department d statuses
          (add_observation d.observation_id call.report_id s)

unfoldable pub process_defects :
    PhotoCall
    → Reference
    → List Drawn
    → List IncidentStatus
    → IntakeDb
    → PhotoOutcome (List IncidentStatus × IntakeDb)
unfolding process_defect
process_defects call tables [] statuses s = processed (statuses, s)
process_defects call tables (d ∷ ds) statuses s =
    process_defect call tables d statuses s >>= λ r. process_defects call tables ds r.0 r.1

abbrev pub add_report : PhotoCall → IntakeDb → IntakeDb
add_report call s = record s {
  db = record s.db {
    reports =
        s.db.reports
        ++ record {
          id = call.report_id;
          organization_id = call.organization_id;
          status = IntakeStatus.submitted;
          tracking_token = some call.tracking_token;
        }
          ∷ [];
  };
}

abbrev pub set_status : ℕ → IntakeStatus → IntakeDb → IntakeDb
set_status report_id status s = record s {
  db = record s.db {
    reports =
        modify (λ (r : IntakeReport). r.id == report_id)
          (λ (r : IntakeReport). record r { status = status }) s.db.reports;
  };
}

-- The status of the parent report.
abbrev pub finish_report : ℕ → List Drawn → List IncidentStatus → IntakeDb → IntakeDb
finish_report report_id ds [] s =
    if all (λ (d : Drawn). d.defect.needs_manual_triage) ds
    then set_status report_id IntakeStatus.submitted s
    else s
finish_report report_id ds (x ∷ statuses) s =
    set_status report_id (calculate_intake_status_from_children (x ∷ statuses)) s

unfoldable pub process_photo_intake :
    PhotoCall → Reference → List Drawn → IntakeDb → PhotoOutcome IntakeDb
unfolding process_defects
process_photo_intake call tables ds s =
    if elem call.organization_id tables.organizations
    then (process_defects call tables ds [] (add_report call s) >>= λ r.
        processed (finish_report call.report_id ds r.0 r.1))
    else failed PhotoError.unknown_organization
