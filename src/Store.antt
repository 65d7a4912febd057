-- ===== src/Store.antt =====
-- The tables of the database as one value, and the errors that the services raise.
-- A row is found by its key or by a condition, as the `select` statements do; an assignment to a
-- mapped object is a change of its row, which later queries of the session see (autoflush). What a
-- call that raises has changed is rolled back by `get_db`, so a result has a new database only
-- where the call returns.
use civicbrain_v.Base.{
  ℕ, Bool, false, Option, none, some, List, find, modify, modify_first, ◌==◌, ◌≡◌, refl, ◌⊎◌, inl,
  inr,
}
use civicbrain_v.Directory.Models.{Department}
use civicbrain_v.Intake.Models.{IntakeReport, Incident, Observation}
use civicbrain_v.Dispatch.Models.{WorkOrder, SyncMutationLog, DispatchConflictReview}

pub record Db : Type 0 where
  pub departments : List Department
  pub incidents : List Incident
  pub observations : List Observation
  pub reports : List IntakeReport
  pub work_orders : List WorkOrder
  pub mutation_log : List SyncMutationLog
  pub reviews : List DispatchConflictReview

-- What the services raise. All but the last two are an `HTTPException`.
pub data Error : Type 0 where
  incident_not_found department_not_found work_order_not_found report_not_found conflict_not_found :
      Error
  not_assigned : Error
  already_completed nothing_resolved already_adjudicated : Error
  media_empty notes_empty out_of_bounds : Error
  multiple_results integrity_error : Error

-- The status code of the response.
abbrev pub status_code : Error → ℕ
status_code Error.incident_not_found = 404
status_code Error.department_not_found = 404
status_code Error.work_order_not_found = 404
status_code Error.report_not_found = 404
status_code Error.conflict_not_found = 404
status_code Error.not_assigned = 403
status_code Error.already_completed = 400
status_code Error.nothing_resolved = 400
status_code Error.already_adjudicated = 400
status_code Error.media_empty = 422
status_code Error.notes_empty = 422
status_code Error.out_of_bounds = 422
status_code Error.multiple_results = 500
status_code Error.integrity_error = 500

pub data Result (A : Type 0) : Type 0 where
  ok : A → Result A
  err : Error → Result A

pub Result-cases :
    {A : Type 0} (m : Result A) → ((a : A) × (m ≡ ok a)) ⊎ ((e : Error) × (m ≡ err e))
Result-cases (ok a) = inl (a, refl)
Result-cases (err e) = inr (e, refl)

-- Is the foreign key set, and to this id?
abbrev pub refers_to : Option ℕ → ℕ → Bool
refers_to none k = false
refers_to (some j) k = j == k

-- Two times are needed: `datetime.now(UTC)` of the service, and `now()` of the transaction, which
-- the server writes into `created_at` and `updated_at`.
pub record Clock : Type 0 where
  pub now : ℕ
  pub transaction : ℕ

-- The row of a table with this primary key, of which there is at most one.
abbrev pub find_incident : ℕ → Db → Option Incident
find_incident k db = find (λ i. i.id == k) db.incidents

abbrev pub find_work_order : ℕ → Db → Option WorkOrder
find_work_order k db = find (λ w. w.id == k) db.work_orders

-- Assigns to the fields of the row with this primary key.
abbrev pub change_incident : ℕ → (Incident → Incident) → Db → Db
change_incident k f db = record db { incidents = modify (λ i. i.id == k) f db.incidents }

abbrev pub change_work_order : ℕ → (WorkOrder → WorkOrder) → Db → Db
change_work_order k f db = record db {
  work_orders = modify_first (λ w. w.id == k) f db.work_orders;
}
