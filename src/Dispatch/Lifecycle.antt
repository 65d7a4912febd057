-- ===== src/Dispatch/Lifecycle.antt =====
-- The operations of civicbrain/domain/dispatch/services.py and of civicbrain/api/v1/incidents.py
-- as the steps of one transition system on the database, each call a transaction of its own.
pub mod Invariant
use civicbrain_v.Base.{ℕ, List, Option, ◌≡◌, ◌≢◌, All}
use civicbrain_v.Text.{Text}
use civicbrain_v.Geo.{Within}
use civicbrain_v.Dispatch.Models.{
  WorkOrder, DispatchConflictReview, ClientMutationItem, MutationResult,
}
use civicbrain_v.Dispatch.WorkOrders.{
  Evidence, create_work_order, start_work_order, resolve_work_order,
}
use civicbrain_v.Dispatch.Citizen.{
  citizen_confirm_report, citizen_dispute_report, evaluate_auto_confirm_cron,
}
use civicbrain_v.Dispatch.Sync.{process_mutations}
use civicbrain_v.Dispatch.Answers.{Draw}
use civicbrain_v.Dispatch.Conflicts.{Ruling, adjudicate_dispatch_conflict}
use civicbrain_v.Intake.Models.{Incident}
use civicbrain_v.Intake.Progress.{StatusUpdate, update_incident_status}
use civicbrain_v.Store.{Db, Clock, ok}

-- The calls that recompute the reports that they affect.
pub data Service (within : Within) (db db' : Db) : Type 0 where
  -- `uuid4()` gives a new id.
  create :
      (clock : Clock) (fresh org incident department : ℕ) (worker : Option ℕ) (w : WorkOrder)
      → All (λ v. v.id ≢ fresh) db.work_orders
      → All (λ r. r.work_order_id ≢ fresh) db.reviews
      → create_work_order clock fresh org incident department worker db ≡ ok (w, db')
      → Service within db db'
  start :
      (clock : Clock) (id worker : ℕ) (w : WorkOrder)
      → start_work_order clock id worker db ≡ ok (w, db')
      → Service within db db'
  resolve :
      (clock : Clock) (id worker : ℕ) (e : Evidence) (w : WorkOrder)
      → resolve_work_order within clock id worker e db ≡ ok (w, db')
      → Service within db db'
  cron : (now : ℕ) → (evaluate_auto_confirm_cron now db).1 ≡ db' → Service within db db'
  push :
      (clock : Clock) (worker : ℕ) (ms : List (ClientMutationItem × Draw))
      (rs : List MutationResult)
      → process_mutations within clock worker ms db ≡ ok (rs, db')
      → Service within db db'
  adjudicate :
      (clock : Clock) (id : ℕ) (ruling : Ruling) (r : DispatchConflictReview)
      → adjudicate_dispatch_conflict clock id ruling db ≡ ok (r, db')
      → Service within db db'
  update :
      (now id : ℕ) (u : StatusUpdate) (i : Incident)
      → update_incident_status now id u db ≡ ok (i, db')
      → Service within db db'

-- The calls by which a citizen decides on a report.
pub data Citizen (db db' : Db) : Type 0 where
  confirm :
      (now : ℕ) (token : Text) (ids : List ℕ)
      → citizen_confirm_report now token db ≡ ok (ids, db')
      → Citizen db db'
  dispute :
      (now : ℕ) (token reason : Text) (ids : List ℕ)
      → citizen_dispute_report now token reason db ≡ ok (ids, db')
      → Citizen db db'

-- What the database can become.
pub data Reach (within : Within) (start : Db) : Db → Type 0 where
  here : Reach within start start
  serve : {db db' : Db} → Reach within start db → Service within db db' → Reach within start db'
  decide : {db db' : Db} → Reach within start db → Citizen db db' → Reach within start db'

-- What it can become where no citizen decides.
pub data Served (within : Within) (start : Db) : Db → Type 0 where
  here : Served within start start
  serve : {db db' : Db} → Served within start db → Service within db db' → Served within start db'
