-- ===== src/Dispatch/Sync.antt =====
-- civicbrain/domain/dispatch/services.py: process_field_sync.
-- Each step of the loop is a function of its own: the idempotency check, the handling of a new
-- mutation, of a start, of a resolution, and of a resolution whose evidence has passed.
pub mod Submitted
pub mod Cases
pub mod Outcome
pub mod Gate
pub mod Loop
pub mod Log
pub mod Replay
pub mod Reopen
use civicbrain_v.Base.{
  ℕ, ◌+◌, List, [], ◌∷◌, ◌++◌, Bool, true, false, ◌&&◌, ◌||◌, Option, some, none, if◌then◌else◌,
  ◌==◌, leb, find, select,
}
use civicbrain_v.Text.{Text, is_blank}
use civicbrain_v.Geo.{Point, Within, make_point}
use civicbrain_v.Dispatch.Models.{
  WorkOrder, SyncMutationStatus, ConflictReviewStatus, Action, Payload, Reason, SyncMutationLog,
  DispatchConflictReview, ClientMutationItem, MutationResult, FieldSyncResponse, is_completed,
  is_cancelled,
}
use civicbrain_v.Dispatch.WorkOrders.{
  assigned_to_other, is_empty, begin_work, begin_incident, Evidence, complete_work,
  resolve_incident, near_incident, update_incident,
}
use civicbrain_v.Store.{
  Db, Error, Result, ok, err, Clock, refers_to, find_work_order, change_work_order,
}
use civicbrain_v.Dispatch.Answers.{
  Draw, Call, Verdict, log_entry, answer, conclude, applied, refused,
}

-- `mut.action == "start"`
unfoldable pub process_start : Call → WorkOrder → Db → MutationResult × Db
process_start c w db =
    if assigned_to_other w c.worker_id
    then conclude c (refused SyncMutationStatus.conflict Reason.reassigned_by_dispatcher w) db
    else if is_cancelled w.status
    then conclude c (refused SyncMutationStatus.conflict Reason.cancelled_by_dispatcher w) db
    else conclude c (applied w) (
        update_incident w.incident_id (begin_incident c.mut.captured_at)
          (change_work_order c.mut.entity_id (begin_work c.mut.captured_at c.clock.transaction) db))

-- The row of the review queue that preserves valid evidence.
abbrev pub new_review : Call → WorkOrder → Evidence → Reason → DispatchConflictReview
new_review c w e reason = record {
  id = c.draw.review_id;
  organization_id = w.organization_id;
  work_order_id = w.id;
  incident_id = w.incident_id;
  worker_id = c.worker_id;
  client_mutation_id = c.mut.client_mutation_id;
  conflict_type = reason;
  submitted_notes = e.notes;
  submitted_media_urls = e.media;
  submitted_geom = e.place;
  captured_at = c.mut.captured_at;
  status = ConflictReviewStatus.pending;
  reviewed_by = none;
  reviewed_at = none;
  review_notes = none;
  created_at = c.clock.transaction;
}

abbrev pub hold : Call → WorkOrder → Evidence → Reason → Db → MutationResult × Db
hold c w e reason db =
    conclude c
      (record (refused SyncMutationStatus.conflict reason w) { review_id = some c.draw.review_id })
      (record db { reviews = db.reviews ++ new_review c w e reason ∷ [] })

-- The evidence has passed: the concurrency cases.
unfoldable pub settle : Call → WorkOrder → Evidence → Db → MutationResult × Db
settle c w e db =
    if is_completed w.status
    then conclude c (refused SyncMutationStatus.conflict Reason.conflict_already_completed w) db
    else if assigned_to_other w c.worker_id
    then hold c w e Reason.reassigned_by_dispatcher db
    else if is_cancelled w.status
    then hold c w e Reason.cancelled_by_dispatcher db
    else conclude c (applied w) (
        update_incident w.incident_id (resolve_incident c.mut.captured_at e) (
          change_work_order c.mut.entity_id (complete_work c.mut.captured_at c.clock.transaction e)
            db))

-- The notes and photos of a payload, if none of the four tests for missing evidence holds.
unfoldable pub submitted_evidence : Payload → Option (Text × List Text)
submitted_evidence p = elim p.resolution_notes [
  | none ↦ none
  | some notes ↦ elim p.resolution_media_urls [
    | none ↦ none
    | some media ↦ if is_blank notes || is_empty media then none else some (notes, media)
  ]
]

-- The submitted place, if it is within 50 m of the incident.
unfoldable pub submitted_place : Within → WorkOrder → Payload → Db → Option Point
submitted_place within w p db = elim (make_point p.longitude p.latitude) [
  | none ↦ none
  | some place ↦ if near_incident within w.incident_id place db.incidents then some place else none
]

-- `mut.action == "resolve"`
unfoldable pub process_resolve : Within → Call → WorkOrder → Db → MutationResult × Db
process_resolve within c w db = elim (submitted_evidence c.mut.payload) [
  | none ↦ conclude c (refused SyncMutationStatus.rejected Reason.missing_evidence w) db
  | some (notes, media) ↦ elim (submitted_place within w c.mut.payload db) [
    | none ↦ conclude c (refused SyncMutationStatus.rejected Reason.resolution_out_of_bounds w) db
    | some place ↦ settle c w (record { notes = notes; media = media; place = place }) db
  ]
]

unfoldable pub process_action : Within → Action → Call → WorkOrder → Db → MutationResult × Db
process_action within Action.start c w db = process_start c w db
process_action within Action.resolve c w db = process_resolve within c w db
process_action within (Action.other _) c w db =
    conclude c (refused SyncMutationStatus.rejected Reason.unsupported_action w) db

-- A mutation that is not in the log. Where there is no such work order, the entry that is added
-- to the log has a random organization, which its foreign key forbids: the flush raises.
unfoldable pub process_new : Within → Call → Db → Result (MutationResult × Db)
process_new within c db = elim (find_work_order c.mut.entity_id db) [
  | none ↦ err Error.integrity_error
  | some w ↦ ok (process_action within c.mut.action c w db)
]

-- The entry of this worker with this id; the table holds at most one.
abbrev pub is_entry : ℕ → ℕ → SyncMutationLog → Bool
is_entry worker cmid l = l.worker_id == worker && l.client_mutation_id == cmid

abbrev pub find_entry : ℕ → ℕ → Db → Option SyncMutationLog
find_entry worker cmid db = find (is_entry worker cmid) db.mutation_log

-- `scalar_one_or_none` on the ids of the reviews of a client mutation, which no constraint of the
-- table makes unique.
unfoldable pub one_review_id : List DispatchConflictReview → Result (Option ℕ)
one_review_id [] = ok none
one_review_id (r ∷ []) = ok (some r.id)
one_review_id (_ ∷ _ ∷ _) = err Error.multiple_results

abbrev pub reviews_of : ℕ → Db → List DispatchConflictReview
reviews_of cmid db = select (λ r. r.client_mutation_id == cmid) db.reviews

abbrev pub is_conflict : SyncMutationStatus → Bool
is_conflict SyncMutationStatus.conflict = true
is_conflict _ = false

abbrev pub logged_answer : SyncMutationLog → Option ℕ → ℕ → MutationResult
logged_answer l review cmid = record {
  client_mutation_id = cmid;
  status = l.status;
  conflict_reason = l.conflict_reason;
  conflict_review_id = review;
}

-- A mutation that is in the log gets the logged outcome.
unfoldable pub replay : ℕ → SyncMutationLog → Db → Result (MutationResult × Db)
replay cmid l db =
    if is_conflict l.status
    then elim (one_review_id (reviews_of cmid db)) [
      | err e ↦ err e
      | ok review ↦ ok (logged_answer l review cmid, db)
    ]
    else ok (logged_answer l none cmid, db)

-- One round of the loop over `push_request.mutations`.
unfoldable pub process_mutation : Within → Call → Db → Result (MutationResult × Db)
process_mutation within c db = elim (find_entry c.worker_id c.mut.client_mutation_id db) [
  | some l ↦ replay c.mut.client_mutation_id l db
  | none ↦ process_new within c db
]

-- The loop. Each mutation comes with what `uuid4` gives for it.
unfoldable pub process_mutations :
    Within → Clock → ℕ → List (ClientMutationItem × Draw) → Db → Result (List MutationResult × Db)
process_mutations within clock worker [] db = ok ([], db)
process_mutations within clock worker ((mut, draw) ∷ ms) db =
    let c : Call = record { clock = clock; draw = draw; worker_id = worker; mut = mut } in
    elim (process_mutation within c db) [
      | err e ↦ err e
      | ok (r, db') ↦ elim (process_mutations within clock worker ms db') [
        | err e ↦ err e
        | ok (rs, db'') ↦ ok (r ∷ rs, db'')
      ]
    ]

-- `WorkOrder.updated_at >= since_cursor`, where there is a cursor.
abbrev pub is_newer : Option ℕ → WorkOrder → Bool
is_newer none w = true
is_newer (some cursor) w = leb cursor w.updated_at

-- The work orders of the worker that the pull returns.
abbrev pub server_changes : ℕ → Option ℕ → Db → List WorkOrder
server_changes worker cursor db =
    select (λ w. refers_to w.assigned_worker_id worker && is_newer cursor w) db.work_orders

-- `later` is the second `datetime.now(UTC)`, the cursor of the next pull.
pub process_field_sync :
    Within
    → Clock
    → ℕ
    → ℕ
    → Option ℕ
    → List (ClientMutationItem × Draw)
    → Db
    → Result (FieldSyncResponse × Db)
process_field_sync within clock later worker cursor ms db =
    elim (process_mutations within clock worker ms db) [
      | err e ↦ err e
      | ok (results, db') ↦ ok (
        record {
          mutation_results = results;
          server_changes = server_changes worker cursor db';
          new_cursor = later;
        },
        db',
      )
    ]
