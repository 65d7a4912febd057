-- ===== src/Dispatch/Answers.antt =====
-- The rows and answers that process_field_sync of
-- civicbrain/domain/dispatch/services.py makes: a log entry and an answer for
-- every mutation of a work order that is there, and a review for evidence that met a decision of the
-- dispatcher.
use civicbrain_v.Base.{ℕ, ◌+◌, [], ◌∷◌, ◌++◌, Option, some, none}
use civicbrain_v.Dispatch.Models.{
  WorkOrder, SyncMutationStatus, Reason, SyncMutationLog, ClientMutationItem, MutationResult,
}
use civicbrain_v.Store.{Db, Clock}

-- What `uuid4` gives while one mutation is handled.
pub record Draw : Type 0 where
  pub log_id : ℕ
  pub review_id : ℕ

-- What the handling of one mutation depends on.
pub record Call : Type 0 where
  pub clock : Clock
  pub draw : Draw
  pub worker_id : ℕ
  pub mut : ClientMutationItem

-- How a mutation ends: what is logged and what is answered.
pub record Verdict : Type 0 where
  pub organization_id : ℕ
  pub status : SyncMutationStatus
  pub reason : Option Reason
  pub server_version : Option ℕ
  pub review_id : Option ℕ

abbrev pub log_entry : Call → Verdict → SyncMutationLog
log_entry c v = record {
  id = c.draw.log_id;
  client_mutation_id = c.mut.client_mutation_id;
  organization_id = v.organization_id;
  worker_id = c.worker_id;
  entity_type = c.mut.entity_type;
  entity_id = c.mut.entity_id;
  action = c.mut.action;
  payload = c.mut.payload;
  status = v.status;
  conflict_reason = v.reason;
  server_version = v.server_version;
  created_at = c.clock.transaction;
}

abbrev pub answer : Call → Verdict → MutationResult
answer c v = record {
  client_mutation_id = c.mut.client_mutation_id;
  status = v.status;
  conflict_reason = v.reason;
  conflict_review_id = v.review_id;
}

-- Every branch with a work order ends by `db.add(log_entry)` and an appended `MutationResult`.
abbrev pub conclude : Call → Verdict → Db → MutationResult × Db
conclude c v db = (answer c v, record db { mutation_log = db.mutation_log ++ log_entry c v ∷ [] })

abbrev pub applied : WorkOrder → Verdict
applied w = record {
  organization_id = w.organization_id;
  status = SyncMutationStatus.applied;
  reason = none;
  server_version = some (w.version + 1);
  review_id = none;
}

abbrev pub refused : SyncMutationStatus → Reason → WorkOrder → Verdict
refused status reason w = record {
  organization_id = w.organization_id;
  status = status;
  reason = some reason;
  server_version = some w.version;
  review_id = none;
}
