-- ===== src/Tests/Offline.antt =====
-- Offline pushes in the city.
use civicbrain_v.Base.{
  ℕ, List, [], ◌∷◌, ◌≡◌, ◌⊎◌, ◌==◌, ◌+◌, Option, some, none, refl, arith, Bool-cases, inl, inr,
}
use civicbrain_v.Text.{is_blank, is_space}
use civicbrain_v.Dispatch.Models.{
  WorkOrder, Action, Payload, ClientMutationItem, MutationResult, SyncMutationStatus, Reason,
}
use civicbrain_v.Dispatch.Sync.{
  process_mutations, process_mutation, process_new, process_action, process_start, process_resolve,
  settle, submitted_evidence, submitted_place, one_review_id, replay,
}
use civicbrain_v.Dispatch.Answers.{Draw, Call}
use civicbrain_v.Dispatch.Sync.Cases.{Outcome}
use civicbrain_v.Dispatch.Sync.Outcome.{process_new-Outcome}
use civicbrain_v.Dispatch.Sync.Log.{Backs, Pointwise, process_mutations-Backs}
use civicbrain_v.Dispatch.Sync.Replay.{SameOutcome, HasSingleReviews, process_mutations_again}
use civicbrain_v.Dispatch.WorkOrders.{complete_work}
use civicbrain_v.Store.{Db, Error, ok, err, Clock, find_work_order}
use civicbrain_v.Tests.City.{near, clock, city, order, proof, after}

abbrev payload : Payload
payload = record {
  resolution_notes = some (102 ∷ []);
  resolution_media_urls = some ((112 ∷ []) ∷ []);
  latitude = some 12;
  longitude = some 77;
}

abbrev item : ℕ → Action → ClientMutationItem
item id action = record {
  client_mutation_id = id;
  entity_type = [];
  entity_id = 20;
  action = action;
  base_version = 1;
  captured_at = 500;
  payload = payload;
}

abbrev draw : ℕ → Draw
draw n = record { log_id = n; review_id = n + 1 }

-- Worker 6, to whom the order is not assigned, resolves it, starts it, and repeats the first.
abbrev pushed : List (ClientMutationItem × Draw)
pushed =
    (item 500 Action.resolve, draw 60)
    ∷ (item 501 Action.start, draw 70)
    ∷ (item 500 Action.resolve, draw 80)
    ∷ []

abbrev again : List (ClientMutationItem × Draw)
again =
    (item 500 Action.resolve, draw 61)
    ∷ (item 501 Action.start, draw 71)
    ∷ (item 500 Action.resolve, draw 81)
    ∷ []

abbrev quiet : Db
quiet = record city { reviews = [] }

abbrev refused : ℕ → Option ℕ → MutationResult
refused id review = record {
  client_mutation_id = id;
  status = SyncMutationStatus.conflict;
  conflict_reason = some Reason.reassigned_by_dispatcher;
  conflict_review_id = review;
}

abbrev answers : List MutationResult
answers = refused 500 (some 61) ∷ refused 501 none ∷ refused 500 (some 61) ∷ []

abbrev synced : Db
synced = after (process_mutations near clock 6 pushed quiet)

is_synced : process_mutations near clock 6 pushed quiet ≡ ok (answers, synced)
unfolding process_mutations process_mutation process_new process_action process_start
    process_resolve settle submitted_evidence submitted_place is_blank is_space one_review_id replay
is_synced = refl

synced_single : HasSingleReviews synced
unfolding process_mutations process_mutation process_new process_action process_start
    process_resolve settle submitted_evidence submitted_place is_blank is_space one_review_id replay
synced_single k = elim (Bool-cases (500 == k)) [
  | inl e ↦ (some 61, ground arith)
  | inr e ↦ (none, ground arith)
]

abbrev later : Clock
later = record { now = 5000; transaction = 4990 }

process_mutations_again_example :
    (ss : List MutationResult) × (process_mutations near later 6 again synced ≡ ok (ss, synced))
    × Pointwise SameOutcome answers ss
process_mutations_again_example =
    process_mutations_again near clock later 6 pushed again quiet is_synced synced_single refl

process_mutations-Backs_example : Pointwise (Backs 6 synced) pushed answers
process_mutations-Backs_example = process_mutations-Backs near clock 6 pushed quiet is_synced

abbrev started : Call
started = record { clock = clock; draw = draw 60; worker_id = 5; mut = item 502 Action.start }

process_new-Outcome_example :
    ((find_work_order started.mut.entity_id city ≡ none)
      × (process_new near started city ≡ err Error.integrity_error))
    ⊎ ((r : MutationResult × Db) × (process_new near started city ≡ ok r)
        × Outcome near started city r)
process_new-Outcome_example = process_new-Outcome near started city

-- The order is completed, and its worker's phone still has a start to send.
abbrev done : WorkOrder
done = complete_work clock.now clock.transaction proof (order (some 5))

abbrev finished : Db
finished = record city { work_orders = done ∷ [] }
