-- ===== src/Dispatch/Sync/Log.antt =====
-- About the mutation log that process_field_sync of
-- civicbrain/domain/dispatch/services.py writes.
use civicbrain_v.Base.{
  ℕ, List, [], ◌∷◌, ◌++◌, some, ◌≡◌, sym, ◌∙◌, ap, inl, inr, find, find-append_some,
  find-append_none, ==_refl, subst,
}
use mathlib.Core.List.{append-nil, append_assoc}
use civicbrain_v.Geo.{Within}
use civicbrain_v.Dispatch.Models.{
  MutationResult, ClientMutationItem, SyncMutationLog, SyncMutationStatus,
}
use civicbrain_v.Dispatch.WorkOrders.{begin_work, begin_incident, complete_work, resolve_incident}
use civicbrain_v.Dispatch.WorkOrders.Frame.{update_incident_frame}
use civicbrain_v.Dispatch.Sync.{process_mutation, process_mutations, is_entry, find_entry}
use civicbrain_v.Dispatch.Answers.{Call, Draw, Verdict, applied, refused, log_entry, answer}
use civicbrain_v.Dispatch.Sync.Cases.{Outcome, logged, held, started, resolved}
use civicbrain_v.Dispatch.Sync.Outcome.{process_new-eq-ok}
use civicbrain_v.Dispatch.Sync.Loop.{
  call, replay-eq-ok, process_mutation-eq-ok, process_mutations-eq-ok, process_mutations_inv,
}
use civicbrain_v.Store.{Db, ok, Clock, change_work_order}

-- A new mutation adds one entry, with the answered status and reason.
abbrev Adds : Call → Db → MutationResult × Db → Type 0
Adds c db r =
    (v : Verdict) × (r.0 ≡ answer c v) × (r.1.mutation_log ≡ db.mutation_log ++ log_entry c v ∷ [])

Outcome-Adds :
    (within : Within) (c : Call) (db : Db) {r : MutationResult × Db}
    → Outcome within c db r
    → Adds c db r
Outcome-Adds within c db {r} (logged w status reason _ _ _ eq) =
    (refused status reason w, rw eq, rw eq)
Outcome-Adds within c db (held w e reason _ _ _ _ _ _ _ eq) = (
  record (refused SyncMutationStatus.conflict reason w) { review_id = some c.draw.review_id },
  rw eq,
  rw eq,
)
Outcome-Adds within c db (started w _ _ _ _ _ eq) = (
  applied w,
  rw eq,
  rw eq (
      ap (λ (es : List SyncMutationLog). es ++ log_entry c (applied w) ∷ [])
        (ap (λ (d : Db). d.mutation_log)
          (update_incident_frame w.incident_id (begin_incident c.mut.captured_at) (
            change_work_order c.mut.entity_id (begin_work c.mut.captured_at c.clock.transaction)
              db)))),
)
Outcome-Adds within c db (resolved w e _ _ _ _ _ _ _ _ eq) = (
  applied w,
  rw eq,
  rw eq (
      ap (λ (es : List SyncMutationLog). es ++ log_entry c (applied w) ∷ [])
        (ap (λ (d : Db). d.mutation_log)
          (update_incident_frame w.incident_id (resolve_incident c.mut.captured_at e) (
            change_work_order c.mut.entity_id
              (complete_work c.mut.captured_at c.clock.transaction e) db)))),
)

-- The entry that backs an answer.
abbrev pub Backs : ℕ → Db → ClientMutationItem × Draw → MutationResult → Type 0
Backs worker db m r =
    (l : SyncMutationLog) × (find_entry worker m.0.client_mutation_id db ≡ some l)
    × (r.client_mutation_id ≡ m.0.client_mutation_id)
    × (r.status ≡ l.status)
    × (r.conflict_reason ≡ l.conflict_reason)

-- The log of `db'` is that of `db`, with more behind it.
abbrev pub Extends : Db → Db → Type 0
Extends db db' = (es : List SyncMutationLog) × (db'.mutation_log ≡ db.mutation_log ++ es)

Backs-Extends :
    (worker : ℕ) (db db' : Db) (m : ClientMutationItem × Draw) (r : MutationResult)
    → Extends db db'
    → Backs worker db m r
    → Backs worker db' m r
Backs-Extends worker db db' m r (es, grown) (l, found, id, status, reason) = (
  l,
  rw grown (find-append_some (is_entry worker m.0.client_mutation_id) db.mutation_log es found),
  id,
  status,
  reason,
)

find-own :
    (c : Call) (v : Verdict)
    → find (is_entry c.worker_id c.mut.client_mutation_id) (log_entry c v ∷ [])
      ≡ some (log_entry c v)
find-own c v = rw (==_refl c.worker_id, ==_refl c.mut.client_mutation_id)

-- After a round the log has an entry for the mutation, which says what was answered.
round-Backs :
    (within : Within) (clock : Clock) (worker : ℕ) (m : ClientMutationItem × Draw) (db : Db)
    {r : MutationResult} {db' : Db}
    → process_mutation within (call clock worker m) db ≡ ok (r, db')
    → Backs worker db' m r × Extends db db'
round-Backs within clock worker m db {r} {db'} e =
    elim (process_mutation-eq-ok within (call clock worker m) db e) [
      | inl (l, found, same) ↦
          let (unchanged, id, status, reason) = replay-eq-ok m.0.client_mutation_id l db same in
          (
            (l, rw unchanged found, id, status, reason),
            ([], rw unchanged (sym (append-nil db.mutation_log))),
          )
      | inr (absent, eq) ↦
          let c = call clock worker m in
          let (v, said, grown) : Adds c db (r, db') =
            Outcome-Adds within c db (process_new-eq-ok within c db eq) in
          (
            (
              log_entry c v,
              rw grown (
                  find-append_none (is_entry worker m.0.client_mutation_id) db.mutation_log
                    (log_entry c v ∷ []) absent
                  ∙ find-own c v),
              ap (λ (a : MutationResult). a.client_mutation_id) said,
              ap (λ (a : MutationResult). a.status) said,
              ap (λ (a : MutationResult). a.conflict_reason) said,
            ),
            (log_entry c v ∷ [], grown),
          )
    ]

Extends-trans : (a b c : Db) → Extends a b → Extends b c → Extends a c
Extends-trans a b c (es, p) (fs, q) = (
  es ++ fs,
  q ∙ ap (λ (xs : List SyncMutationLog). xs ++ fs) p ∙ append_assoc a.mutation_log es fs,
)

-- A push that returns leaves the mutation log as it was, with new entries behind it.
pub process_mutations-Extends :
    (within : Within) (clock : Clock) (worker : ℕ) (ms : List (ClientMutationItem × Draw)) (db : Db)
    {rs : List MutationResult} {db' : Db}
    → process_mutations within clock worker ms db ≡ ok (rs, db')
    → Extends db db'
process_mutations-Extends within clock worker ms db =
    process_mutations_inv (Extends db) within clock worker
      (λ c d r e h.
        let (v, _, grown) = Outcome-Adds within c d (process_new-eq-ok within c d e) in
        Extends-trans db d r.1 h (log_entry c v ∷ [], grown))
      ms db ([], sym (append-nil db.mutation_log))

-- The two lists have one length, and the relation holds at each place.
abbrev pub Pointwise : {A B : Type 0} → (A → B → Type 0) → List A → List B → Type 0
Pointwise R [] [] = Unit
Pointwise R [] (_ ∷ _) = ⊥
Pointwise R (_ ∷ _) [] = ⊥
Pointwise R (x ∷ xs) (y ∷ ys) = R x y × Pointwise R xs ys

-- A push that returns has answered each mutation in order, and every answer repeats the status and
-- the reason of the entry that the log then has for this worker and this mutation.
pub process_mutations-Backs :
    (within : Within) (clock : Clock) (worker : ℕ) (ms : List (ClientMutationItem × Draw)) (db : Db)
    {rs : List MutationResult} {db' : Db}
    → process_mutations within clock worker ms db ≡ ok (rs, db')
    → Pointwise (Backs worker db') ms rs
unfolding process_mutations
process_mutations-Backs within clock worker [] db {rs} {db'} e =
    let none_left : [] ≡ rs = cc in subst (Pointwise (Backs worker db') []) none_left tt
process_mutations-Backs within clock worker (m ∷ ms) db {rs} {db'} e =
    let (r, rest, next, step, more, eq) = process_mutations-eq-ok within clock worker m ms db e in
    rw eq (
      Backs-Extends worker next db' m r (process_mutations-Extends within clock worker ms next more)
          (round-Backs within clock worker m db step).0,
      process_mutations-Backs within clock worker ms next more,
    )
