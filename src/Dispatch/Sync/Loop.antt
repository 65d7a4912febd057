-- ===== src/Dispatch/Sync/Loop.antt =====
-- About the loop of process_field_sync of civicbrain/domain/dispatch/services.py:
-- an induction rule, and the invariants over a whole push.
use civicbrain_v.Base.{ℕ, List, [], ◌∷◌, some, none, ◌≡◌, arith, Option-cases, inl, inr, ◌⊎◌, subst}
use civicbrain_v.Geo.{Within}
use civicbrain_v.Intake.Recompute.Consistency.{IsConsistent}
use civicbrain_v.Dispatch.Models.{MutationResult, ClientMutationItem, SyncMutationLog}
use civicbrain_v.Dispatch.Evidence.{IsEvidenced}
use civicbrain_v.Dispatch.Sync.{
  process_new, process_mutation, process_mutations, replay, find_entry,
}
use civicbrain_v.Dispatch.Answers.{Call, Draw}
use civicbrain_v.Dispatch.Sync.Outcome.{process_new-eq-ok}
use civicbrain_v.Dispatch.Sync.Gate.{Outcome-IsEvidenced, Outcome-IsConsistent}
use civicbrain_v.Store.{Db, ok, Clock, Result-cases}

abbrev pub call : Clock → ℕ → ClientMutationItem × Draw → Call
call clock worker m = record { clock = clock; draw = m.1; worker_id = worker; mut = m.0 }

-- A replay changes nothing.
pub replay-eq-ok :
    (cmid : ℕ) (l : SyncMutationLog) (db : Db) {r : MutationResult} {db' : Db}
    → replay cmid l db ≡ ok (r, db')
    → (db' ≡ db)
      × (r.client_mutation_id ≡ cmid)
      × (r.status ≡ l.status)
      × (r.conflict_reason ≡ l.conflict_reason)
unfolding replay
replay-eq-ok cmid l db h = ground arith

-- What one round does: it replays the logged entry, or handles a new mutation.
pub process_mutation-eq-ok :
    (within : Within) (c : Call) (db : Db) {r : MutationResult} {db' : Db}
    → process_mutation within c db ≡ ok (r, db')
    → ((l : SyncMutationLog) × (find_entry c.worker_id c.mut.client_mutation_id db ≡ some l)
        × (replay c.mut.client_mutation_id l db ≡ ok (r, db')))
      ⊎ ((find_entry c.worker_id c.mut.client_mutation_id db ≡ none)
          × (process_new within c db ≡ ok (r, db')))
unfolding process_mutation
process_mutation-eq-ok within c db h =
    elim (Option-cases (find_entry c.worker_id c.mut.client_mutation_id db)) [
      | inl e ↦ inr (e, ground arith)
      | inr (l, e) ↦ inl (l, e, ground arith)
    ]

pub process_mutations-eq-ok :
    (within : Within) (clock : Clock) (worker : ℕ) (m : ClientMutationItem × Draw)
    (ms : List (ClientMutationItem × Draw)) (db : Db) {rs : List MutationResult} {db'' : Db}
    → process_mutations within clock worker (m ∷ ms) db ≡ ok (rs, db'')
    → (r : MutationResult) × (rest : List MutationResult) × (db' : Db) × (process_mutation within
          (call clock worker m)
          db
        ≡ ok (r, db'))
      × (process_mutations within clock worker ms db' ≡ ok (rest, db''))
      × (rs ≡ r ∷ rest)
unfolding process_mutations
process_mutations-eq-ok within clock worker (mut, draw) ms db h =
    elim (Result-cases (process_mutation within (call clock worker (mut, draw)) db)) [
      | inr (e, q) ↦ ground arith
      | inl ((r, db'), q) ↦ elim (Result-cases (process_mutations within clock worker ms db')) [
        | inr (e, p) ↦ ground arith
        | inl ((rest, last), p) ↦ (r, rest, db', ground arith, ground arith, ground arith)
      ]
    ]

pub process_mutations-step :
    (within : Within) (clock : Clock) (worker : ℕ) (m : ClientMutationItem × Draw)
    (ms : List (ClientMutationItem × Draw)) (db : Db) {r : MutationResult}
    {rs : List MutationResult} {db' db'' : Db}
    → process_mutation within (call clock worker m) db ≡ ok (r, db')
    → process_mutations within clock worker ms db' ≡ ok (rs, db'')
    → process_mutations within clock worker (m ∷ ms) db ≡ ok (r ∷ rs, db'')
unfolding process_mutations
process_mutations-step within clock worker (mut, draw) ms db p q = ground arith

-- What every round keeps, the loop keeps.
pub process_mutations_inv {ℓ} :
    (P : Db → Type ℓ) (within : Within) (clock : Clock) (worker : ℕ)
    → ((c : Call) (db : Db) (r : MutationResult × Db)
        → process_new within c db ≡ ok r
        → P db
        → P r.1)
    → (ms : List (ClientMutationItem × Draw)) (db : Db) {rs : List MutationResult} {db' : Db} → P db
    → process_mutations within clock worker ms db ≡ ok (rs, db')
    → P db'
unfolding process_mutations
process_mutations_inv P within clock worker keep [] db {rs} {db'} h e =
    let same : db ≡ db' = cc in subst P same h
process_mutations_inv P within clock worker keep (m ∷ ms) db h e =
    let (r, rest, next, step, more, _) = process_mutations-eq-ok within clock worker m ms db e in
    process_mutations_inv P within clock worker keep ms next
      (elim (process_mutation-eq-ok within (call clock worker m) db step) [
        | inl (l, _, same) ↦ rw (replay-eq-ok m.0.client_mutation_id l db same).0 h
        | inr (_, eq) ↦ keep (call clock worker m) db (r, next) eq h
      ])
      more

-- After a push every completed work order and every held review still carries sound evidence.
pub process_mutations-IsEvidenced :
    (within : Within) (clock : Clock) (worker : ℕ) (ms : List (ClientMutationItem × Draw)) (db : Db)
    {rs : List MutationResult} {db' : Db}
    → IsEvidenced within db
    → process_mutations within clock worker ms db ≡ ok (rs, db')
    → IsEvidenced within db'
process_mutations-IsEvidenced within clock worker =
    process_mutations_inv (IsEvidenced within) within clock worker
      (λ c db r e h. Outcome-IsEvidenced within c db h (process_new-eq-ok within c db e))

-- After a push every report still agrees with its incidents.
pub process_mutations-IsConsistent :
    (within : Within) (clock : Clock) (worker : ℕ) (ms : List (ClientMutationItem × Draw)) (db : Db)
    {rs : List MutationResult} {db' : Db}
    → IsConsistent db
    → process_mutations within clock worker ms db ≡ ok (rs, db')
    → IsConsistent db'
process_mutations-IsConsistent within clock worker =
    process_mutations_inv IsConsistent within clock worker
      (λ c db r e h. Outcome-IsConsistent within c db h (process_new-eq-ok within c db e))
