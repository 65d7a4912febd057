-- ===== src/Dispatch/Sync/Replay.antt =====
-- About the idempotency check of process_field_sync of
-- civicbrain/domain/dispatch/services.py.
use civicbrain_v.Base.{ℕ, List, [], ◌∷◌, map, Option, none, ◌≡◌, refl, inl, inr, Bool-cases}
use civicbrain_v.Geo.{Within}
use civicbrain_v.Dispatch.Models.{MutationResult, ClientMutationItem}
use civicbrain_v.Dispatch.Sync.{
  process_mutation, process_mutations, replay, one_review_id, reviews_of, is_conflict,
  logged_answer,
}
use civicbrain_v.Dispatch.Answers.{Draw}
use civicbrain_v.Dispatch.Sync.Loop.{call, process_mutations-step}
use civicbrain_v.Dispatch.Sync.Log.{Backs, Pointwise, process_mutations-Backs}
use civicbrain_v.Store.{Db, ok, Clock}

-- Two answers that tell the client the same outcome of the same mutation.
abbrev pub SameOutcome : MutationResult → MutationResult → Type 0
SameOutcome r s =
    (r.client_mutation_id ≡ s.client_mutation_id)
    × (r.status ≡ s.status)
    × (r.conflict_reason ≡ s.conflict_reason)

-- No client mutation has two reviews, so that a replay finds at most one.
abbrev pub HasSingleReviews : Db → Type 0
HasSingleReviews db = (k : ℕ) → (o : Option ℕ) × (one_review_id (reviews_of k db) ≡ ok o)

replay-Backs :
    (worker : ℕ) (db : Db) (m : ClientMutationItem × Draw) (r : MutationResult)
    → HasSingleReviews db
    → (within : Within) (clock : Clock) (draw : Draw) → Backs worker db m r
    → (s : MutationResult) × (process_mutation within (call clock worker (m.0, draw)) db
        ≡ ok (s, db))
      × SameOutcome r s
unfolding process_mutation replay
replay-Backs worker db m r single within clock draw (l, found, id, status, reason) =
    elim (Bool-cases (is_conflict l.status)) [
      | inl e ↦
          let (o, one) = single m.0.client_mutation_id in
          (
            logged_answer l o m.0.client_mutation_id,
            rw (found, e, one, process_mutation, replay),
            (id, status, reason),
          )
      | inr e ↦ (
        logged_answer l none m.0.client_mutation_id,
        rw (found, e, process_mutation, replay),
        (id, status, reason),
      )
    ]

module _ (worker : ℕ) (db : Db) (single : HasSingleReviews db) (within : Within)
    (clock : Clock) where
  push-Backs :
      (ms : List (ClientMutationItem × Draw)) (rs : List MutationResult)
      (again : List (ClientMutationItem × Draw))
      → Pointwise (Backs worker db) ms rs
      → map (λ m. m.0) again ≡ map (λ m. m.0) ms
      → (ss : List MutationResult) × (process_mutations within clock worker again db ≡ ok (ss, db))
        × Pointwise SameOutcome rs ss
  unfolding process_mutations
  push-Backs [] [] [] h e = ([], refl, tt)
  push-Backs [] [] (_ ∷ _) h e = cc
  push-Backs [] (_ ∷ _) again h e = absurd h
  push-Backs (_ ∷ _) [] again h e = absurd h
  push-Backs (_ ∷ _) (_ ∷ _) [] h e = cc
  push-Backs (m ∷ ms) (r ∷ rs) ((mut, draw) ∷ again) (h, hs) e =
      let same : m.0 ≡ mut = cc in
      let (s, step, outcome) = replay-Backs worker db m r single within clock draw h in
      let (ss, steps, outcomes) = push-Backs ms rs again hs (cc) in
      (
        s ∷ ss,
        rw (← same) (process_mutations-step within clock worker (m.0, draw) again db step steps),
        (outcome, outcomes),
      )

-- A push that is repeated, at whatever time and with whatever fresh ids, changes nothing at all and
-- is answered with the outcomes of the first push, provided that no client mutation has two
-- reviews.
pub process_mutations_again :
    (within : Within) (clock later : Clock) (worker : ℕ)
    (ms again : List (ClientMutationItem × Draw)) (db : Db) {rs : List MutationResult} {db' : Db}
    → process_mutations within clock worker ms db ≡ ok (rs, db')
    → HasSingleReviews db'
    → map (λ m. m.0) again ≡ map (λ m. m.0) ms
    → (ss : List MutationResult) × (process_mutations within later worker again db' ≡ ok (ss, db'))
      × Pointwise SameOutcome rs ss
process_mutations_again within clock later worker ms again db {rs} {db'} e single same =
    push-Backs worker db' single within later ms rs again
      (process_mutations-Backs within clock worker ms db e) same
