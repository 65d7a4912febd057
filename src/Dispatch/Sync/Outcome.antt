-- ===== src/Dispatch/Sync/Outcome.antt =====
-- About a new mutation of process_field_sync in civicbrain/domain/dispatch/services.py: how it ends
-- in each case.
use civicbrain_v.Base.{
  false, some, none, ◌≡◌, refl, ◌∙◌, subst, ◌⊎◌, Option-cases, inl, inr, Bool-cases,
}
use civicbrain_v.Geo.{Within}
use civicbrain_v.Dispatch.Models.{
  WorkOrder, MutationResult, Action, Reason, SyncMutationStatus, is_completed, is_cancelled,
}
use civicbrain_v.Dispatch.Evidence.{IsSound}
use civicbrain_v.Dispatch.WorkOrders.{
  Evidence, assigned_to_other, begin_work, begin_incident, complete_work, resolve_incident,
  update_incident,
}
use civicbrain_v.Dispatch.WorkOrders.Effect.{step_work_order, step_incident}
use civicbrain_v.Dispatch.Sync.{
  new_review, hold, process_start, process_resolve, process_action, process_new, settle,
  submitted_evidence, submitted_place,
}
use civicbrain_v.Dispatch.Sync.Submitted.{
  IsSubmitted, submitted_evidence-eq-some, submitted_evidence-eq-none, submitted_place-eq-some,
  submitted_place-eq-none,
}
use civicbrain_v.Dispatch.Answers.{Call, conclude, applied, refused}
use civicbrain_v.Store.{Db, Error, ok, err, find_work_order, change_work_order}
use civicbrain_v.Dispatch.Sync.Cases.{
  Declined, start_of_other, start_of_cancelled, without_evidence, out_of_place, completed_before,
  not_supported, Clashes, Outcome, logged, held, started, resolved,
}

module _ (within : Within) (c : Call) (w : WorkOrder) (db : Db)
    (found : find_work_order c.mut.entity_id db ≡ some w) where
  declined :
      (status : SyncMutationStatus) (reason : Reason)
      → Declined within c db w status reason
      → Outcome within c db (conclude c (refused status reason w) db)
  declined status reason why = logged w status reason found why refl refl

  begun :
      c.mut.action ≡ Action.start
      → assigned_to_other w c.worker_id ≡ false
      → is_cancelled w.status ≡ false
      → Outcome within c db (
          conclude c (applied w) (
            update_incident w.incident_id (begin_incident c.mut.captured_at) (
              change_work_order c.mut.entity_id
                (begin_work c.mut.captured_at c.clock.transaction)
                db)))
  begun act mine live =
      let g = begin_work c.mut.captured_at c.clock.transaction in
      let f = begin_incident c.mut.captured_at in
      started w found act mine live
        (
          refl,
          (
            g w,
            step_work_order c.mut.entity_id g (λ v. refl) w.incident_id f (λ i. refl) db
                ∙ rw found refl,
            refl,
            refl,
            refl,
          ),
          λ i there. (
            f i,
            step_incident c.mut.entity_id g (λ v. refl) w.incident_id f (λ i. refl) db
                ∙ rw there refl,
            refl,
            refl,
          ),
        )
        refl

  module _ (act : c.mut.action ≡ Action.resolve) (e : Evidence)
      (given : IsSubmitted c.mut.payload e)
      (sound : IsSound within db.incidents w.incident_id e.place e.notes e.media) where
    completed :
        is_completed w.status ≡ false
        → assigned_to_other w c.worker_id ≡ false
        → is_cancelled w.status ≡ false
        → Outcome within c db (
            conclude c (applied w) (
              update_incident w.incident_id (resolve_incident c.mut.captured_at e) (
                change_work_order c.mut.entity_id
                  (complete_work c.mut.captured_at c.clock.transaction e)
                  db)))
    completed open_order mine live =
        let g = complete_work c.mut.captured_at c.clock.transaction e in
        let f = resolve_incident c.mut.captured_at e in
        resolved w e found act given sound open_order mine live
          (
            refl,
            (
              g w,
              step_work_order c.mut.entity_id g (λ v. refl) w.incident_id f (λ i. refl) db
                  ∙ rw found refl,
              (refl, refl, refl, refl, refl),
              refl,
            ),
            λ i there. (
              f i,
              step_incident c.mut.entity_id g (λ v. refl) w.incident_id f (λ i. refl) db
                  ∙ rw there refl,
              (refl, refl, refl, refl, refl, refl),
            ),
          )
          refl

    preserved :
        (reason : Reason)
        → is_completed w.status ≡ false
        → Clashes c w reason
        → Outcome within c db (hold c w e reason db)
    preserved reason open_order why =
        held w e reason found act given sound open_order why
          (
            new_review c w e reason,
            refl,
            refl,
            refl,
            refl,
            refl,
            refl,
            refl,
            refl,
            refl,
            refl,
            refl,
          )
          refl

    settle-Outcome : Outcome within c db (settle c w e db)
    unfolding settle
    settle-Outcome = elim (Bool-cases (is_completed w.status)) [
      | inl done ↦
          rw (settle, done)
            (declined SyncMutationStatus.conflict Reason.conflict_already_completed
              (completed_before e act given sound done))
      | inr open_order ↦ elim (Bool-cases (assigned_to_other w c.worker_id)) [
        | inl other ↦
            rw (settle, open_order, other)
              (preserved Reason.reassigned_by_dispatcher open_order (inl (other, refl)))
        | inr mine ↦ elim (Bool-cases (is_cancelled w.status)) [
          | inl gone ↦
              rw (settle, open_order, mine, gone)
                (preserved Reason.cancelled_by_dispatcher open_order (inr (mine, gone, refl)))
          | inr live ↦ rw (settle, open_order, mine, live) (completed open_order mine live)
        ]
      ]
    ]

  process_start-Outcome : c.mut.action ≡ Action.start → Outcome within c db (process_start c w db)
  unfolding process_start
  process_start-Outcome act = elim (Bool-cases (assigned_to_other w c.worker_id)) [
    | inl other ↦
        rw (process_start, other)
          (declined SyncMutationStatus.conflict Reason.reassigned_by_dispatcher
            (start_of_other act other))
    | inr mine ↦ elim (Bool-cases (is_cancelled w.status)) [
      | inl gone ↦
          rw (process_start, mine, gone)
            (declined SyncMutationStatus.conflict Reason.cancelled_by_dispatcher
              (start_of_cancelled act mine gone))
      | inr live ↦ rw (process_start, mine, live) (begun act mine live)
    ]
  ]

  process_resolve-Outcome :
      c.mut.action ≡ Action.resolve → Outcome within c db (process_resolve within c w db)
  unfolding process_resolve
  process_resolve-Outcome act = elim (Option-cases (submitted_evidence c.mut.payload)) [
    | inl q ↦
        rw (q, process_resolve)
          (declined SyncMutationStatus.rejected Reason.missing_evidence (
            without_evidence act
              (λ notes media. submitted_evidence-eq-none c.mut.payload notes media q)))
    | inr ((notes, media), q) ↦
        let (a, b, full, some_media) = submitted_evidence-eq-some c.mut.payload q in
        elim (Option-cases (submitted_place within w c.mut.payload db)) [
          | inl p ↦
              rw (q, p, process_resolve)
                (declined SyncMutationStatus.rejected Reason.resolution_out_of_bounds (
                  out_of_place act (notes, media, (a, b, full, some_media))
                    (λ place. submitted_place-eq-none within w c.mut.payload db place p)))
          | inr (place, p) ↦
              let (there, near) = submitted_place-eq-some within w c.mut.payload db p in
              rw (q, p, process_resolve)
                (settle-Outcome act (record { notes = notes; media = media; place = place })
                  (a, b, there) (near, full, some_media))
        ]
  ]

  process_action-Outcome :
      (a : Action) → c.mut.action ≡ a → Outcome within c db (process_action within a c w db)
  unfolding process_action
  process_action-Outcome Action.start act = process_start-Outcome act
  process_action-Outcome Action.resolve act = process_resolve-Outcome act
  process_action-Outcome (Action.other a) act =
      declined SyncMutationStatus.rejected Reason.unsupported_action (not_supported a act)

-- Where there is no such work order, a new mutation fails and with it the push. Otherwise it ends in
-- one of four ways. Only the log grows, with an answer for one of six reasons: a start of an order
-- that is another worker's or cancelled, a resolution without evidence, too far away, or of an
-- order that is completed, or another action. Or sound evidence for an order that is not completed
-- and is another worker's or cancelled is put in the review queue. Or an order that is neither is
-- started with its incident. Or such an order, not completed, is completed with the sound evidence
-- of the payload, and its incident resolved.
pub process_new-Outcome :
    (within : Within) (c : Call) (db : Db)
    → ((find_work_order c.mut.entity_id db ≡ none)
        × (process_new within c db ≡ err Error.integrity_error))
      ⊎ ((r : MutationResult × Db) × (process_new within c db ≡ ok r) × Outcome within c db r)
unfolding process_new
process_new-Outcome within c db = elim (Option-cases (find_work_order c.mut.entity_id db)) [
  | inl e ↦ inl (e, rw (e, process_new) refl)
  | inr (w, e) ↦ inr (
    process_action within c.mut.action c w db,
    rw (e, process_new) refl,
    process_action-Outcome within c w db e c.mut.action refl,
  )
]

-- A new mutation that is handled.
pub process_new-eq-ok :
    (within : Within) (c : Call) (db : Db) {r : MutationResult × Db}
    → process_new within c db ≡ ok r
    → Outcome within c db r
process_new-eq-ok within c db {r} h = elim (process_new-Outcome within c db) [
  | inl (_, e) ↦ cc
  | inr (s, e, o) ↦ let same : s ≡ r = cc in subst (λ x. Outcome within c db x) same o
]
