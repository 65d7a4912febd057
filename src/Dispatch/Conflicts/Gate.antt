-- ===== src/Dispatch/Conflicts/Gate.antt =====
-- About adjudicate_dispatch_conflict of civicbrain/domain/dispatch/services.py.
use civicbrain_v.Base.{
  ℕ, ◌+◌, true, false, Option, some, ◌≡◌, refl, ◌∙◌, ap, ◌==◌, ==_iff, find, find-modify_first_self,
  find-key, map_some, All-find, All-modify_first, arith, Option-cases, inl, inr,
}
use civicbrain_v.Geo.{Within}
use civicbrain_v.Intake.Recompute.Consistency.{IsConsistent}
use civicbrain_v.Dispatch.Models.{
  WorkOrder, WorkOrderStatus, DispatchConflictReview, ConflictDecision, accept_worker_evidence,
  uphold_dispatcher_action,
}
use civicbrain_v.Dispatch.Evidence.{
  IsProved, IsAbout, IsPreserved, IsEvidenced, update_incident-IsEvidenced,
  change_work_order-IsEvidenced,
}
use civicbrain_v.Dispatch.WorkOrders.Frame.{update_incident_frame, update_incident-IsConsistent}
use civicbrain_v.Dispatch.Conflicts.{
  Ruling, is_pending, decided_status, close_review, complete_from_review, resolve_from_review,
  change_review, carry_out, adjudicate_dispatch_conflict,
}
use civicbrain_v.Store.{Db, Error, ok, err, Clock, find_work_order, change_work_order}

abbrev pub find_review : ℕ → Db → Option DispatchConflictReview
find_review id db = find (λ r. r.id == id) db.reviews

-- A ruling that is not refused.
pub adjudicate_dispatch_conflict-eq-ok :
    (clock : Clock) (id : ℕ) (ruling : Ruling) (db : Db) {r' : DispatchConflictReview} {db' : Db}
    → adjudicate_dispatch_conflict clock id ruling db ≡ ok (r', db')
    → (r : DispatchConflictReview) × (find_review id db ≡ some r)
      × (is_pending r.status ≡ true)
      × (r' ≡ close_review clock.now ruling r)
      × (db'
          ≡ carry_out clock ruling.decision r (change_review id (close_review clock.now ruling) db))
unfolding adjudicate_dispatch_conflict
adjudicate_dispatch_conflict-eq-ok clock id ruling db h = elim (Option-cases (find_review id db)) [
  | inl e ↦ ground arith
  | inr (r, e) ↦ (r, e, ground arith, ground arith, ground arith)
]

module _ (within : Within) (clock : Clock) where
  close-IsEvidenced :
      (id : ℕ) (ruling : Ruling) (db : Db)
      → IsEvidenced within db
      → IsEvidenced within (change_review id (close_review clock.now ruling) db)
  close-IsEvidenced id ruling db h = record {
    keyed = h.keyed;
    proved = h.proved;
    preserved =
        All-modify_first (IsPreserved within db.incidents db.work_orders) (λ r. r.id == id)
          (close_review clock.now ruling) db.reviews (λ r p _. p) h.preserved;
  }

  -- The review's evidence is sound for the incident of its own work order.
  completed-IsProved :
      (r : DispatchConflictReview) (db : Db) (w : WorkOrder)
      → IsPreserved within db.incidents db.work_orders r
      → find_work_order r.work_order_id db ≡ some w
      → IsProved within db.incidents (complete_from_review clock.transaction r w)
  completed-IsProved r db w (sound, about) found done =
      let same : w.incident_id ≡ r.incident_id =
        All-find (IsAbout r) (λ v. v.id == r.work_order_id) db.work_orders about found
          ((==_iff w.id r.work_order_id).0
            (find-key (λ v. v.id == r.work_order_id) db.work_orders found)) in
      (r.submitted_geom, r.submitted_notes, refl, refl, (rw same sound.0, sound.1, sound.2))

  carry_out-IsEvidenced :
      (d : ConflictDecision) (r : DispatchConflictReview) (db : Db)
      → IsPreserved within db.incidents db.work_orders r
      → IsEvidenced within db
      → IsEvidenced within (carry_out clock d r db)
  unfolding carry_out
  carry_out-IsEvidenced uphold_dispatcher_action r db p h = h
  carry_out-IsEvidenced accept_worker_evidence r db p h =
      update_incident-IsEvidenced within r.incident_id (resolve_from_review clock.now r) (λ i. refl)
        (λ i. refl) _
        (change_work_order-IsEvidenced within r.work_order_id
          (complete_from_review clock.transaction r) db (λ w. refl) (λ w. refl)
          (λ w e. completed-IsProved r db w p e) h)

  -- Whatever the decision, completed work orders still carry sound evidence: what is accepted was
  -- sound when it was put into the queue.
  pub adjudicate_dispatch_conflict-IsEvidenced :
      (id : ℕ) (ruling : Ruling) (db : Db) {r' : DispatchConflictReview} {db' : Db}
      → IsEvidenced within db
      → adjudicate_dispatch_conflict clock id ruling db ≡ ok (r', db')
      → IsEvidenced within db'
  adjudicate_dispatch_conflict-IsEvidenced id ruling db h e =
      let (r, found, _, _, eq) = adjudicate_dispatch_conflict-eq-ok clock id ruling db e in
      rw eq (
        carry_out-IsEvidenced ruling.decision r _
          (All-find (IsPreserved within db.incidents db.work_orders) (λ r. r.id == id) db.reviews
            h.preserved found)
          (close-IsEvidenced id ruling db h))

decided-not_pending : (d : ConflictDecision) → is_pending (decided_status d) ≡ false
decided-not_pending accept_worker_evidence = refl
decided-not_pending uphold_dispatcher_action = refl

decided-refused :
    (clock : Clock) (id : ℕ) (ruling : Ruling) (db : Db) {r : DispatchConflictReview}
    → find_review id db ≡ some r
    → is_pending r.status ≡ false
    → adjudicate_dispatch_conflict clock id ruling db ≡ err Error.already_adjudicated
unfolding adjudicate_dispatch_conflict
decided-refused clock id ruling db e p = rw (e, p, adjudicate_dispatch_conflict)

module _ (clock : Clock) where
  carry_out-IsConsistent :
      (d : ConflictDecision) (r : DispatchConflictReview) (db : Db)
      → IsConsistent db
      → IsConsistent (carry_out clock d r db)
  unfolding carry_out
  carry_out-IsConsistent uphold_dispatcher_action r db h = h
  carry_out-IsConsistent accept_worker_evidence r db h =
      update_incident-IsConsistent r.incident_id (resolve_from_review clock.now r) (λ i. refl)
        (change_work_order r.work_order_id (complete_from_review clock.transaction r) db) h

  carry_out-reviews :
      (d : ConflictDecision) (r : DispatchConflictReview) (db : Db)
      → (carry_out clock d r db).reviews ≡ db.reviews
  unfolding carry_out
  carry_out-reviews uphold_dispatcher_action r db = refl
  carry_out-reviews accept_worker_evidence r db =
      ap (λ (d : Db). d.reviews)
        (update_incident_frame r.incident_id (resolve_from_review clock.now r)
          (change_work_order r.work_order_id (complete_from_review clock.transaction r) db))

  carry_out-work_order :
      (r : DispatchConflictReview) (db : Db)
      → find_work_order r.work_order_id (carry_out clock accept_worker_evidence r db)
        ≡ map_some (complete_from_review clock.transaction r) (find_work_order r.work_order_id db)
  unfolding carry_out
  carry_out-work_order r db =
      ap (λ (d : Db). find_work_order r.work_order_id d)
        (update_incident_frame r.incident_id (resolve_from_review clock.now r)
          (change_work_order r.work_order_id (complete_from_review clock.transaction r) db))
      ∙ find-modify_first_self (λ w. w.id) (complete_from_review clock.transaction r) (λ w. refl)
          r.work_order_id db.work_orders

  pub adjudicate_dispatch_conflict-IsConsistent :
      (id : ℕ) (ruling : Ruling) (db : Db) {r' : DispatchConflictReview} {db' : Db}
      → IsConsistent db
      → adjudicate_dispatch_conflict clock id ruling db ≡ ok (r', db')
      → IsConsistent db'
  adjudicate_dispatch_conflict-IsConsistent id ruling db h e =
      let (r, found, _, _, eq) = adjudicate_dispatch_conflict-eq-ok clock id ruling db e in
      rw eq (
        carry_out-IsConsistent ruling.decision r
          (change_review id (close_review clock.now ruling) db) h)

  -- In the database that a decision on a review leaves, that review cannot be decided again, by
  -- anyone, at any time, either way.
  pub adjudicate_dispatch_conflict_once :
      (id : ℕ) (ruling : Ruling) (db : Db) {r' : DispatchConflictReview} {db' : Db}
      → adjudicate_dispatch_conflict clock id ruling db ≡ ok (r', db')
      → (later : Clock) (again : Ruling)
      → adjudicate_dispatch_conflict later id again db' ≡ err Error.already_adjudicated
  adjudicate_dispatch_conflict_once id ruling db {r'} {db'} e later again =
      let (r, found, _, _, eq) = adjudicate_dispatch_conflict-eq-ok clock id ruling db e in
      let closed : find_review id db' ≡ some (close_review clock.now ruling r) =
        rw
          (
            eq,
            carry_out-reviews ruling.decision r
                (change_review id (close_review clock.now ruling) db),
          )
          (find-modify_first_self (λ r. r.id) (close_review clock.now ruling) (λ r. refl) id
              db.reviews
            ∙ rw found) in
      decided-refused later id again db' closed (decided-not_pending ruling.decision)

  -- Where the work order of the review exists, accepting the worker's evidence completes it, for
  -- the worker who submitted it, with exactly the notes, photos and place that the review
  -- preserved, and counts one version.
  pub adjudicate_dispatch_conflict_accepts :
      (id : ℕ) (ruling : Ruling) (db : Db) {r' r : DispatchConflictReview} {db' : Db}
      {w : WorkOrder}
      → adjudicate_dispatch_conflict clock id ruling db ≡ ok (r', db')
      → ruling.decision ≡ accept_worker_evidence
      → find_review id db ≡ some r
      → find_work_order r.work_order_id db ≡ some w
      → (w' : WorkOrder) × (find_work_order r.work_order_id db' ≡ some w')
        × (w'.status ≡ WorkOrderStatus.completed)
        × (w'.assigned_worker_id ≡ some r.worker_id)
        × (w'.resolution_notes ≡ some r.submitted_notes)
        × (w'.resolution_media_urls ≡ r.submitted_media_urls)
        × (w'.resolution_geom ≡ some r.submitted_geom)
        × (w'.version ≡ w.version + 1)
  adjudicate_dispatch_conflict_accepts id ruling db {r'} {r} {db'} {w} e accept reviewed found =
      let (q, asked, _, _, eq) = adjudicate_dispatch_conflict-eq-ok clock id ruling db e in
      let same : q ≡ r = cc in
      let after : db'
          ≡ carry_out clock accept_worker_evidence r
              (change_review id (close_review clock.now ruling) db) =
        rw (← same, ← accept) eq in
      (
        complete_from_review clock.transaction r w,
        rw after (
            carry_out-work_order r (change_review id (close_review clock.now ruling) db)
            ∙ ap (map_some (complete_from_review clock.transaction r)) found),
        refl,
        refl,
        refl,
        refl,
        refl,
        refl,
      )
