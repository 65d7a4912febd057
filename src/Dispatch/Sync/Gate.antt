-- ===== src/Dispatch/Sync/Gate.antt =====
-- About one mutation of process_field_sync of civicbrain/domain/dispatch/services.py
-- and the invariants of the database.
use civicbrain_v.Base.{
  ℕ, List, [], ◌∷◌, ◌++◌, some, ◌≡◌, ◌≢◌, refl, ◌==◌, find, All, All-append, arith, inl, inr,
  find-key, ==_iff, ◌∙◌, ap, All-map, Bool-cases,
}
use civicbrain_v.Geo.{Within}
use civicbrain_v.Intake.Recompute.Consistency.{IsConsistent}
use civicbrain_v.Dispatch.Models.{WorkOrder, MutationResult, Reason}
use civicbrain_v.Dispatch.Evidence.{
  IsSound, IsAbout, IsPreserved, IsEvidenced, IsKeyed, update_incident-IsEvidenced,
  change_work_order-IsEvidenced,
}
use civicbrain_v.Dispatch.WorkOrders.{
  Evidence, begin_work, begin_incident, complete_work, resolve_incident,
}
use civicbrain_v.Dispatch.WorkOrders.Frame.{update_incident-IsConsistent}
use civicbrain_v.Dispatch.Sync.{new_review}
use civicbrain_v.Dispatch.Answers.{Call}
use civicbrain_v.Dispatch.Sync.Cases.{Outcome, logged, held, started, resolved}
use civicbrain_v.Store.{Db, find_work_order, change_work_order}

-- The one row with an id is the row that `find` gives.
find-All_eq :
    (k : ℕ) (ws : List WorkOrder) {w : WorkOrder}
    → IsKeyed ws
    → find (λ v. v.id == k) ws ≡ some w
    → All (λ v. v.id ≡ k → v ≡ w) ws
find-All_eq k [] keyed e = tt
find-All_eq k (v ∷ ws) {w} (apart, keyed) e = elim (Bool-cases (v.id == k)) [
  | inl q ↦ (
    λ _. ground arith,
    All-map (λ u. u.id ≢ v.id) _ (λ u ne p. absurd (ne (ground arith))) ws apart,
  )
  | inr q ↦ (λ p. absurd (ground arith), find-All_eq k ws keyed (ground arith))
]

module _ (within : Within) (c : Call) (db : Db) where
  held-IsEvidenced :
      (w : WorkOrder) (e : Evidence) (reason : Reason)
      → find_work_order c.mut.entity_id db ≡ some w
      → IsSound within db.incidents w.incident_id e.place e.notes e.media
      → IsEvidenced within db
      → IsEvidenced within (record db { reviews = db.reviews ++ new_review c w e reason ∷ [] })
  held-IsEvidenced w e reason found sound h = record {
    keyed = h.keyed;
    proved = h.proved;
    preserved =
        All-append (IsPreserved within db.incidents db.work_orders) db.reviews
          (new_review c w e reason ∷ []) h.preserved
          (
            (
              sound,
              All-map (λ v. v.id ≡ c.mut.entity_id → v ≡ w) (IsAbout (new_review c w e reason))
                  (λ v same p.
                    ap (λ (u : WorkOrder). u.incident_id)
                      (same (
                        p
                        ∙ (==_iff w.id c.mut.entity_id).0
                            (find-key (λ u. u.id == c.mut.entity_id) db.work_orders found))))
                  db.work_orders (find-All_eq c.mut.entity_id db.work_orders h.keyed found),
            ),
            tt,
          );
  }

  pub Outcome-IsEvidenced :
      {r : MutationResult × Db}
      → IsEvidenced within db
      → Outcome within c db r
      → IsEvidenced within r.1
  Outcome-IsEvidenced h (logged _ _ _ _ _ _ eq) =
      rw eq (record { keyed = h.keyed; proved = h.proved; preserved = h.preserved })
  Outcome-IsEvidenced h (held w e reason found _ _ sound _ _ _ eq) =
      let k = held-IsEvidenced w e reason found sound h in
      rw eq (record { keyed = k.keyed; proved = k.proved; preserved = k.preserved })
  Outcome-IsEvidenced h (started w found _ _ _ _ eq) =
      let k =
        update_incident-IsEvidenced within w.incident_id (begin_incident c.mut.captured_at)
          (λ i. refl) (λ i. refl) _
          (change_work_order-IsEvidenced within c.mut.entity_id
            (begin_work c.mut.captured_at c.clock.transaction) db (λ v. refl) (λ v. refl)
            (λ v _ done. cc) h) in
      rw eq (record { keyed = k.keyed; proved = k.proved; preserved = k.preserved })
  Outcome-IsEvidenced h (resolved w e found _ _ sound _ _ _ _ eq) =
      let k =
        update_incident-IsEvidenced within w.incident_id (resolve_incident c.mut.captured_at e)
          (λ i. refl) (λ i. refl) _
          (change_work_order-IsEvidenced within c.mut.entity_id
            (complete_work c.mut.captured_at c.clock.transaction e) db (λ v. refl) (λ v. refl)
            (λ v p done. (e.place, e.notes, refl, refl, (cc, sound.1, sound.2))) h) in
      rw eq (record { keyed = k.keyed; proved = k.proved; preserved = k.preserved })

  pub Outcome-IsConsistent :
      {r : MutationResult × Db} → IsConsistent db → Outcome within c db r → IsConsistent r.1
  Outcome-IsConsistent h (logged _ _ _ _ _ _ eq) = rw eq h
  Outcome-IsConsistent h (held w e reason _ _ _ _ _ _ _ eq) = rw eq h
  Outcome-IsConsistent h (started w _ _ _ _ _ eq) = rw eq (
      update_incident-IsConsistent w.incident_id (begin_incident c.mut.captured_at) (λ i. refl)
        (change_work_order c.mut.entity_id (begin_work c.mut.captured_at c.clock.transaction) db) h)
  Outcome-IsConsistent h (resolved w e _ _ _ _ _ _ _ _ eq) = rw eq (
      update_incident-IsConsistent w.incident_id (resolve_incident c.mut.captured_at e) (λ i. refl)
        (change_work_order c.mut.entity_id (complete_work c.mut.captured_at c.clock.transaction e)
          db)
        h)
