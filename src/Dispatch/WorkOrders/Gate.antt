-- ===== src/Dispatch/WorkOrders/Gate.antt =====
-- About create, start and resolve of civicbrain/domain/dispatch/services.py and the evidence gate.
use civicbrain_v.Base.{
  ℕ, List, [], ◌∷◌, ◌++◌, false, Option, some, none, ◌≡◌, ◌≢◌, refl, ◌==◌, find, All, All-append,
  All-map₂, sym, ◌&&◌, arith, Option-cases, inl, inr,
}
use civicbrain_v.Geo.{Within}
use civicbrain_v.Intake.Models.{Incident}
use civicbrain_v.Intake.Recompute.Consistency.{recompute_frame}
use civicbrain_v.Dispatch.Models.{WorkOrder, is_completed}
use civicbrain_v.Dispatch.Evidence.{
  IsSound, IsProved, IsAbout, IsPreserved, IsEvidenced, append-IsKeyed, update_incident-IsEvidenced,
  moved-IsEvidenced, change_work_order-IsEvidenced,
}
use civicbrain_v.Dispatch.WorkOrders.{
  Evidence, assigned_to_other, new_work_order, sync_assignment, create_work_order, start_work_order,
  resolve_work_order, begin_work, begin_incident, complete_work, resolve_incident, update_incident,
  assign,
}
use civicbrain_v.Store.{Db, ok, Clock, find_work_order, change_incident, change_work_order}

module _ (clock : Clock) (id worker : ℕ) {w' : WorkOrder} {db' : Db} where
  -- A start that is not refused.
  pub start_work_order-eq-ok :
      (db : Db)
      → start_work_order clock id worker db ≡ ok (w', db')
      → (w : WorkOrder) × (find_work_order id db ≡ some w)
        × (assigned_to_other w worker ≡ false)
        × (is_completed w.status ≡ false)
        × (w' ≡ begin_work clock.now clock.transaction w)
        × (db'
            ≡ update_incident w.incident_id
                (begin_incident clock.now)
                (change_work_order id (begin_work clock.now clock.transaction) db))
  unfolding start_work_order
  start_work_order-eq-ok db h = elim (Option-cases (find_work_order id db)) [
    | inl e ↦ ground arith
    | inr (w, e) ↦ (w, e, ground arith, ground arith, ground arith, ground arith)
  ]

  -- A resolution that is not refused.
  pub resolve_work_order-eq-ok :
      (within : Within) (e : Evidence) (db : Db)
      → resolve_work_order within clock id worker e db ≡ ok (w', db')
      → (w : WorkOrder) × (find_work_order id db ≡ some w)
        × (assigned_to_other w worker ≡ false)
        × (is_completed w.status ≡ false)
        × IsSound within db.incidents w.incident_id e.place e.notes e.media
        × (w' ≡ complete_work clock.now clock.transaction e w)
        × (db'
            ≡ update_incident w.incident_id
                (resolve_incident clock.now e)
                (change_work_order id (complete_work clock.now clock.transaction e) db))
  unfolding resolve_work_order
  resolve_work_order-eq-ok within e db h = elim (Option-cases (find_work_order id db)) [
    | inl q ↦ ground arith
    | inr (w, q) ↦ (w, q, ground arith, ground arith, ground arith, ground arith, ground arith)
  ]

-- A creation that is not refused.
pub create_work_order-eq-ok :
    (clock : Clock) (fresh org incident department : ℕ) (worker : Option ℕ) (db : Db)
    {w : WorkOrder} {db' : Db}
    → create_work_order clock fresh org incident department worker db ≡ ok (w, db')
    → (find (λ i. i.id == incident && i.organization_id == org) db.incidents ≢ none)
      × (w ≡ new_work_order clock fresh org incident department worker)
      × (db'
          ≡ sync_assignment clock incident worker (record db {
            work_orders =
                db.work_orders ++ new_work_order clock fresh org incident department worker ∷ [];
          }))
unfolding create_work_order
create_work_order-eq-ok clock fresh org incident department worker db h =
    (ground arith, ground arith, ground arith)

module _ (within : Within) (clock : Clock) (id worker : ℕ) {w' : WorkOrder} {db' : Db}
    (db : Db) where
  -- Starting a work order keeps the gate.
  pub start_work_order-IsEvidenced :
      IsEvidenced within db
      → start_work_order clock id worker db ≡ ok (w', db')
      → IsEvidenced within db'
  start_work_order-IsEvidenced h e =
      let (w, found, _, _, _, eq) = start_work_order-eq-ok clock id worker db e in
      rw eq (
        update_incident-IsEvidenced within w.incident_id (begin_incident clock.now) (λ i. refl)
          (λ i. refl) _
          (change_work_order-IsEvidenced within id (begin_work clock.now clock.transaction) db
            (λ w. refl) (λ w. refl) (λ w _ done. cc) h))

  -- So does resolving it, since only sound evidence is let through.
  pub resolve_work_order-IsEvidenced :
      (e : Evidence)
      → IsEvidenced within db
      → resolve_work_order within clock id worker e db ≡ ok (w', db')
      → IsEvidenced within db'
  resolve_work_order-IsEvidenced e h q =
      let (w, found, _, _, sound, _, eq) = resolve_work_order-eq-ok clock id worker within e db q in
      rw eq (
        update_incident-IsEvidenced within w.incident_id (resolve_incident clock.now e) (λ i. refl)
          (λ i. refl) _
          (change_work_order-IsEvidenced within id (complete_work clock.now clock.transaction e) db
            (λ w. refl) (λ w. refl)
            (λ v p done. (e.place, e.notes, refl, refl, (cc, sound.1, sound.2))) h))

module _ (within : Within) (clock : Clock) (fresh org incident department : ℕ)
    (worker : Option ℕ) where
  new_work_order-IsProved :
      (is : List Incident)
      → IsProved within is (new_work_order clock fresh org incident department worker)
  unfolding new_work_order
  new_work_order-IsProved is done = ground arith

  add-IsEvidenced :
      (db : Db)
      → All (λ v. v.id ≢ fresh) db.work_orders
      → All (λ r. r.work_order_id ≢ fresh) db.reviews
      → IsEvidenced within db
      → IsEvidenced within (record db {
        work_orders =
            db.work_orders ++ new_work_order clock fresh org incident department worker ∷ [];
      })
  unfolding new_work_order
  add-IsEvidenced db new unused h =
      let w = new_work_order clock fresh org incident department worker in
      record {
        keyed = append-IsKeyed w db.work_orders new h.keyed;
        proved =
            All-append (IsProved within db.incidents) db.work_orders (w ∷ []) h.proved
              (new_work_order-IsProved db.incidents, tt);
        preserved =
            All-map₂ (λ r. r.work_order_id ≢ fresh) (IsPreserved within db.incidents db.work_orders)
              (IsPreserved within db.incidents (db.work_orders ++ w ∷ []))
              (λ r other (sound, about). (
                sound,
                All-append (IsAbout r) db.work_orders (w ∷ []) about
                    (λ e. absurd (other (sym e)), tt),
              ))
              db.reviews unused h.preserved;
      }

  sync_assignment-IsEvidenced :
      (w : Option ℕ) (db : Db)
      → IsEvidenced within db
      → IsEvidenced within (sync_assignment clock incident w db)
  unfolding sync_assignment
  sync_assignment-IsEvidenced none db h = h
  sync_assignment-IsEvidenced (some w) db h =
      rw (recompute_frame incident (change_incident incident (assign clock.now w) db)) (
        moved-IsEvidenced within (λ i. i.id == incident) (assign clock.now w) (λ i. refl)
          (λ i. refl) db _ h)

  -- Creating a work order under a new id, which no review names, keeps the gate.
  pub create_work_order-IsEvidenced :
      (db : Db) {w : WorkOrder} {db' : Db}
      → All (λ v. v.id ≢ fresh) db.work_orders
      → All (λ r. r.work_order_id ≢ fresh) db.reviews
      → IsEvidenced within db
      → create_work_order clock fresh org incident department worker db ≡ ok (w, db')
      → IsEvidenced within db'
  create_work_order-IsEvidenced db new unused h e =
      rw (create_work_order-eq-ok clock fresh org incident department worker db e).2
        (sync_assignment-IsEvidenced worker _ (add-IsEvidenced db new unused h))
