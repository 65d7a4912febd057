-- ===== src/Dispatch/WorkOrders/Effect.antt =====
-- About the tables after create, start and resolve of civicbrain/domain/dispatch/services.py.
use civicbrain_v.Base.{
  ℕ, ◌+◌, ◌*◌, inl, inr, Option-cases, [], ◌∷◌, ◌++◌, true, false, Option, some, none, ◌≡◌, ◌≢◌,
  refl, ◌∙◌, ap, map_some, find-modify_first_self, find-modify_first_ne, find-modify_self,
  find-modify_ne,
}
use civicbrain_v.Geo.{Within}
use civicbrain_v.Text.{is_blank}
use civicbrain_v.Intake.Models.{Incident, IncidentStatus}
use civicbrain_v.Intake.Recompute.Consistency.{
  IsConsistent, recompute_reports_for_incident-IsConsistent,
}
use civicbrain_v.Dispatch.Models.{WorkOrder, WorkOrderStatus, is_completed}
use civicbrain_v.Dispatch.WorkOrders.{
  Evidence, assigned_to_other, is_empty, near_incident, new_work_order, sync_assignment,
  create_work_order, start_work_order, resolve_work_order, begin_work, begin_incident,
  complete_work, resolve_incident, update_incident, assign,
}
use civicbrain_v.Dispatch.WorkOrders.Frame.{update_incident_frame, update_incident-IsConsistent}
use civicbrain_v.Dispatch.WorkOrders.Gate.{
  create_work_order-eq-ok, start_work_order-eq-ok, resolve_work_order-eq-ok,
}
use civicbrain_v.Store.{Db, ok, Clock, find_work_order, find_incident, change_work_order}

module _ (id : ℕ) (g : WorkOrder → WorkOrder) (keeps : (w : WorkOrder) → (g w).id ≡ w.id) (k : ℕ)
    (f : Incident → Incident) (same_id : (i : Incident) → (f i).id ≡ i.id) (db : Db) where
  abbrev after : Db
  after = update_incident k f (change_work_order id g db)

  -- The common step: the work order and the incident change, no other of either does.
  pub step_work_order : find_work_order id after ≡ map_some g (find_work_order id db)
  step_work_order =
      ap (find_work_order id) (update_incident_frame k f (change_work_order id g db))
      ∙ find-modify_first_self (λ w. w.id) g keeps id db.work_orders

  pub step_other_work_order : (j : ℕ) → j ≢ id → find_work_order j after ≡ find_work_order j db
  step_other_work_order j ne =
      ap (find_work_order j) (update_incident_frame k f (change_work_order id g db))
      ∙ find-modify_first_ne (λ w. w.id) g keeps j id db.work_orders ne

  pub step_incident : find_incident k after ≡ map_some f (find_incident k db)
  step_incident =
      ap (find_incident k) (update_incident_frame k f (change_work_order id g db))
      ∙ find-modify_self (λ i. i.id) f same_id k db.incidents

  pub step_other_incident : (j : ℕ) → j ≢ k → find_incident j after ≡ find_incident j db
  step_other_incident j ne =
      ap (find_incident j) (update_incident_frame k f (change_work_order id g db))
      ∙ find-modify_ne (λ i. i.id) f same_id j k db.incidents ne

-- Completed at this time with this evidence.
abbrev pub IsCompletedWith : ℕ → Evidence → WorkOrder → Type 0
IsCompletedWith now e w =
    (w.status ≡ WorkOrderStatus.completed)
    × (w.completed_at ≡ some now)
    × (w.resolution_notes ≡ some e.notes)
    × (w.resolution_media_urls ≡ e.media)
    × (w.resolution_geom ≡ some e.place)

-- Resolved at this time with this evidence, and with 72 hours for the citizen.
abbrev pub IsResolvedWith : ℕ → Evidence → Incident → Type 0
IsResolvedWith now e i =
    (i.status ≡ IncidentStatus.resolved)
    × (i.resolved_at ≡ some now)
    × (i.resolution_notes ≡ some e.notes)
    × (i.resolution_proof_urls ≡ e.media)
    × (i.resolution_geom ≡ some e.place)
    × (i.auto_confirm_deadline ≡ some (now + 72 * 3600 * 1000000))

near_incident-found :
    (within : Within) (k : ℕ) (e : Evidence) (db : Db)
    → near_incident within k e.place db.incidents ≡ true
    → (i : Incident) × (find_incident k db ≡ some i) × (within i.geom e.place ≡ true)
near_incident-found within k e db h = elim (Option-cases (find_incident k db)) [
  | inl q ↦ let never : false ≡ true = rw (near_incident, q) at h in cc
  | inr (i, q) ↦ (i, q, rw (near_incident, q) at h)
]

module _ (clock : Clock) (id worker : ℕ) (db : Db) {w' : WorkOrder} {db' : Db} where
  -- A resolution that returns has passed every gate: the caller may act on the order, it was not
  -- completed, there is a photo, the notes are not blank and the place is within 50 m. The order is
  -- then completed with this evidence and one version more, its incident is resolved with the same
  -- evidence and the citizen's deadline 72 hours ahead, and no other order or incident has changed.
  pub resolve_work_order_effect :
      (within : Within) (e : Evidence)
      → resolve_work_order within clock id worker e db ≡ ok (w', db')
      → (w : WorkOrder) × (find_work_order id db ≡ some w)
        × (assigned_to_other w worker ≡ false)
        × (is_completed w.status ≡ false)
        × (is_empty e.media ≡ false)
        × (is_blank e.notes ≡ false)
        × (find_work_order id db' ≡ some w')
        × IsCompletedWith clock.now e w'
        × (w'.version ≡ w.version + 1)
        × ((i : Incident) × (find_incident w.incident_id db ≡ some i)
            × (within i.geom e.place ≡ true))
        × ((i' : Incident) × (find_incident w.incident_id db' ≡ some i')
            × IsResolvedWith clock.now e i')
        × ((j : ℕ) → j ≢ id → find_work_order j db' ≡ find_work_order j db)
        × ((j : ℕ) → j ≢ w.incident_id → find_incident j db' ≡ find_incident j db)
  resolve_work_order_effect within e h =
      let (w, found, mine, open_order, sound, made, eq) =
        resolve_work_order-eq-ok clock id worker within e db h in
      let g = complete_work clock.now clock.transaction e in
      let f = resolve_incident clock.now e in
      let (i, there, near) = near_incident-found within w.incident_id e db sound.0 in
      (
        w,
        found,
        mine,
        open_order,
        sound.2,
        sound.1,
        rw (eq, made) (step_work_order id g (λ v. refl) w.incident_id f (λ i. refl) db ∙ rw found),
        rw made (refl, refl, refl, refl, refl),
        rw made,
        (i, there, near),
        (
          f i,
          rw eq (step_incident id g (λ v. refl) w.incident_id f (λ i. refl) db ∙ rw there refl),
          (refl, refl, refl, refl, refl, refl),
        ),
        rw eq (step_other_work_order id g (λ v. refl) w.incident_id f (λ i. refl) db),
        rw eq (step_other_incident id g (λ v. refl) w.incident_id f (λ i. refl) db),
      )

  -- After a start every report still agrees with its incidents.
  pub start_work_order-IsConsistent :
      IsConsistent db → start_work_order clock id worker db ≡ ok (w', db') → IsConsistent db'
  start_work_order-IsConsistent h e =
      let (w, _, _, _, _, eq) = start_work_order-eq-ok clock id worker db e in
      rw eq (
        update_incident-IsConsistent w.incident_id (begin_incident clock.now) (λ i. refl)
          (change_work_order id (begin_work clock.now clock.transaction) db) h)

  -- After a resolution every report still agrees with its incidents.
  pub resolve_work_order-IsConsistent :
      (within : Within) (e : Evidence)
      → IsConsistent db
      → resolve_work_order within clock id worker e db ≡ ok (w', db')
      → IsConsistent db'
  resolve_work_order-IsConsistent within e h q =
      let (w, _, _, _, _, _, eq) = resolve_work_order-eq-ok clock id worker within e db q in
      rw eq (
        update_incident-IsConsistent w.incident_id (resolve_incident clock.now e) (λ i. refl)
          (change_work_order id (complete_work clock.now clock.transaction e) db) h)

sync_assignment-IsConsistent :
    (clock : Clock) (k : ℕ) (worker : Option ℕ) (db : Db)
    → IsConsistent db
    → IsConsistent (sync_assignment clock k worker db)
unfolding sync_assignment
sync_assignment-IsConsistent clock k none db h = h
sync_assignment-IsConsistent clock k (some w) db h =
    recompute_reports_for_incident-IsConsistent k (assign clock.now w) (λ i. refl) db h

-- After a creation every report still agrees with its incidents.
pub create_work_order-IsConsistent :
    (clock : Clock) (fresh org incident department : ℕ) (worker : Option ℕ) (db : Db)
    {w : WorkOrder} {db' : Db}
    → IsConsistent db
    → create_work_order clock fresh org incident department worker db ≡ ok (w, db')
    → IsConsistent db'
create_work_order-IsConsistent clock fresh org incident department worker db h e =
    rw (create_work_order-eq-ok clock fresh org incident department worker db e).2 (
      sync_assignment-IsConsistent clock incident worker
        (record db {
          work_orders =
              db.work_orders ++ new_work_order clock fresh org incident department worker ∷ [];
        })
        h)
