-- ===== src/Dispatch/Evidence.antt =====
-- The evidence gate of civicbrain/domain/dispatch/services.py as a predicate on the database: what
-- every completed work order and every conflict review carries, with the rules for the changes that
-- the services make.
use civicbrain_v.Base.{
  ℕ, List, ◌∷◌, [], ◌++◌, Bool, true, false, some, ◌≡◌, sym, ◌∙◌, ◌==◌, modify, modify_first, All,
  All-map, All-append, ◌≢◌, inl, inr, Bool-cases, All-modify_first,
}
use civicbrain_v.Text.{Text, is_blank}
use civicbrain_v.Geo.{Point, Within}
use civicbrain_v.Intake.Models.{Incident, IntakeReport}
use civicbrain_v.Dispatch.Models.{WorkOrder, DispatchConflictReview, is_completed}
use civicbrain_v.Dispatch.WorkOrders.{is_empty, near_incident, update_incident}
use civicbrain_v.Dispatch.WorkOrders.Frame.{update_incident_frame, near_incident-modify}
use civicbrain_v.Store.{Db, find_work_order, change_work_order}

-- Notes that are not blank, a photo, and a place within 50 m of the incident.
abbrev pub IsSound : Within → List Incident → ℕ → Point → Text → List Text → Type 0
IsSound within is incident place notes media =
    (near_incident within incident place is ≡ true)
    × (is_blank notes ≡ false)
    × (is_empty media ≡ false)

-- A completed work order carries sound evidence.
abbrev pub IsProved : Within → List Incident → WorkOrder → Type 0
IsProved within is w =
    is_completed w.status ≡ true
    → (place : Point) × (notes : Text) × (w.resolution_geom ≡ some place)
      × (w.resolution_notes ≡ some notes)
      × IsSound within is w.incident_id place notes w.resolution_media_urls

-- A review is about the incident of its work order.
abbrev pub IsAbout : DispatchConflictReview → WorkOrder → Type 0
IsAbout r w = w.id ≡ r.work_order_id → w.incident_id ≡ r.incident_id

abbrev pub IsPreserved : Within → List Incident → List WorkOrder → DispatchConflictReview → Type 0
IsPreserved within is ws r =
    IsSound within is r.incident_id r.submitted_geom r.submitted_notes r.submitted_media_urls
    × All (IsAbout r) ws

-- No two work orders have one id.
abbrev pub IsKeyed : List WorkOrder → Type 0
IsKeyed [] = Unit
IsKeyed (w ∷ ws) = All (λ v. v.id ≢ w.id) ws × IsKeyed ws

pub record IsEvidenced (within : Within) (db : Db) : Type 0 where
  pub keyed : IsKeyed db.work_orders
  pub proved : All (IsProved within db.incidents) db.work_orders
  pub preserved : All (IsPreserved within db.incidents db.work_orders) db.reviews

module _ (within : Within) (q : Incident → Bool) (f : Incident → Incident)
    (same_id : (i : Incident) → (f i).id ≡ i.id)
    (same_geom : (i : Incident) → (f i).geom ≡ i.geom) where
  IsSound-moved :
      (is : List Incident) (j : ℕ) (p : Point) (t : Text) (m : List Text)
      → IsSound within is j p t m
      → IsSound within (modify q f is) j p t m
  IsSound-moved is j p t m (near, said, shown) =
      (near_incident-modify q f same_id same_geom within j p is ∙ near, said, shown)

  IsProved-moved :
      (is : List Incident) (w : WorkOrder)
      → IsProved within is w
      → IsProved within (modify q f is) w
  IsProved-moved is w h done =
      let (place, notes, at, said, sound) = h done in
      (
        place,
        notes,
        at,
        said,
        IsSound-moved is w.incident_id place notes w.resolution_media_urls sound,
      )

  -- A change of an incident that leaves its place keeps the gate, whatever it does to reports.
  pub moved-IsEvidenced :
      (db : Db) (rs : List IntakeReport)
      → IsEvidenced within db
      → IsEvidenced within (record db { incidents = modify q f db.incidents; reports = rs })
  moved-IsEvidenced db rs h = record {
    keyed = h.keyed;
    proved =
        All-map (IsProved within db.incidents) (IsProved within (modify q f db.incidents))
          (IsProved-moved db.incidents) db.work_orders h.proved;
    preserved =
        All-map (IsPreserved within db.incidents db.work_orders)
          (IsPreserved within (modify q f db.incidents) db.work_orders)
          (λ r (sound, about). (
            IsSound-moved db.incidents r.incident_id r.submitted_geom r.submitted_notes
                r.submitted_media_urls sound,
            about,
          ))
          db.reviews h.preserved;
  }

pub update_incident-IsEvidenced :
    (within : Within) (k : ℕ) (f : Incident → Incident)
    → ((i : Incident) → (f i).id ≡ i.id)
    → ((i : Incident) → (f i).geom ≡ i.geom)
    → (db : Db) → IsEvidenced within db
    → IsEvidenced within (update_incident k f db)
update_incident-IsEvidenced within k f same_id same_geom db h = rw (update_incident_frame k f db) (
    moved-IsEvidenced within (λ i. i.id == k) f same_id same_geom db
      (update_incident k f db).reports h)

modify_first-ids :
    (k : ℕ) (g : WorkOrder → WorkOrder) (n : ℕ)
    → ((w : WorkOrder) → (g w).id ≡ w.id)
    → (ws : List WorkOrder) → All (λ v. v.id ≢ n) ws
    → All (λ v. v.id ≢ n) (modify_first (λ w. w.id == k) g ws)
modify_first-ids k g n same ws =
    All-modify_first (λ v. v.id ≢ n) (λ w. w.id == k) g ws (λ w ne _ e. ne (sym (same w) ∙ e))

modify_first-IsKeyed :
    (k : ℕ) (g : WorkOrder → WorkOrder)
    → ((w : WorkOrder) → (g w).id ≡ w.id)
    → (ws : List WorkOrder) → IsKeyed ws
    → IsKeyed (modify_first (λ w. w.id == k) g ws)
modify_first-IsKeyed k g same [] h = tt
modify_first-IsKeyed k g same (w ∷ ws) (apart, keyed) = elim (Bool-cases (w.id == k)) [
  | inl e ↦ rw e (rw (same w) apart, keyed)
  | inr e ↦ rw e (modify_first-ids k g w.id same ws apart, modify_first-IsKeyed k g same ws keyed)
]

pub append-IsKeyed :
    (w : WorkOrder) (ws : List WorkOrder)
    → All (λ v. v.id ≢ w.id) ws
    → IsKeyed ws
    → IsKeyed (ws ++ w ∷ [])
append-IsKeyed w [] _ h = (tt, tt)
append-IsKeyed w (v ∷ ws) (ne, nes) (apart, keyed) = (
  All-append (λ u. u.id ≢ v.id) ws (w ∷ []) apart ((λ e. ne (sym e)), tt),
  append-IsKeyed w ws nes keyed,
)

-- A change of a work order keeps the gate, if it gives sound evidence whenever it completes it.
pub change_work_order-IsEvidenced :
    (within : Within) (id : ℕ) (g : WorkOrder → WorkOrder) (db : Db)
    → ((w : WorkOrder) → (g w).id ≡ w.id)
    → ((w : WorkOrder) → (g w).incident_id ≡ w.incident_id)
    → ((w : WorkOrder) → find_work_order id db ≡ some w → IsProved within db.incidents (g w))
    → IsEvidenced within db
    → IsEvidenced within (change_work_order id g db)
change_work_order-IsEvidenced within id g db keeps_id keeps_incident proves h = record {
  keyed = modify_first-IsKeyed id g keeps_id db.work_orders h.keyed;
  proved =
      All-modify_first (IsProved within db.incidents) (λ w. w.id == id) g db.work_orders
        (λ w _ e. proves w e) h.proved;
  preserved =
      All-map (IsPreserved within db.incidents db.work_orders)
        (IsPreserved within db.incidents (modify_first (λ w. w.id == id) g db.work_orders))
        (λ r (sound, about). (
          sound,
          All-modify_first (IsAbout r) (λ w. w.id == id) g db.work_orders
              (λ w p _ e. keeps_incident w ∙ p (sym (keeps_id w) ∙ e)) about,
        ))
        db.reviews h.preserved;
}
