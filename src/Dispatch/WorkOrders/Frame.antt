-- ===== src/Dispatch/WorkOrders/Frame.antt =====
-- About the tables that the change of an incident and of its reports does not touch, for the
-- operations of civicbrain/domain/dispatch/services.py.
use civicbrain_v.Base.{
  ℕ, List, [], ◌∷◌, Bool, ◌≡◌, refl, ◌==◌, modify, inl, inr, arith, Option-cases, Bool-cases,
  modify-eq_of_find-none,
}
use civicbrain_v.Geo.{Point, Within}
use civicbrain_v.Intake.Models.{Incident}
use civicbrain_v.Intake.Recompute.Consistency.{
  IsConsistent, recompute_frame, recompute_reports_for_incident-IsConsistent,
}
use civicbrain_v.Dispatch.WorkOrders.{update_incident, near_incident}
use civicbrain_v.Store.{Db, find_incident, change_incident}

-- Only the incident and the reports change.
pub update_incident_frame :
    (k : ℕ) (f : Incident → Incident) (db : Db)
    → update_incident k f db ≡ record db {
      incidents = modify (λ i. i.id == k) f db.incidents;
      reports = (update_incident k f db).reports;
    }
unfolding update_incident
update_incident_frame k f db = elim (Option-cases (find_incident k db)) [
  | inl e ↦ rw (e, update_incident, modify-eq_of_find-none (λ i. i.id == k) f db.incidents e)
  | inr (i, e) ↦ rw (e, update_incident, recompute_frame k (change_incident k f db))
]

module _ (k : ℕ) (f : Incident → Incident) (same_id : (i : Incident) → (f i).id ≡ i.id) where
  pub update_incident-IsConsistent :
      (db : Db) → IsConsistent db → IsConsistent (update_incident k f db)
  unfolding update_incident
  update_incident-IsConsistent db h = elim (Option-cases (find_incident k db)) [
    | inl e ↦ rw (e, update_incident) h
    | inr (i, e) ↦
        rw (e, update_incident) (recompute_reports_for_incident-IsConsistent k f same_id db h)
  ]

-- Where the changed incidents keep their ids and places, what is near to them stays so.
pub near_incident-modify :
    (q : Incident → Bool) (f : Incident → Incident)
    → ((i : Incident) → (f i).id ≡ i.id)
    → ((i : Incident) → (f i).geom ≡ i.geom)
    → (within : Within) (j : ℕ) (p : Point) (is : List Incident)
    → near_incident within j p (modify q f is) ≡ near_incident within j p is
near_incident-modify q f same_id same_geom within j p [] = refl
near_incident-modify q f same_id same_geom within j p (i ∷ is) = ground (
  arith,
  same_id i,
  same_geom i,
  Bool-cases (q i),
  near_incident-modify q f same_id same_geom within j p is,
)
