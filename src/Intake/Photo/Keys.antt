-- ===== src/Intake/Photo/Keys.antt =====
-- About the keys that are drawn and the statuses of reports in one round of the loop of
-- process_photo_intake, civicbrain/domain/intake/services.py.
use mathlib.Core.List.{append-nil}
use civicbrain_v.Base.{
  ℕ, List, [], ◌∷◌, ◌++◌, Bool, true, false, ◌&&◌, not, ◌==◌, if◌then◌else◌, any-append, all, ◌≡◌,
  ◌⊎◌, refl, ◌∙◌, arith, Bool-cases, inl, inr,
}
use civicbrain_v.Intake.Models.{Incident, IncidentStatus, Observation}
use civicbrain_v.Intake.Recompute.{child_statuses}
use civicbrain_v.Store.{Db, refers_to}
use civicbrain_v.Intake.Photo.{PhotoCall, Drawn}
use civicbrain_v.Intake.Photo.Children.{
  has_incident, distinct_ids, distinct_ids-append, child_statuses-append, child_statuses-unreferred,
}
use civicbrain_v.Intake.Photo.Step.{Effect, unused}

-- The keys of two defects differ.
abbrev pub keys_differ : Drawn → Drawn → Bool
keys_differ d e = not (d.observation_id == e.observation_id) && not (d.incident_id == e.incident_id)

abbrev pub all_differ : List Drawn → Bool
all_differ [] = true
all_differ (d ∷ ds) = all (keys_differ d) ds && all_differ ds

-- The keys that are drawn are new, and ids of incidents are distinct.
pub record IsReady (db : Db) (ds : List Drawn) : Type 0 where
  pub unique : distinct_ids db.incidents ≡ true
  pub fresh : all (unused db) ds ≡ true
  pub apart : all_differ ds ≡ true

module _ {call : PhotoCall} {d : Drawn} {db db' : Db} {statuses statuses' : List IncidentStatus}
    (effect : Effect call d db statuses statuses' db') (new : unused db d ≡ true) where
  has_incident-extra :
      (k : ℕ)
      → (k == d.incident_id) ≡ false
      → has_incident k (db.incidents ++ effect.extra) ≡ has_incident k db.incidents
  has_incident-extra k h = given effect.extra effect.added
    where
      given :
          (extra : List Incident)
          → (extra ≡ []) ⊎ ((n : Incident) × (extra ≡ n ∷ []) × (n.id ≡ d.incident_id))
          → has_incident k (db.incidents ++ extra) ≡ has_incident k db.incidents
      given extra (inl e) = rw (e, append-nil db.incidents) refl
      given extra (inr (n, e, q)) =
          rw e (any-append (λ (i : Incident). i.id == k) db.incidents (n ∷ []) ∙ ground arith)

  unreferred :
      (k : ℕ)
      → has_incident k db.incidents ≡ false
      → (k == d.incident_id) ≡ false
      → refers_to effect.observation.incident_id k ≡ false
  unreferred k h e = elim (Bool-cases (refers_to effect.observation.incident_id k)) [
    | inl q ↦ let used = effect.refers k q in ground arith
    | inr q ↦ q
  ]

  -- No other key comes into use.
  unused-Effect : (e : Drawn) → keys_differ d e ≡ true → unused db e ≡ true → unused db' e ≡ true
  unused-Effect e h k = rw effect.changed (
      ground (
        arith,
        effect.key,
        has_incident-extra e.incident_id,
        unreferred e.incident_id,
        any-append (λ (o : Observation). o.id == e.observation_id) db.observations
            (effect.observation ∷ []),
        any-append (λ (o : Observation). refers_to o.incident_id e.incident_id) db.observations
            (effect.observation ∷ []),
      ))

  pub unused-all :
      (es : List Drawn)
      → all (keys_differ d) es ≡ true
      → all (unused db) es ≡ true
      → all (unused db') es ≡ true
  unused-all [] h k = refl
  unused-all (e ∷ es) h k = ground (arith, unused-Effect e, unused-all es)

  pub Effect-unique : distinct_ids db.incidents ≡ true → distinct_ids db'.incidents ≡ true
  Effect-unique h = rw effect.changed (given effect.extra effect.added)
    where
      given :
          (extra : List Incident)
          → (extra ≡ []) ⊎ ((n : Incident) × (extra ≡ n ∷ []) × (n.id ≡ d.incident_id))
          → distinct_ids (db.incidents ++ extra) ≡ true
      given extra (inl e) = rw (e, append-nil db.incidents) h
      given extra (inr (n, e, q)) =
          rw e (distinct_ids-append db.incidents n h (rw q (ground arith)))

  child_statuses-extra :
      (r : ℕ)
      → child_statuses r (db.incidents ++ effect.extra) db.observations
        ≡ child_statuses r db.incidents db.observations
  child_statuses-extra r = given effect.extra effect.added
    where
      given :
          (extra : List Incident)
          → (extra ≡ []) ⊎ ((n : Incident) × (extra ≡ n ∷ []) × (n.id ≡ d.incident_id))
          → child_statuses r (db.incidents ++ extra) db.observations
            ≡ child_statuses r db.incidents db.observations
      given extra (inl e) = rw (e, append-nil db.incidents) refl
      given extra (inr (n, e, q)) =
          rw e (child_statuses-unreferred r db.incidents n db.observations (rw q (ground arith)))

  -- The statuses of the report grow by those that are collected, and those of others stay.
  pub Effect-children :
      (r : ℕ)
      → child_statuses r db'.incidents db'.observations
        ≡ child_statuses r db.incidents db.observations
          ++ (if call.report_id == r then effect.more else [])
  Effect-children r = rw effect.changed (
      child_statuses-append r (db.incidents ++ effect.extra) db.observations effect.observation
      ∙ rw (child_statuses-extra r, effect.own, effect.parent) refl)
