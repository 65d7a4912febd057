-- ===== src/Dispatch/Citizen/Gate.antt =====
-- About the citizens' decisions and the nightly run of
-- civicbrain/domain/dispatch/services.py.
use mathlib.Core.List.Memᴰ
use mathlib.Core.List.{Memᴰ}
use civicbrain_v.Base.{
  ℕ, List, [], ◌∷◌, map, true, false, some, ◌≡◌, refl, sym, ◌∙◌, ap, ◌==◌, ==_refl, find, select,
  modify, subst, elem, ◌≤◌, ==_iff, ◌↔◌, All, All-map, arith, Option-cases, Bool-cases, inl, inr,
}
use civicbrain_v.Geo.{Within}
use civicbrain_v.Text.{Text}
use civicbrain_v.Intake.Models.{Incident, IncidentStatus, IntakeStatus, IntakeReport, is_resolved}
use civicbrain_v.Intake.Recompute.{recompute_reports_for_incident}
use civicbrain_v.Intake.Recompute.Consistency.{
  IsConsistent, recompute_frame, recompute_reports_for_incident-IsConsistent,
}
use civicbrain_v.Dispatch.Evidence.{IsEvidenced, moved-IsEvidenced}
use civicbrain_v.Dispatch.Citizen.{
  has_token, confirm, appeal, resolved_incidents, decide, decide_report, citizen_confirm_report,
  citizen_dispute_report, is_expired, confirm_each, evaluate_auto_confirm_cron,
}
use civicbrain_v.Store.{Db, ok, change_incident}

-- A decision that is not refused.
pub decide_report-eq-ok :
    (token : Text) (status : IntakeStatus) (f : Incident → Incident) (db : Db) {ids : List ℕ}
    {db' : Db}
    → decide_report token status f db ≡ ok (ids, db')
    → (r : IntakeReport) × (find (has_token token) db.reports ≡ some r)
      × (ids ≡ map (λ i. i.id) (resolved_incidents r.id db))
      × (db' ≡ decide r.id status f db)
decide_report-eq-ok token status f db h = elim (Option-cases (find (has_token token) db.reports)) [
  | inl e ↦ ground arith
  | inr (r, e) ↦ (r, e, ground arith, ground arith)
]

module _ (within : Within) (now : ℕ) (token : Text) (db : Db) {ids : List ℕ} {db' : Db} where
  -- A confirmation by the citizen keeps the gate.
  pub citizen_confirm_report-IsEvidenced :
      IsEvidenced within db
      → citizen_confirm_report now token db ≡ ok (ids, db')
      → IsEvidenced within db'
  unfolding citizen_confirm_report decide
  citizen_confirm_report-IsEvidenced h e =
      let (r, _, _, eq) = decide_report-eq-ok token IntakeStatus.closed (confirm now) db e in
      rw eq (moved-IsEvidenced within _ (confirm now) (λ i. refl) (λ i. refl) db _ h)

  -- A dispute keeps the gate.
  pub citizen_dispute_report-IsEvidenced :
      (reason : Text)
      → IsEvidenced within db
      → citizen_dispute_report now token reason db ≡ ok (ids, db')
      → IsEvidenced within db'
  unfolding citizen_dispute_report decide
  citizen_dispute_report-IsEvidenced reason h e =
      let (r, _, _, eq) =
        decide_report-eq-ok token IntakeStatus.in_progress (appeal now reason) db e in
      rw eq (moved-IsEvidenced within _ (appeal now reason) (λ i. refl) (λ i. refl) db _ h)

-- The citizen has not answered in time.
abbrev pub IsDue : ℕ → Incident → Type 0
IsDue now i =
    (i.status ≡ IncidentStatus.resolved)
    × ((d : ℕ) × (i.auto_confirm_deadline ≡ some d) × (d ≤ now))

is_resolved-resolved : (s : IncidentStatus) → is_resolved s ≡ true → s ≡ IncidentStatus.resolved
is_resolved-resolved s h = ground arith

module _ (now : ℕ) where
  confirm_each-IsEvidenced :
      (within : Within) (ks : List ℕ) (db : Db)
      → IsEvidenced within db
      → IsEvidenced within (confirm_each now ks db)
  unfolding confirm_each
  confirm_each-IsEvidenced within [] db h = h
  confirm_each-IsEvidenced within (k ∷ ks) db h =
      confirm_each-IsEvidenced within ks
        (recompute_reports_for_incident k (change_incident k (confirm now) db))
        (rw (recompute_frame k (change_incident k (confirm now) db))
          (moved-IsEvidenced within (λ i. i.id == k) (confirm now) (λ i. refl) (λ i. refl) db _ h))

  confirm_each-IsConsistent :
      (ks : List ℕ) (db : Db) → IsConsistent db → IsConsistent (confirm_each now ks db)
  unfolding confirm_each
  confirm_each-IsConsistent [] db h = h
  confirm_each-IsConsistent (k ∷ ks) db h =
      confirm_each-IsConsistent ks
        (recompute_reports_for_incident k (change_incident k (confirm now) db))
        (recompute_reports_for_incident-IsConsistent k (confirm now) (λ i. refl) db h)

  confirm-modify :
      (k : ℕ) (ks : List ℕ) (is : List Incident)
      → modify (λ i. elem i.id ks) (confirm now) (modify (λ i. i.id == k) (confirm now) is)
        ≡ modify (λ i. elem i.id (k ∷ ks)) (confirm now) is
  confirm-modify k ks [] = refl
  confirm-modify k ks (i ∷ is) = ground (arith, confirm-modify k ks is)

  modify-nothing : (is : List Incident) → modify (λ i. elem i.id []) (confirm now) is ≡ is
  modify-nothing [] = refl
  modify-nothing (i ∷ is) = ap (λ (js : List Incident). i ∷ js) (modify-nothing is)

  -- The loop confirms the listed incidents.
  confirm_each-incidents :
      (ks : List ℕ) (db : Db)
      → (confirm_each now ks db).incidents ≡ modify (λ i. elem i.id ks) (confirm now) db.incidents
  unfolding confirm_each
  confirm_each-incidents [] db = sym (modify-nothing db.incidents)
  confirm_each-incidents (k ∷ ks) db =
      confirm_each-incidents ks
        (recompute_reports_for_incident k (change_incident k (confirm now) db))
      ∙ ap (λ (d : Db). modify (λ i. elem i.id ks) (confirm now) d.incidents)
          (recompute_frame k (change_incident k (confirm now) db))
      ∙ confirm-modify k ks db.incidents

  -- An expired incident is in the list.
  confirmed-not_expired :
      (ids : List ℕ) (is : List Incident)
      → All (λ i. is_expired now i ≡ true → elem i.id ids ≡ true) is
      → All (λ i. is_expired now i ≡ false) (modify (λ i. elem i.id ids) (confirm now) is)
  confirmed-not_expired ids [] h = tt
  confirmed-not_expired ids (i ∷ is) (h, hs) = elim (Bool-cases (elem i.id ids)) [
    | inl e ↦ rw e (refl, confirmed-not_expired ids is hs)
    | inr e ↦ rw e (ground (arith, h), confirmed-not_expired ids is hs)
  ]

  abbrev listed : List Incident → List ℕ
  listed is = map (λ j. j.id) (select (is_expired now) is)

  listed-grows :
      (a : ℕ) (x : Incident) (is : List Incident)
      → elem a (listed is) ≡ true
      → elem a (listed (x ∷ is)) ≡ true
  listed-grows a x is h = elim (Bool-cases (is_expired now x)) [
    | inl e ↦ rw e (ground (arith, h))
    | inr e ↦ rw e h
  ]

  listed-head :
      (x : Incident) (is : List Incident)
      → is_expired now x ≡ true
      → elem x.id (listed (x ∷ is)) ≡ true
  listed-head x is h = rw (h, ==_refl x.id)

  listed-All :
      (is : List Incident) → All (λ i. is_expired now i ≡ true → elem i.id (listed is) ≡ true) is
  listed-All [] = tt
  listed-All (x ∷ is) = (
    listed-head x is,
    All-map (λ i. is_expired now i ≡ true → elem i.id (listed is) ≡ true)
        (λ i. is_expired now i ≡ true → elem i.id (listed (x ∷ is)) ≡ true)
        (λ i h e. listed-grows i.id x is (h e)) is (listed-All is),
  )

  is_expired-IsDue : (i : Incident) → is_expired now i ≡ true → IsDue now i
  is_expired-IsDue i h = elim (Option-cases i.auto_confirm_deadline) [
    | inl e ↦ absurd (ground (arith, e))
    | inr (d, e) ↦ (is_resolved-resolved i.status (ground arith), (d, e, ground (arith, e)))
  ]

  IsDue-is_expired : (i : Incident) → IsDue now i → is_expired now i ≡ true
  IsDue-is_expired i (s, (d, e, le)) = rw (is_expired, s, e) (ground arith)

  -- The ids in the list are those of the incidents that are due.
  listed-IsDue :
      (k : ℕ) (is : List Incident)
      → elem k (listed is) ≡ true
      → (i : Incident) × Memᴰ i is × (i.id ≡ k) × IsDue now i
  listed-IsDue k [] h = cc
  listed-IsDue k (x ∷ is) h = elim (Bool-cases (is_expired now x)) [
    | inl e ↦ elim (Bool-cases (x.id == k)) [
      | inl q ↦ (x, Memᴰ.head refl, (==_iff x.id k).0 q, is_expired-IsDue x e)
      | inr q ↦
          let (i, m, same, due) = listed-IsDue k is (ground (arith, rw e at h)) in
          (i, Memᴰ.tail m, same, due)
    ]
    | inr e ↦ let (i, m, same, due) = listed-IsDue k is (rw e at h) in (i, Memᴰ.tail m, same, due)
  ]

  listed-member :
      {i : Incident} (is : List Incident)
      → Memᴰ i is
      → is_expired now i ≡ true
      → elem i.id (listed is) ≡ true
  listed-member [] m h = absurd (Memᴰ.not-nil m)
  listed-member {i} (x ∷ is) (Memᴰ.head e) h =
      subst (λ (y : Incident). elem y.id (listed (x ∷ is)) ≡ true) (sym e)
        (listed-head x is (subst (λ (y : Incident). is_expired now y ≡ true) e h))
  listed-member {i} (x ∷ is) (Memᴰ.tail m) h = listed-grows i.id x is (listed-member is m h)

  IsDue-listed :
      (k : ℕ) (is : List Incident)
      → (i : Incident) × Memᴰ i is × (i.id ≡ k) × IsDue now i
      → elem k (listed is) ≡ true
  IsDue-listed k is (i, m, same, due) =
      subst (λ j. elem j (listed is) ≡ true) same (listed-member is m (IsDue-is_expired i due))

  -- The nightly run reports the incidents that are resolved and whose deadline has come, confirms
  -- these now, leaves the others as they were, and leaves no incident behind that is due.
  pub evaluate_auto_confirm_cron_confirms :
      (db : Db)
      → let (ids, db') = evaluate_auto_confirm_cron now db in
        ((k : ℕ)
          → (elem k ids ≡ true) ↔ ((i : Incident) × Memᴰ i db.incidents × (i.id ≡ k) × IsDue now i))
        × (db'.incidents
            ≡ modify
                (λ i. elem i.id ids)
                (λ i. record i { status = IncidentStatus.confirmed; confirmed_at = some now })
                db.incidents)
        × All (λ i. ¬ IsDue now i) db'.incidents
  unfolding evaluate_auto_confirm_cron
  evaluate_auto_confirm_cron_confirms db =
      let same = confirm_each-incidents (listed db.incidents) db in
      (
        λ k. (listed-IsDue k db.incidents, IsDue-listed k db.incidents),
        same,
        rw same (
            All-map (λ i. is_expired now i ≡ false) (λ i. ¬ IsDue now i)
              (λ i h due. let never = IsDue-is_expired i due in cc) _
              (confirmed-not_expired (listed db.incidents) db.incidents (listed-All db.incidents))),
      )

  -- It keeps the evidence gate.
  pub evaluate_auto_confirm_cron-IsEvidenced :
      (within : Within) (db : Db)
      → IsEvidenced within db
      → IsEvidenced within (evaluate_auto_confirm_cron now db).1
  unfolding evaluate_auto_confirm_cron
  evaluate_auto_confirm_cron-IsEvidenced within db =
      confirm_each-IsEvidenced within (listed db.incidents) db

  -- It keeps every report in agreement with its incidents.
  pub evaluate_auto_confirm_cron-IsConsistent :
      (db : Db) → IsConsistent db → IsConsistent (evaluate_auto_confirm_cron now db).1
  unfolding evaluate_auto_confirm_cron
  evaluate_auto_confirm_cron-IsConsistent db = confirm_each-IsConsistent (listed db.incidents) db
