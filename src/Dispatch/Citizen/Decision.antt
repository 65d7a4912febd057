-- ===== src/Dispatch/Citizen/Decision.antt =====
-- About what citizen_confirm_report and citizen_dispute_report of
-- civicbrain/domain/dispatch/services.py do to a report and its incidents.
use civicbrain_v.Base.{
  ℕ, List, [], ◌∷◌, Bool, true, ◌&&◌, some, ◌≡◌, ◌≢◌, refl, ◌∙◌, ◌==◌, ==_refl, find, select, any,
  modify, arith, Option-cases, Bool-cases, inl, inr, if◌then◌else◌, map_some, find-modify_self,
  subst,
}
use civicbrain_v.Text.{Text}
use civicbrain_v.Intake.Models.{Incident, IntakeStatus, IntakeReport, is_resolved}
use civicbrain_v.Intake.Status.Reference.{is_open, is_confirmed, calculate-partially_resolved}
use civicbrain_v.Intake.Recompute.{is_child}
use civicbrain_v.Intake.Recompute.Consistency.{due_status}
use civicbrain_v.Dispatch.Citizen.{
  has_token, confirm, resolved_incidents, decide, decide_report, citizen_confirm_report,
  citizen_dispute_report, appeal,
}
use civicbrain_v.Store.{Db, Error, ok, err}
use civicbrain_v.Dispatch.Citizen.Children.{
  links, any-child_statuses, moved-open, moved-confirmed, moved-none_resolved,
}

find-own_id :
    (p : IntakeReport → Bool) (r : IntakeReport) (rs : List IntakeReport)
    → find p rs ≡ some r
    → (x : IntakeReport) × (find (λ x. x.id == r.id) rs ≡ some x)
find-own_id p r [] h = cc
find-own_id p r (x ∷ rs) h = elim (Bool-cases (x.id == r.id)) [
  | inl e ↦ (x, rw e refl)
  | inr e ↦ elim (Bool-cases (p x)) [
    | inl q ↦
        let same : x ≡ r = ground arith in
        let own : (x.id == r.id) ≡ true =
          subst (λ (y : IntakeReport). (x.id == y.id) ≡ true) same (==_refl x.id) in
        cc
    | inr q ↦ let (y, found) = find-own_id p r rs (ground arith) in (y, rw e found)
  ]
]

find-modify_stable :
    (p q : IntakeReport → Bool) (g : IntakeReport → IntakeReport)
    → ((x : IntakeReport) → p (g x) ≡ p x)
    → (rs : List IntakeReport)
    → find p (modify q g rs) ≡ map_some (λ x. if q x then g x else x) (find p rs)
find-modify_stable p q g same [] = refl
find-modify_stable p q g same (x ∷ rs) = ground (arith, same x, find-modify_stable p q g same rs)

select-select :
    (p q : Incident → Bool) (is : List Incident)
    → select q (select p is) ≡ select (λ i. p i && q i) is
select-select p q [] = refl
select-select p q (i ∷ is) = ground (arith, select-select p q is)

any-select : (p : Incident → Bool) (is : List Incident) → select p is ≢ [] → any p is ≡ true
any-select p [] h = absurd (h refl)
any-select p (i ∷ is) h = elim (Bool-cases (p i)) [
  | inl e ↦ rw e refl
  | inr e ↦ rw e (any-select p is (λ none_left. h (rw e none_left)))
]

refused_report :
    (token : Text) (status : IntakeStatus) (f : Incident → Incident) (db : Db) {r : IntakeReport}
    → find (has_token token) db.reports ≡ some r
    → resolved_incidents r.id db ≡ []
    → decide_report token status f db ≡ err Error.nothing_resolved
refused_report token status f db found nothing = rw (found, nothing, decide_report) refl

module _ (now : ℕ) (token : Text) (db : Db) {ids : List ℕ} {db' : Db} where
  decided :
      citizen_confirm_report now token db ≡ ok (ids, db')
      → (r : IntakeReport) × (find (has_token token) db.reports ≡ some r)
        × (resolved_incidents r.id db ≢ [])
        × (db' ≡ decide r.id IntakeStatus.closed (confirm now) db)
  unfolding citizen_confirm_report
  decided h = elim (Option-cases (find (has_token token) db.reports)) [
    | inl e ↦ ground arith
    | inr (r, e) ↦ (r, e, ground arith, ground arith)
  ]

  -- In the database that a confirmation leaves, neither a second confirmation nor a dispute under
  -- the same token is accepted, at any time: no resolved incident is left.
  pub citizen_confirm_report_once :
      citizen_confirm_report now token db ≡ ok (ids, db')
      → (later : ℕ) (reason : Text)
      → (citizen_confirm_report later token db' ≡ err Error.nothing_resolved)
        × (citizen_dispute_report later token reason db' ≡ err Error.nothing_resolved)
  unfolding citizen_confirm_report citizen_dispute_report decide
  citizen_confirm_report_once h later reason =
      let (r, found, _, eq) = decided h in
      let reports =
        find-modify_stable (has_token token) (λ x. x.id == r.id)
          (λ x. record x { status = IntakeStatus.closed }) (λ x. refl) db.reports in
      let again : find (has_token token) db'.reports
          ≡ some (record r { status = IntakeStatus.closed }) =
        rw eq (reports ∙ rw (found, ==_refl r.id) refl) in
      let none_left : resolved_incidents r.id db' ≡ [] = rw eq (
        select-select (is_child db.observations r.id) (λ i. is_resolved i.status) _
        ∙ moved-none_resolved now (links db.observations r.id) db.incidents) in
      (
        refused_report token IntakeStatus.closed (confirm later) db' again none_left,
        refused_report token IntakeStatus.in_progress (appeal later reason) db' again none_left,
      )

  -- A report may be closed while it should not be: if another incident of the report is still open
  -- when the citizen confirms, the report is CLOSED, although its incidents then give
  -- PARTIALLY_RESOLVED.
  pub citizen_confirm_report_closes :
      {r : IntakeReport}
      → citizen_confirm_report now token db ≡ ok (ids, db')
      → find (has_token token) db.reports ≡ some r
      → any (λ i. is_child db.observations r.id i && is_open i.status) db.incidents ≡ true
      → ((x : IntakeReport) × (find (λ x. x.id == r.id) db'.reports ≡ some x)
          × (x.status ≡ IntakeStatus.closed))
        × (due_status db' r.id ≡ IntakeStatus.partially_resolved)
  unfolding decide
  citizen_confirm_report_closes {r} h found open_one =
      let (q, found_q, some_resolved, eq_q) = decided h in
      let same : q ≡ r = cc in
      let eq : db' ≡ decide r.id IntakeStatus.closed (confirm now) db = rw (← same) eq_q in
      let (x, row) = find-own_id (has_token token) r db.reports found in
      let resolved_one : any (λ i. links db.observations r.id i.id && is_resolved i.status)
            db.incidents
          ≡ true =
        any-select (λ i. links db.observations r.id i.id && is_resolved i.status) db.incidents
          (λ nothing. some_resolved (
            rw same (
              select-select (is_child db.observations r.id) (λ i. is_resolved i.status) db.incidents
              ∙ nothing))) in
      (
        (
          record x { status = IntakeStatus.closed },
          rw eq (
              find-modify_self (λ x. x.id) (λ x. record x { status = IntakeStatus.closed })
                (λ x. refl) r.id db.reports
              ∙ rw row refl),
          refl,
        ),
        rw eq (
            calculate-partially_resolved _
              (any-child_statuses is_confirmed r.id _ db.observations
                ∙ moved-confirmed now (links db.observations r.id) db.incidents resolved_one)
              (any-child_statuses is_open r.id _ db.observations
                ∙ moved-open now (links db.observations r.id) db.incidents open_one)),
      )
