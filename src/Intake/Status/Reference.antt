-- ===== src/Intake/Status/Reference.antt =====
-- calculate_intake_status_from_children of civicbrain/domain/intake/services.py, beside a plain
-- description by the kinds of incidents that a report has.
use civicbrain_v.Base.{
  List, [], ◌∷◌, Bool, ◌&&◌, ◌||◌, if◌then◌else◌, any, ◌≡◌, refl, ◌∙◌, sym, arith, any-exists,
  any-mem, select, true, ◌↔◌,
}
use mathlib.Core.List.{Memᴰ}
use mathlib.Core.List.Memᴰ
use civicbrain_v.Intake.Models.{IncidentStatus, IntakeStatus}
use civicbrain_v.Intake.Status.{calculate_intake_status_from_children}
use civicbrain_v.Intake.Status.Ladder.{
  is_reported, is_triaged, is_queued, is_in_field, is_awaiting_citizen, is_confirmed, is_active,
  is_undispatched, is_unassigned, is_unresolved, is_unconfirmed, any-or, ladder, calculate-ladder,
  le_one, le_two, le_four, le_six, le_seven, le_eight, ge_seven, lt_seven,
}
pub use civicbrain_v.Intake.Status.Ladder.{is_confirmed}

-- The status as a ladder of questions about the incidents of the report.
pub reference_status : List IncidentStatus → IntakeStatus
reference_status [] = IntakeStatus.submitted
reference_status (s ∷ xs) =
    let some_is = λ (p : IncidentStatus → Bool). any p (s ∷ xs) in
    let done = some_is is_awaiting_citizen || some_is is_confirmed in
    let open_case =
      some_is is_reported || some_is is_triaged || some_is is_queued || some_is is_in_field in
    if done && open_case
    then IntakeStatus.partially_resolved
    else if some_is is_reported
    then IntakeStatus.submitted
    else if some_is is_triaged
    then IntakeStatus.processing
    else if some_is is_queued
    then IntakeStatus.triaged
    else if some_is is_in_field
    then IntakeStatus.in_progress
    else if some_is is_awaiting_citizen
    then IntakeStatus.resolved
    else if some_is is_confirmed
    then IntakeStatus.closed
    else IntakeStatus.rejected

any-active_named :
    (xs : List IncidentStatus) → any is_active xs ≡ any (λ s. is_unconfirmed s || is_confirmed s) xs
any-active_named [] = refl
any-active_named (x ∷ xs) = ground (arith, any-active_named xs)

ladder-reference :
    (s : IncidentStatus) (xs : List IncidentStatus)
    → ladder (select is_active (s ∷ xs)) ≡ reference_status (s ∷ xs)
unfolding ladder reference_status
ladder-reference s xs =
    let ys = s ∷ xs in
    rw
      (
        ge_seven ys,
        lt_seven ys,
        le_one ys,
        le_two ys,
        le_four ys,
        le_six ys,
        le_seven ys,
        le_eight ys,
        any-active_named ys,
        any-or is_unconfirmed is_confirmed ys,
        any-or is_unresolved is_awaiting_citizen ys,
        any-or is_unassigned is_in_field ys,
        any-or is_undispatched is_queued ys,
        any-or is_reported is_triaged ys,
        any-or is_awaiting_citizen is_confirmed ys,
      )
      (ground arith)

-- For every list of incident statuses the filter, the tests and the minimum by rank give what the
-- ladder of questions gives: no incident, only rejected ones, some done and some not, and otherwise
-- the least advanced kind that is present.
pub calculate-reference :
    (xs : List IncidentStatus) → calculate_intake_status_from_children xs ≡ reference_status xs
unfolding reference_status calculate_intake_status_from_children
calculate-reference [] = refl
calculate-reference (s ∷ xs) = calculate-ladder s xs ∙ ladder-reference s xs

any-le_of_subset :
    (p : IncidentStatus → Bool) (xs ys : List IncidentStatus)
    → ((s : IncidentStatus) → Memᴰ s xs → Memᴰ s ys)
    → any p xs ≡ true
    → any p ys ≡ true
any-le_of_subset p xs ys h e = let (a, m, q) = any-exists p xs e in any-mem p (h a m) q

any-congr :
    (p : IncidentStatus → Bool) (xs ys : List IncidentStatus)
    → ((s : IncidentStatus) → Memᴰ s xs ↔ Memᴰ s ys)
    → any p xs ≡ any p ys
any-congr p xs ys h =
    ground (arith, any-le_of_subset p xs ys (λ s. (h s).0), any-le_of_subset p ys xs (λ s. (h s).1))

reference-same_members :
    (xs ys : List IncidentStatus)
    → ((s : IncidentStatus) → Memᴰ s xs ↔ Memᴰ s ys)
    → reference_status xs ≡ reference_status ys
unfolding reference_status
reference-same_members [] [] h = refl
reference-same_members [] (y ∷ ys) h = absurd (Memᴰ.not-nil ((h y).1 (Memᴰ.head refl)))
reference-same_members (x ∷ xs) [] h = absurd (Memᴰ.not-nil ((h x).0 (Memᴰ.head refl)))
reference-same_members (x ∷ xs) (y ∷ ys) h =
    let same = λ (p : IncidentStatus → Bool). any-congr p (x ∷ xs) (y ∷ ys) h in
    rw (
      same is_reported,
      same is_triaged,
      same is_queued,
      same is_in_field,
      same is_awaiting_citizen,
      same is_confirmed,
    )

-- The answer depends only on which statuses occur, not on their order or number.
pub calculate-same_members :
    (xs ys : List IncidentStatus)
    → ((s : IncidentStatus) → Memᴰ s xs ↔ Memᴰ s ys)
    → calculate_intake_status_from_children xs ≡ calculate_intake_status_from_children ys
calculate-same_members xs ys h =
    calculate-reference xs ∙ reference-same_members xs ys h ∙ sym (calculate-reference ys)

-- Neither done nor refused.
abbrev pub is_open : IncidentStatus → Bool
is_open s = is_unresolved s

any-is_open :
    (xs : List IncidentStatus)
    → any is_open xs
      ≡ (any is_reported xs || any is_triaged xs || any is_queued xs || any is_in_field xs)
any-is_open [] = refl
any-is_open (x ∷ xs) = ground (arith, any-is_open xs)

-- A report with an incident that is done and one that is open is partially resolved.
pub calculate-partially_resolved :
    (xs : List IncidentStatus)
    → any is_confirmed xs ≡ true
    → any is_open xs ≡ true
    → calculate_intake_status_from_children xs ≡ IntakeStatus.partially_resolved
unfolding reference_status
calculate-partially_resolved [] h k = cc
calculate-partially_resolved (s ∷ xs) h k =
    calculate-reference (s ∷ xs) ∙ (let open_kinds = any-is_open (s ∷ xs) in ground arith)
