-- ===== src/Intake/Status/Ladder.antt =====
-- The report status by rank: the filter and the minimum of `calculate_intake_status_from_children`
-- as a ladder of questions about ranks, and the kinds of statuses that the ranks stand for.
use civicbrain_v.Base.{
  ℕ, List, [], ◌∷◌, Bool, true, false, ◌&&◌, ◌||◌, not, if◌then◌else◌, ltb, leb, select, any, all,
  ◌≡◌, refl, arith, inl, inr, Bool-cases,
}
use civicbrain_v.Intake.Models.{IncidentStatus, IntakeStatus, is_rejected}
use civicbrain_v.Intake.Status.{
  progression_rank, mapping, least_child, status_of_active, calculate_intake_status_from_children,
}

-- Awaiting triage, verification or a crew; in the field; done.
abbrev pub is_reported : IncidentStatus → Bool
is_reported IncidentStatus.reported = true
is_reported _ = false

abbrev pub is_triaged : IncidentStatus → Bool
is_triaged IncidentStatus.triaged = true
is_triaged _ = false

abbrev pub is_queued : IncidentStatus → Bool
is_queued IncidentStatus.verified = true
is_queued IncidentStatus.prioritized = true
is_queued _ = false

abbrev pub is_in_field : IncidentStatus → Bool
is_in_field IncidentStatus.assigned = true
is_in_field IncidentStatus.in_progress = true
is_in_field IncidentStatus.reopened = true
is_in_field IncidentStatus.appealed = true
is_in_field _ = false

abbrev pub is_awaiting_citizen : IncidentStatus → Bool
is_awaiting_citizen IncidentStatus.resolved = true
is_awaiting_citizen _ = false

abbrev pub is_confirmed : IncidentStatus → Bool
is_confirmed IncidentStatus.confirmed = true
is_confirmed _ = false

-- The least rank is at most k if and only if some rank is.
least_child-le :
    (k : ℕ) (m : IncidentStatus) (xs : List IncidentStatus)
    → leb (progression_rank (least_child m xs)) k ≡ any (λ s. leb (progression_rank s) k) (m ∷ xs)
unfolding least_child
least_child-le k m [] = ground arith
least_child-le k m (s ∷ xs) =
    ground
      (arith, least_child-le k (if ltb (progression_rank s) (progression_rank m) then s else m) xs)

pub any-or :
    (p q : IncidentStatus → Bool) (xs : List IncidentStatus)
    → any (λ s. p s || q s) xs ≡ (any p xs || any q xs)
any-or p q [] = refl
any-or p q (x ∷ xs) = ground (arith, any-or p q xs)

-- A test that agrees with another on what is not rejected finds as much among the active.
any-active :
    (p q : IncidentStatus → Bool)
    → ((s : IncidentStatus) → (not (is_rejected s) && p s) ≡ q s)
    → (xs : List IncidentStatus) → any p (select (λ t. not (is_rejected t)) xs) ≡ any q xs
any-active p q h [] = refl
any-active p q h (x ∷ xs) = ground (arith, h x, any-active p q h xs)

abbrev pub any_le : ℕ → List IncidentStatus → Bool
any_le k = any (λ s. leb (progression_rank s) k)

abbrev pub is_active : IncidentStatus → Bool
is_active s = not (is_rejected s)

-- The questions of `reference_status`, put by rank.
unfoldable pub ladder : List IncidentStatus → IntakeStatus
ladder ys =
    if any (λ s. leb 7 (progression_rank s)) ys && any (λ s. ltb (progression_rank s) 7) ys
    then IntakeStatus.partially_resolved
    else if any_le 1 ys
    then IntakeStatus.submitted
    else if any_le 2 ys
    then IntakeStatus.processing
    else if any_le 4 ys
    then IntakeStatus.triaged
    else if any_le 6 ys
    then IntakeStatus.in_progress
    else if any_le 7 ys
    then IntakeStatus.resolved
    else if any_le 8 ys
    then IntakeStatus.closed
    else IntakeStatus.rejected

-- `mapping` reads the rank.
mapping-ladder :
    (s : IncidentStatus)
    → is_active s ≡ true
    → mapping s ≡ (
        if leb (progression_rank s) 1
        then IntakeStatus.submitted
        else if leb (progression_rank s) 2
        then IntakeStatus.processing
        else if leb (progression_rank s) 4
        then IntakeStatus.triaged
        else if leb (progression_rank s) 6
        then IntakeStatus.in_progress
        else if leb (progression_rank s) 7
        then IntakeStatus.resolved
        else if leb (progression_rank s) 8
        then IntakeStatus.closed
        else IntakeStatus.rejected)
unfolding mapping progression_rank
mapping-ladder IncidentStatus.reported h = refl
mapping-ladder IncidentStatus.rejected h = cc
mapping-ladder _ h = refl

least_child-active :
    (m : IncidentStatus) (xs : List IncidentStatus)
    → all is_active (m ∷ xs) ≡ true
    → is_active (least_child m xs) ≡ true
unfolding least_child
least_child-active m [] h = ground arith
least_child-active m (s ∷ xs) h =
    ground (
      arith,
      least_child-active (if ltb (progression_rank s) (progression_rank m) then s else m) xs,
    )

status_of_active-ladder :
    (ys : List IncidentStatus) → all is_active ys ≡ true → status_of_active ys ≡ ladder ys
unfolding status_of_active ladder
status_of_active-ladder [] h = refl
status_of_active-ladder (m ∷ xs) h = rw (
  ← least_child-le 1 m xs,
  ← least_child-le 2 m xs,
  ← least_child-le 4 m xs,
  ← least_child-le 6 m xs,
  ← least_child-le 7 m xs,
  ← least_child-le 8 m xs,
  mapping-ladder (least_child m xs) (least_child-active m xs h),
)

all-select : (xs : List IncidentStatus) → all is_active (select is_active xs) ≡ true
all-select [] = refl
all-select (x ∷ xs) = ground (arith, all-select xs)

select-rejected : (xs : List IncidentStatus) → all is_rejected xs ≡ true → select is_active xs ≡ []
select-rejected [] h = refl
select-rejected (x ∷ xs) h = ground (arith, select-rejected xs)

pub calculate-ladder :
    (s : IncidentStatus) (xs : List IncidentStatus)
    → calculate_intake_status_from_children (s ∷ xs) ≡ ladder (select is_active (s ∷ xs))
unfolding calculate_intake_status_from_children
calculate-ladder s xs =
    rw (← status_of_active-ladder (select is_active (s ∷ xs)) (all-select (s ∷ xs)))
      (elim (Bool-cases (all is_rejected (s ∷ xs))) [
        | inl e ↦ rw (e, select-rejected (s ∷ xs) e) (unfold status_of_active in refl)
        | inr e ↦ rw e
      ])

-- The sets of statuses that the ranks up to 2, 4, 6, 7 and 8 stand for.
abbrev pub is_undispatched : IncidentStatus → Bool
is_undispatched s = is_reported s || is_triaged s

abbrev pub is_unassigned : IncidentStatus → Bool
is_unassigned s = is_undispatched s || is_queued s

abbrev pub is_unresolved : IncidentStatus → Bool
is_unresolved s = is_unassigned s || is_in_field s

abbrev pub is_unconfirmed : IncidentStatus → Bool
is_unconfirmed s = is_unresolved s || is_awaiting_citizen s

abbrev pub is_done : IncidentStatus → Bool
is_done s = is_awaiting_citizen s || is_confirmed s

module _ (xs : List IncidentStatus) where
  any_le-named :
      (k : ℕ) (q : IncidentStatus → Bool)
      → ((s : IncidentStatus) → (is_active s && leb (progression_rank s) k) ≡ q s)
      → any_le k (select is_active xs) ≡ any q xs
  any_le-named k q h = any-active (λ s. leb (progression_rank s) k) q h xs

  pub le_one : any_le 1 (select is_active xs) ≡ any is_reported xs
  unfolding progression_rank
  le_one = any_le-named 1 is_reported (λ s. ground arith)

  pub le_two : any_le 2 (select is_active xs) ≡ any is_undispatched xs
  unfolding progression_rank
  le_two = any_le-named 2 is_undispatched (λ s. ground arith)

  pub le_four : any_le 4 (select is_active xs) ≡ any is_unassigned xs
  unfolding progression_rank
  le_four = any_le-named 4 is_unassigned (λ s. ground arith)

  pub le_six : any_le 6 (select is_active xs) ≡ any is_unresolved xs
  unfolding progression_rank
  le_six = any_le-named 6 is_unresolved (λ s. ground arith)

  pub le_seven : any_le 7 (select is_active xs) ≡ any is_unconfirmed xs
  unfolding progression_rank
  le_seven = any_le-named 7 is_unconfirmed (λ s. ground arith)

  pub le_eight : any_le 8 (select is_active xs) ≡ any is_active xs
  unfolding progression_rank
  le_eight = any_le-named 8 is_active (λ s. ground arith)

  pub ge_seven : any (λ s. leb 7 (progression_rank s)) (select is_active xs) ≡ any is_done xs
  unfolding progression_rank
  ge_seven = any-active (λ s. leb 7 (progression_rank s)) is_done (λ s. ground arith) xs

  pub lt_seven : any (λ s. ltb (progression_rank s) 7) (select is_active xs) ≡ any is_unresolved xs
  unfolding progression_rank
  lt_seven = any-active (λ s. ltb (progression_rank s) 7) is_unresolved (λ s. ground arith) xs
