-- ===== src/Intake/Status.antt =====
-- civicbrain/domain/intake/services.py: PROGRESSION_RANK and the status of a report by those of
-- its incidents.
mod Ladder
pub mod Reference
use civicbrain_v.Base.{
  ℕ, List, [], ◌∷◌, Bool, true, false, ◌&&◌, not, if◌then◌else◌, ltb, leb, select, any, all,
}
use civicbrain_v.Intake.Models.{IncidentStatus, IntakeStatus, is_rejected}

-- `PROGRESSION_RANK`. REJECTED is no key of it: its value here is never read, since the code looks
-- up only statuses that its filter has kept.
unfoldable pub progression_rank : IncidentStatus → ℕ
progression_rank IncidentStatus.reported = 1
progression_rank IncidentStatus.triaged = 2
progression_rank IncidentStatus.verified = 3
progression_rank IncidentStatus.prioritized = 4
progression_rank IncidentStatus.assigned = 5
progression_rank IncidentStatus.in_progress = 6
progression_rank IncidentStatus.reopened = 6
progression_rank IncidentStatus.appealed = 6
progression_rank IncidentStatus.resolved = 7
progression_rank IncidentStatus.confirmed = 8
progression_rank IncidentStatus.rejected = 0

-- `mapping`; the default of `mapping.get` stands for REJECTED, its one missing key.
unfoldable pub mapping : IncidentStatus → IntakeStatus
mapping IncidentStatus.reported = IntakeStatus.submitted
mapping IncidentStatus.triaged = IntakeStatus.processing
mapping IncidentStatus.verified = IntakeStatus.triaged
mapping IncidentStatus.prioritized = IntakeStatus.triaged
mapping IncidentStatus.assigned = IntakeStatus.in_progress
mapping IncidentStatus.in_progress = IntakeStatus.in_progress
mapping IncidentStatus.reopened = IntakeStatus.in_progress
mapping IncidentStatus.appealed = IntakeStatus.in_progress
mapping IncidentStatus.resolved = IntakeStatus.resolved
mapping IncidentStatus.confirmed = IntakeStatus.closed
mapping IncidentStatus.rejected = IntakeStatus.in_progress

-- `min(m :: xs, key=rank)`: the first of least rank.
unfoldable pub least_child : IncidentStatus → List IncidentStatus → IncidentStatus
least_child m [] = m
least_child m (s ∷ xs) =
    least_child (if ltb (progression_rank s) (progression_rank m) then s else m) xs

-- The part of the function behind the filter, where REJECTED no longer occurs.
unfoldable pub status_of_active : List IncidentStatus → IntakeStatus
status_of_active [] = IntakeStatus.rejected
status_of_active (m ∷ xs) =
    let has_resolved = any (λ s. leb 7 (progression_rank s)) (m ∷ xs) in
    let has_unresolved = any (λ s. ltb (progression_rank s) 7) (m ∷ xs) in
    if has_resolved && has_unresolved
    then IntakeStatus.partially_resolved
    else mapping (least_child m xs)

unfoldable pub calculate_intake_status_from_children : List IncidentStatus → IntakeStatus
calculate_intake_status_from_children [] = IntakeStatus.submitted
calculate_intake_status_from_children (s ∷ xs) =
    if all is_rejected (s ∷ xs)
    then IntakeStatus.rejected
    else status_of_active (select (λ t. not (is_rejected t)) (s ∷ xs))
