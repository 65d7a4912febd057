-- ===== src/Tests/Reports.antt =====
-- Reports, the nightly run and the staff's updates in the city.
use mathlib.Core.List.{Memᴰ}
use civicbrain_v.Base.{
  ℕ, ◌↔◌, find, ◌==◌, List, [], ◌∷◌, ◌≡◌, refl, true, modify, elem, All, some, none,
}
use civicbrain_v.Intake.Models.{Incident, IntakeReport, IntakeStatus, IncidentStatus}
use civicbrain_v.Intake.Status.{calculate_intake_status_from_children}
use civicbrain_v.Intake.Status.Reference.{reference_status, calculate-reference}
use civicbrain_v.Intake.Recompute.Consistency.{due_status}
use civicbrain_v.Intake.Progress.{StatusUpdate}
use civicbrain_v.Dispatch.Citizen.{has_token, citizen_confirm_report, evaluate_auto_confirm_cron}
use civicbrain_v.Dispatch.Citizen.Gate.{IsDue, evaluate_auto_confirm_cron_confirms}
use civicbrain_v.Dispatch.Citizen.Decision.{citizen_confirm_report_closes}
use civicbrain_v.Text.{text_eq}
use civicbrain_v.Store.{Db, ok}
use civicbrain_v.Tests.City.{report, after, city, incident}

abbrev mixed : List IncidentStatus
mixed = IncidentStatus.rejected ∷ IncidentStatus.resolved ∷ IncidentStatus.appealed ∷ []

calculate-reference_example : calculate_intake_status_from_children mixed ≡ reference_status mixed
calculate-reference_example = calculate-reference mixed

-- Incident 7 has waited for its citizen long enough.
abbrev waiting : Db
waiting = record city {
  incidents =
      record (incident 7 IncidentStatus.resolved) { auto_confirm_deadline = some 1500 }
      ∷ record (incident 8 IncidentStatus.resolved) { auto_confirm_deadline = some 2500 }
      ∷ [];
}

evaluate_auto_confirm_cron_confirms_example :
    ((k : ℕ)
      → (elem k (evaluate_auto_confirm_cron 2000 waiting).0 ≡ true)
        ↔ ((i : Incident) × Memᴰ i waiting.incidents × (i.id ≡ k) × IsDue 2000 i))
    × ((evaluate_auto_confirm_cron 2000 waiting).1.incidents
        ≡ modify
            (λ i. elem i.id (evaluate_auto_confirm_cron 2000 waiting).0)
            (λ i. record i { status = IncidentStatus.confirmed; confirmed_at = some 2000 })
            waiting.incidents)
    × All (λ i. ¬ IsDue 2000 i) (evaluate_auto_confirm_cron 2000 waiting).1.incidents
evaluate_auto_confirm_cron_confirms_example = evaluate_auto_confirm_cron_confirms 2000 waiting

abbrev asked : StatusUpdate
asked = record { status = IncidentStatus.resolved; reason = none; resolution_notes = none }

-- The citizen confirms while incident 8 has only been triaged.
abbrev half_done : Db
half_done = record city {
  incidents = incident 7 IncidentStatus.resolved ∷ incident 8 IncidentStatus.triaged ∷ [];
}

abbrev confirmed : Db
confirmed = after (citizen_confirm_report 2000 (84 ∷ []) half_done)

is_confirmed : citizen_confirm_report 2000 (84 ∷ []) half_done ≡ ok (7 ∷ [], confirmed)
unfolding citizen_confirm_report text_eq
is_confirmed = refl

has_report : find (has_token (84 ∷ [])) half_done.reports ≡ some (report IntakeStatus.processing)
unfolding text_eq
has_report = refl

citizen_confirm_report_closes_example :
    ((x : IntakeReport) × (find (λ x. x.id == 10) confirmed.reports ≡ some x)
      × (x.status ≡ IntakeStatus.closed))
    × (due_status confirmed 10 ≡ IntakeStatus.partially_resolved)
citizen_confirm_report_closes_example =
    citizen_confirm_report_closes 2000 (84 ∷ []) half_done is_confirmed has_report refl
