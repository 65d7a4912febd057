-- ===== src/Dispatch/Citizen/Children.antt =====
-- About the incidents of a report and their statuses, before and after a decision of
-- civicbrain/domain/dispatch/services.py.
use civicbrain_v.Base.{
  ℕ, List, [], ◌∷◌, ◌++◌, map, Bool, true, false, ◌&&◌, ◌||◌, Option, ◌≡◌, refl, sym, ◌∙◌, ap, ◌==◌,
  select, any, modify, arith, Bool-cases, inl, inr,
}
use civicbrain_v.Intake.Models.{Incident, IncidentStatus, Observation, is_resolved}
use civicbrain_v.Intake.Status.Reference.{is_open, is_confirmed}
use civicbrain_v.Intake.Recompute.{child_statuses, is_child}
use civicbrain_v.Dispatch.Citizen.{confirm}
use civicbrain_v.Store.{refers_to}

any-append :
    (p : IncidentStatus → Bool) (xs ys : List IncidentStatus)
    → any p (xs ++ ys) ≡ (any p xs || any p ys)
any-append p [] ys = refl
any-append p (x ∷ xs) ys = ground (arith, any-append p xs ys)

any-map-select :
    (p : IncidentStatus → Bool) (o : Option ℕ) (is : List Incident)
    → any p (map (λ i. i.status) (select (λ i. refers_to o i.id) is))
      ≡ any (λ i. refers_to o i.id && p i.status) is
any-map-select p o [] = refl
any-map-select p o (i ∷ is) = ground (arith, any-map-select p o is)

module _ (p : IncidentStatus → Bool) (r : ℕ) where
  any-nothing : (is : List Incident) → any (λ i. is_child [] r i && p i.status) is ≡ false
  any-nothing [] = refl
  any-nothing (i ∷ is) = any-nothing is

  any-own :
      (o : Observation) (os : List Observation) (is : List Incident)
      → (o.intake_report_id == r) ≡ true
      → any (λ i. is_child (o ∷ os) r i && p i.status) is ≡ (
          any (λ i. refers_to o.incident_id i.id && p i.status) is
          || any (λ i. is_child os r i && p i.status) is)
  any-own o os [] h = refl
  any-own o os (i ∷ is) h = ground (arith, any-own o os is h)

  any-other :
      (o : Observation) (os : List Observation) (is : List Incident)
      → (o.intake_report_id == r) ≡ false
      → any (λ i. is_child (o ∷ os) r i && p i.status) is
        ≡ any (λ i. is_child os r i && p i.status) is
  any-other o os [] h = refl
  any-other o os (i ∷ is) h = ground (arith, any-other o os is h)

  child_statuses-own :
      (o : Observation) (os : List Observation) (is : List Incident)
      → (o.intake_report_id == r) ≡ true
      → any p (child_statuses r is (o ∷ os)) ≡ (
          any (λ i. refers_to o.incident_id i.id && p i.status) is
          || any p (child_statuses r is os))
  unfolding child_statuses
  child_statuses-own o os is h = rw h (
      any-append p (map (λ i. i.status) (select (λ i. refers_to o.incident_id i.id) is))
        (child_statuses r is os)
      ∙ ap (λ b. b || any p (child_statuses r is os)) (any-map-select p o.incident_id is))

  child_statuses-other :
      (o : Observation) (os : List Observation) (is : List Incident)
      → (o.intake_report_id == r) ≡ false
      → child_statuses r is (o ∷ os) ≡ child_statuses r is os
  unfolding child_statuses
  child_statuses-other o os is h = rw h refl

  -- A status occurs among the children of a report if and only if an incident of the report has it.
  pub any-child_statuses :
      (is : List Incident) (os : List Observation)
      → any p (child_statuses r is os) ≡ any (λ i. is_child os r i && p i.status) is
  unfolding child_statuses
  any-child_statuses is [] = sym (any-nothing is)
  any-child_statuses is (o ∷ os) = elim (Bool-cases (o.intake_report_id == r)) [
    | inl e ↦
        child_statuses-own o os is e
        ∙ ap (λ b. any (λ i. refers_to o.incident_id i.id && p i.status) is || b)
            (any-child_statuses is os)
        ∙ sym (any-own o os is e)
    | inr e ↦
        ap (any p) (child_statuses-other o os is e)
        ∙ any-child_statuses is os
        ∙ sym (any-other o os is e)
  ]

resolved-not_open : (s : IncidentStatus) → is_resolved s ≡ true → is_open s ≡ false
resolved-not_open s h = ground arith

-- What happens to the rows of a report when its resolved ones are confirmed.
module _ (now : ℕ) (c : ℕ → Bool) where
  abbrev pub moved : List Incident → List Incident
  moved = modify (λ i. c i.id && is_resolved i.status) (confirm now)

  pub moved-open :
      (is : List Incident)
      → any (λ i. c i.id && is_open i.status) is ≡ true
      → any (λ i. c i.id && is_open i.status) (moved is) ≡ true
  moved-open [] h = h
  moved-open (i ∷ is) h = elim (Bool-cases (c i.id && is_resolved i.status)) [
    | inl e ↦
        let shut = resolved-not_open i.status (ground arith) in
        let rest = moved-open is (ground arith) in rw e (ground arith)
    | inr e ↦ rw e (ground (arith, moved-open is))
  ]

  pub moved-confirmed :
      (is : List Incident)
      → any (λ i. c i.id && is_resolved i.status) is ≡ true
      → any (λ i. c i.id && is_confirmed i.status) (moved is) ≡ true
  moved-confirmed [] h = h
  moved-confirmed (i ∷ is) h = elim (Bool-cases (c i.id && is_resolved i.status)) [
    | inl e ↦ rw e (ground arith)
    | inr e ↦ rw e (ground (arith, moved-confirmed is))
  ]

  -- None is left that is resolved.
  pub moved-none_resolved :
      (is : List Incident) → select (λ i. c i.id && is_resolved i.status) (moved is) ≡ []
  moved-none_resolved [] = refl
  moved-none_resolved (i ∷ is) = elim (Bool-cases (c i.id && is_resolved i.status)) [
    | inl e ↦ rw e (ground (arith, moved-none_resolved is))
    | inr e ↦ rw (e, e) (moved-none_resolved is)
  ]

-- `is_child` by the id alone.
abbrev pub links : List Observation → ℕ → ℕ → Bool
links os r k = any (λ o. o.intake_report_id == r && refers_to o.incident_id k) os
