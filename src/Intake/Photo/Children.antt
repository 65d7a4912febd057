-- ===== src/Intake/Photo/Children.antt =====
-- About the statuses of a report's incidents when process_photo_intake of
-- civicbrain/domain/intake/services.py adds an observation or an incident.
use mathlib.Core.List.Memᴰ
use mathlib.Core.List.{Memᴰ, append_assoc, append-nil}
use civicbrain_v.Base.{
  ℕ, List, [], ◌∷◌, ◌++◌, map, Bool, true, false, ◌&&◌, not, ◌==◌, ==_refl, if◌then◌else◌, any,
  any-append, any-mem, select, select-append, modify, ◌≡◌, refl, sym, subst, ◌∙◌, arith, Bool-cases,
  inl, inr,
}
use civicbrain_v.Intake.Models.{Incident, IncidentStatus, Observation}
use civicbrain_v.Intake.Recompute.{child_statuses}
use civicbrain_v.Store.{refers_to}

-- The statuses of the incidents that the observation refers to.
abbrev pub own_statuses : List Incident → Observation → List IncidentStatus
own_statuses is o =
    map (λ (i : Incident). i.status) (select (λ (i : Incident). refers_to o.incident_id i.id) is)

abbrev pub referred : ℕ → List Observation → Bool
referred k = any (λ (o : Observation). refers_to o.incident_id k)

abbrev pub has_incident : ℕ → List Incident → Bool
has_incident k = any (λ (i : Incident). i.id == k)

abbrev pub has_observation : ℕ → List Observation → Bool
has_observation k = any (λ (o : Observation). o.id == k)

-- No two incidents have one id.
abbrev pub distinct_ids : List Incident → Bool
distinct_ids [] = true
distinct_ids (i ∷ is) = not (has_incident i.id is) && distinct_ids is

pub child_statuses-append :
    (r : ℕ) (is : List Incident) (os : List Observation) (o : Observation)
    → child_statuses r is (os ++ o ∷ [])
      ≡ child_statuses r is os ++ (if o.intake_report_id == r then own_statuses is o else [])
unfolding child_statuses
child_statuses-append r is [] o = elim (Bool-cases (o.intake_report_id == r)) [
  | inl e ↦ rw (e, append-nil (own_statuses is o)) refl
  | inr e ↦ rw e refl
]
child_statuses-append r is (p ∷ os) o = elim (Bool-cases (p.intake_report_id == r)) [
  | inl e ↦
      rw (e, child_statuses-append r is os o)
        (sym (append_assoc (own_statuses is p) (child_statuses r is os) _))
  | inr e ↦ rw (e, child_statuses-append r is os o) refl
]

-- An incident that an observation does not refer to adds no status of it.
own_statuses-append :
    (is : List Incident) (n : Incident) (o : Observation)
    → refers_to o.incident_id n.id ≡ false
    → own_statuses (is ++ n ∷ []) o ≡ own_statuses is o
own_statuses-append [] n o h = rw h refl
own_statuses-append (i ∷ is) n o h = ground (arith, own_statuses-append is n o)

pub child_statuses-unreferred :
    (r : ℕ) (is : List Incident) (n : Incident) (os : List Observation)
    → referred n.id os ≡ false
    → child_statuses r (is ++ n ∷ []) os ≡ child_statuses r is os
unfolding child_statuses
child_statuses-unreferred r is n [] h = refl
child_statuses-unreferred r is n (o ∷ os) h =
    rw
      (
        own_statuses-append is n o (ground arith),
        child_statuses-unreferred r is n os (ground arith),
      )
      refl

select-absent :
    (k : ℕ) (is : List Incident)
    → has_incident k is ≡ false
    → select (λ (i : Incident). k == i.id) is ≡ []
select-absent k [] h = refl
select-absent k (i ∷ is) h = ground (arith, select-absent k is)

-- Where ids are distinct, an id selects its incident alone.
pub select-present :
    {i : Incident} (is : List Incident)
    → distinct_ids is ≡ true
    → Memᴰ i is
    → select (λ (j : Incident). i.id == j.id) is ≡ i ∷ []
select-present {i} [] d m = absurd (Memᴰ.not-nil m)
select-present {i} (j ∷ is) d (Memᴰ.head e) =
    let here : select (λ (x : Incident). j.id == x.id) (j ∷ is) ≡ j ∷ [] =
      rw (==_refl j.id, select-absent j.id is (ground arith)) refl in
    subst (λ (y : Incident). select (λ (x : Incident). y.id == x.id) (j ∷ is) ≡ y ∷ []) (sym e) here
select-present {i} (j ∷ is) d (Memᴰ.tail m) =
    let there : has_incident i.id is ≡ true =
      any-mem (λ (x : Incident). x.id == i.id) m (==_refl i.id) in
    let other : (i.id == j.id) ≡ false = elim (Bool-cases (i.id == j.id)) [
      | inl e ↦
          let eq : i.id ≡ j.id = ground arith in
          let same : has_incident j.id is ≡ true = rw (← eq) there in ground arith
      | inr e ↦ e
    ] in
    rw other (select-present is (ground arith) m)

pub select-new :
    (is : List Incident) (n : Incident)
    → has_incident n.id is ≡ false
    → select (λ (j : Incident). n.id == j.id) (is ++ n ∷ []) ≡ n ∷ []
select-new is n h =
    select-append (λ (j : Incident). n.id == j.id) is (n ∷ [])
    ∙ rw (select-absent n.id is h, ==_refl n.id) refl

pub distinct_ids-append :
    (is : List Incident) (n : Incident)
    → distinct_ids is ≡ true
    → has_incident n.id is ≡ false
    → distinct_ids (is ++ n ∷ []) ≡ true
distinct_ids-append [] n d h = refl
distinct_ids-append (i ∷ is) n d h =
    ground
      (arith, distinct_ids-append is n, any-append (λ (x : Incident). x.id == i.id) is (n ∷ []))

-- A change by the key of the last observation changes it alone, if no other has the key.
pub modify-last :
    (k : ℕ) (f : Observation → Observation) (os : List Observation) (o : Observation)
    → has_observation k os ≡ false
    → o.id ≡ k
    → modify (λ (x : Observation). x.id == k) f (os ++ o ∷ []) ≡ os ++ f o ∷ []
modify-last k f [] o h e = rw (e, ==_refl k) refl
modify-last k f (p ∷ os) o h e = ground (arith, modify-last k f os o)
