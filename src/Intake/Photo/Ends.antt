-- ===== src/Intake/Photo/Ends.antt =====
-- About the calls of process_photo_intake, civicbrain/domain/intake/services.py, that return.
use civicbrain_v.Base.{
  ℕ, List, [], ◌∷◌, ◌++◌, Bool, true, false, ◌&&◌, ◌==◌, any, elem, find, Option, none, some, ◌≡◌,
  refl, ◌∙◌, arith, Bool-cases, Option-cases, inl, inr,
}
use civicbrain_v.Text.{Text, text_eq}
use civicbrain_v.Directory.Models.{Department}
use civicbrain_v.Taxonomy.Categories.{TaxonomyCategory}
use civicbrain_v.Intake.Models.{Incident, IncidentStatus}
use civicbrain_v.Intake.Routing.{IntakeDb, RoutingCall, Detected}
use civicbrain_v.Intake.Routing.Best.{route_and_deduplicate_observation_lem}
use civicbrain_v.Intake.Photo.{
  PhotoCall, Reference, Drawn, PhotoOutcome, processed, categories_of, by_code, by_category,
  add_observation, routing_call, observed, routed_defect, process_defect, process_defects,
  process_photo_intake, add_report, finish_report,
}
use civicbrain_v.Intake.Routing.Destination.{Routed, route-Routed}

abbrev pub at_most_one : List TaxonomyCategory → Bool
at_most_one (_ ∷ _ ∷ _) = false
at_most_one _ = true

abbrev pub has_department : ℕ → List Department → Bool
has_department org = any (λ (d : Department). d.organization_id == org)

find-some :
    (org : ℕ) (ds : List Department)
    → has_department org ds ≡ true
    → (d : Department) × (find (λ (x : Department). x.organization_id == org) ds ≡ some d)
find-some org [] h = cc
find-some org (d ∷ ds) h = elim (Bool-cases (d.organization_id == org)) [
  | inl e ↦ (d, rw e refl)
  | inr e ↦ let (x, q) = find-some org ds (ground arith) in (x, rw e q)
]

by_code-processed :
    (org : ℕ) (code : Text) (ds : List Department)
    → has_department org ds ≡ true
    → (k : ℕ) × (by_code org code ds ≡ processed k)
by_code-processed org code ds h =
    elim (Option-cases
      (find (λ (d : Department). d.organization_id == org && text_eq d.code code) ds)) [
        | inl e ↦ let (d, q) = find-some org ds h in (d.id, rw (by_code, e, q) refl)
        | inr (d, e) ↦ (d.id, rw (by_code, e) refl)
      ]

by_category-processed :
    (org : ℕ) (code : Text) (ds : List Department) (cs : List TaxonomyCategory)
    → has_department org ds ≡ true
    → at_most_one cs ≡ true
    → (k : ℕ) × (by_category org code ds cs ≡ processed k)
by_category-processed org code ds [] h u = by_code-processed org code ds h
by_category-processed org code ds (c ∷ []) h u = (c.department_id, refl)
by_category-processed org code ds (c ∷ d ∷ cs) h u = cc

-- The call returns, and leaves the departments as they are.
abbrev Returns : IntakeDb → PhotoOutcome (List IncidentStatus × IntakeDb) → Type 0
Returns s o =
    (xs : List IncidentStatus) × (s' : IntakeDb) × (o ≡ processed (xs, s'))
    × (s'.db.departments ≡ s.db.departments)

routed_defect-Returns :
    (call : PhotoCall) (ward : Option ℕ) (department : ℕ) (d : Drawn)
    (statuses : List IncidentStatus) (s : IntakeDb)
    → Returns s (routed_defect call ward department d statuses s)
routed_defect-Returns call none department d statuses s = (statuses, s, refl, refl)
routed_defect-Returns call (some w) department d statuses s =
    elim (Bool-cases d.defect.needs_manual_triage) [
      | inl e ↦ (statuses, s, rw e refl, refl)
      | inr e ↦
          let r = routing_call call w d.incident_id in
          let o = observed department d in
          let (ls, i, s', run, linked, same, audits, ends) =
            route_and_deduplicate_observation_lem r o s in
          (statuses ++ i.status ∷ [], s', rw (e, run) refl, kept r o i s' (route-Routed r o s run))
    ]
  where
    kept :
        (r : RoutingCall) (o : Detected) (i : Incident) (s' : IntakeDb)
        → Routed r o s i s'.db
        → s'.db.departments ≡ s.db.departments
    kept r o i s' (inl (m, e)) = rw e refl
    kept r o i s' (inr (m, e)) = rw e refl

module _ (call : PhotoCall) (tables : Reference)
    (unique : (code : Text)
      → at_most_one (categories_of call.organization_id code tables.categories) ≡ true) where
  process_defect-Returns :
      (d : Drawn) (statuses : List IncidentStatus) (s : IntakeDb)
      → has_department call.organization_id s.db.departments ≡ true
      → Returns s (process_defect call tables d statuses s)
  unfolding process_defect
  process_defect-Returns d statuses s h =
      let (k, e) =
        by_category-processed call.organization_id d.defect.category_code s.db.departments
          (categories_of call.organization_id d.defect.category_code tables.categories) h
          (unique d.defect.category_code) in
      rw e (
        routed_defect-Returns call call.ward_id k d statuses
          (add_observation d.observation_id call.report_id s))

  process_defects-Returns :
      (ds : List Drawn) (statuses : List IncidentStatus) (s : IntakeDb)
      → has_department call.organization_id s.db.departments ≡ true
      → Returns s (process_defects call tables ds statuses s)
  unfolding process_defects
  process_defects-Returns [] statuses s h = (statuses, s, refl, refl)
  process_defects-Returns (d ∷ ds) statuses s h =
      let (xs, t, e, same) = process_defect-Returns d statuses s h in
      let (ys, s', f, same') = process_defects-Returns ds xs t (rw same h) in
      (ys, s', rw e f, same' ∙ same)

  -- For a known organization with a department, of which no two approved categories share a code,
  -- a photo intake returns: no defect is left without a department, and routing never fails.
  pub process_photo_intake-processed :
      (ds : List Drawn) (s : IntakeDb)
      → elem call.organization_id tables.organizations ≡ true
      → has_department call.organization_id s.db.departments ≡ true
      → (s' : IntakeDb) × (process_photo_intake call tables ds s ≡ processed s')
  unfolding process_photo_intake
  process_photo_intake-processed ds s known h =
      let (xs, t, e, same) = process_defects-Returns ds [] (add_report call s) h in
      (finish_report call.report_id ds xs t, rw (known, e) refl)
