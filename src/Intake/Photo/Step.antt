-- ===== src/Intake/Photo/Step.antt =====
-- About one round of the loop of process_photo_intake, civicbrain/domain/intake/services.py.
use mathlib.Core.List.{Memᴰ, append-nil}
use civicbrain_v.Base.{
  ℕ, List, [], ◌∷◌, ◌++◌, map, Bool, true, false, ◌&&◌, ◌||◌, not, ◌==◌, any-mem, modify, Option,
  none, some, ◌≡◌, ◌⊎◌, refl, sym, subst, ◌∙◌, ap, arith, Bool-cases, inl, inr,
}
use civicbrain_v.Intake.Models.{Incident, IncidentStatus, Observation, ObservationStatus}
use civicbrain_v.Store.{Db, refers_to}
use civicbrain_v.Intake.Routing.{Detected, IntakeDb, RoutingCall, route_and_deduplicate_observation}
use civicbrain_v.Intake.Routing.Destination.{Routed, route-Routed}
use civicbrain_v.Intake.Photo.{
  PhotoCall, Reference, Drawn, PhotoOutcome, processed, failed, ◌>>=◌, by_category, categories_of,
  add_observation, routing_call, observed, routed_defect, with_status, process_defect,
}
use civicbrain_v.Intake.Photo.Children.{
  own_statuses, referred, has_incident, has_observation, distinct_ids, select-present, select-new,
  modify-last,
}

-- What one round does to the tables: an observation of the report is added, and perhaps an
-- incident; the statuses that are collected are those of the incidents that it refers to.
pub record Effect (call : PhotoCall) (d : Drawn) (db : Db) (statuses : List IncidentStatus)
    (statuses' : List IncidentStatus) (db' : Db) : Type 0 where
  pub observation : Observation
  pub extra : List Incident
  pub more : List IncidentStatus
  pub changed : db' ≡ record db {
    incidents = db.incidents ++ extra;
    observations = db.observations ++ observation ∷ [];
  }
  pub collected : statuses' ≡ statuses ++ more
  pub key : observation.id ≡ d.observation_id
  pub parent : observation.intake_report_id ≡ call.report_id
  pub own : own_statuses (db.incidents ++ extra) observation ≡ more
  pub added : (extra ≡ []) ⊎ ((n : Incident) × (extra ≡ n ∷ []) × (n.id ≡ d.incident_id))
  pub refers :
      (k : ℕ)
      → refers_to observation.incident_id k ≡ true
      → (has_incident k db.incidents || k == d.incident_id) ≡ true

-- The keys of a defect are used by no row.
abbrev pub unused : Db → Drawn → Bool
unused db d =
    not (has_observation d.observation_id db.observations)
    && not (has_incident d.incident_id db.incidents)
    && not (referred d.incident_id db.observations)

module _ (call : PhotoCall) (d : Drawn) (s : IntakeDb) (statuses : List IncidentStatus)
    (new : unused s.db d ≡ true) (unique : distinct_ids s.db.incidents ≡ true) where
  abbrev seen : Observation
  seen = record {
    id = d.observation_id;
    intake_report_id = call.report_id;
    incident_id = none;
    status = ObservationStatus.detected;
  }

  own_statuses-none : (is : List Incident) → own_statuses is seen ≡ []
  own_statuses-none [] = refl
  own_statuses-none (i ∷ is) = own_statuses-none is

  unrouted-Effect :
      Effect call d s.db statuses statuses (add_observation d.observation_id call.report_id s).db
  unrouted-Effect = record {
    observation = seen;
    extra = [];
    more = [];
    changed = rw (append-nil s.db.incidents) refl;
    collected = sym (append-nil statuses);
    key = refl;
    parent = refl;
    own = own_statuses-none (s.db.incidents ++ []);
    added = inl refl;
    refers = λ k h. cc;
  }

  left_alone :
      {statuses' : List IncidentStatus} {s' : IntakeDb}
      → ◌≡◌ {A = PhotoOutcome (List IncidentStatus × IntakeDb)}
          (processed (statuses, add_observation d.observation_id call.report_id s))
          (processed (statuses', s'))
      → Effect call d s.db statuses statuses' s'.db
  left_alone {statuses'} {s'} h =
      let first : statuses ≡ statuses' = cc in
      let second : add_observation d.observation_id call.report_id s ≡ s' = cc in
      subst (λ (x : IntakeDb). Effect call d s.db statuses statuses' x.db) second
        (subst
          (λ xs.
            Effect call d s.db statuses xs (add_observation d.observation_id call.report_id s).db)
          first unrouted-Effect)

  abbrev linked_to_key : ℕ → Observation
  linked_to_key k = record seen {
    incident_id = some k;
    status = ObservationStatus.linked_to_incident;
  }

  relinked :
      (k : ℕ)
      → modify
          (λ (x : Observation). x.id == d.observation_id)
          (λ (x : Observation). record x {
            incident_id = some k;
            status = ObservationStatus.linked_to_incident;
          })
          (s.db.observations ++ seen ∷ [])
        ≡ s.db.observations ++ linked_to_key k ∷ []
  relinked k = modify-last d.observation_id _ s.db.observations seen (ground arith) refl

  old_refers :
      (i : Incident) (k : ℕ)
      → Memᴰ i s.db.incidents
      → (i.id == k) ≡ true
      → (has_incident k s.db.incidents || k == d.incident_id) ≡ true
  old_refers i k m h =
      let there : has_incident k s.db.incidents ≡ true =
        any-mem (λ (x : Incident). x.id == k) m h in
      rw there refl

  linked_to_key-Effect :
      (r : RoutingCall) (o : Detected) (i : Incident) (s' : IntakeDb)
      → r.incident_id ≡ d.incident_id
      → o.id ≡ d.observation_id
      → Routed r o (add_observation d.observation_id call.report_id s) i s'.db
      → Effect call d s.db statuses (statuses ++ i.status ∷ []) s'.db
  linked_to_key-Effect r o i s' q e (inl (m, changed)) = record {
    observation = linked_to_key i.id;
    extra = [];
    more = i.status ∷ [];
    changed = changed ∙ rw (e, relinked i.id, append-nil s.db.incidents) refl;
    collected = refl;
    key = refl;
    parent = refl;
    own = rw (append-nil s.db.incidents, select-present s.db.incidents unique m) refl;
    added = inl refl;
    refers = λ k h. old_refers i k m h;
  }
  linked_to_key-Effect r o i s' q e (inr (fresh, changed)) =
      let id : i.id ≡ d.incident_id = ap (λ (x : Incident). x.id) fresh ∙ q in
      let absent : has_incident i.id s.db.incidents ≡ false = rw id (ground arith) in
      record {
        observation = linked_to_key i.id;
        extra = i ∷ [];
        more = i.status ∷ [];
        changed = changed ∙ rw (e, relinked i.id) refl;
        collected = refl;
        key = refl;
        parent = refl;
        own = ap (map (λ (x : Incident). x.status)) (select-new s.db.incidents i absent);
        added = inr (i, refl, id);
        refers = λ k h. ground arith;
      }

  with_status-Effect :
      (r : RoutingCall) (o : Detected)
      → r.incident_id ≡ d.incident_id
      → o.id ≡ d.observation_id
      → (routing : Option (Incident × IntakeDb))
      → route_and_deduplicate_observation r o (add_observation d.observation_id call.report_id s)
        ≡ routing
      → {statuses' : List IncidentStatus} {s' : IntakeDb}
      → with_status statuses routing ≡ processed (statuses', s')
      → Effect call d s.db statuses statuses' s'.db
  with_status-Effect r o q e none _ h = cc
  with_status-Effect r o q e (some (i, t)) run {statuses'} {s'} h =
      let first : statuses ++ i.status ∷ [] ≡ statuses' = cc in
      let second : t ≡ s' = cc in
      let effect =
        linked_to_key-Effect r o i t q e
          (route-Routed r o (add_observation d.observation_id call.report_id s) run) in
      subst (λ (x : IntakeDb). Effect call d s.db statuses statuses' x.db) second
        (subst (λ xs. Effect call d s.db statuses xs t.db) first effect)

  routed_defect-Effect :
      (ward : Option ℕ) (department : ℕ) {statuses' : List IncidentStatus} {s' : IntakeDb}
      → routed_defect call ward department d statuses
          (add_observation d.observation_id call.report_id s)
        ≡ processed (statuses', s')
      → Effect call d s.db statuses statuses' s'.db
  routed_defect-Effect none department h = left_alone h
  routed_defect-Effect (some w) department h = elim (Bool-cases d.defect.needs_manual_triage) [
    | inl e ↦ left_alone (rw e at h)
    | inr e ↦
        with_status-Effect (routing_call call w d.incident_id) (observed department d) refl refl _
          refl (rw e at h)
  ]

  pub process_defect-Effect :
      (tables : Reference) {statuses' : List IncidentStatus} {s' : IntakeDb}
      → process_defect call tables d statuses s ≡ processed (statuses', s')
      → Effect call d s.db statuses statuses' s'.db
  unfolding process_defect
  process_defect-Effect tables h =
      given
        (by_category call.organization_id d.defect.category_code s.db.departments
          (categories_of call.organization_id d.defect.category_code tables.categories))
        h
    where
      given :
          (o : PhotoOutcome ℕ) {statuses' : List IncidentStatus} {s' : IntakeDb}
          → (o >>= λ department.
              routed_defect call call.ward_id department d statuses
                (add_observation d.observation_id call.report_id s))
            ≡ processed (statuses', s')
          → Effect call d s.db statuses statuses' s'.db
      given (failed e) h = cc
      given (processed department) h = routed_defect-Effect call.ward_id department h
