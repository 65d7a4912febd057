-- ===== src/Causal/Links/Run.antt =====
-- The calls that an answer of create_causal_link, civicbrain/api/v1/causal.py, comes from.
use civicbrain_v.Base.{
  ℕ, List, [], ◌∷◌, ◌++◌, true, ◌&&◌, ◌==◌, Option, none, some, any, ◌≡◌, refl, sym, ap, Bool-cases,
  Option-cases, inl, inr,
}
use civicbrain_v.Causal.{Validation, validate_acyclic_addition, find_all_downstream_symptoms}
use civicbrain_v.Causal.Links.{
  LinkCall, LinkError, answered, failed, unfinished, CreateCausalLinkRequest, may_link, has_node,
  edges_of, new_link, linked, insert_link, judge_link, create_causal_link,
}
use civicbrain_v.Causal.Models.{Float, IncidentCausalLink, GraphDb}

pub record LinkRun (f : Float) (call : LinkCall) (payload : CreateCausalLinkRequest) (db : GraphDb)
    (l : IncidentCausalLink) (db' : GraphDb) : Type 0 where
  pub org : ℕ
  pub downstream : List ℕ
  pub claimed : call.org_id ≡ some org
  pub permitted : may_link call.role ≡ true
  pub rooted : has_node org payload.root_incident_id db ≡ true
  pub aimed : has_node org payload.symptom_incident_id db ≡ true
  pub accepted :
      validate_acyclic_addition
        (edges_of org db)
        payload.root_incident_id
        payload.symptom_incident_id
      ≡ some Validation.accepted
  pub found :
      find_all_downstream_symptoms payload.root_incident_id
        (edges_of org db ++ (payload.root_incident_id, payload.symptom_incident_id) ∷ [])
      ≡ some downstream
  pub link : l ≡ new_link call org payload
  pub state : db' ≡ linked f call org payload downstream db

answered-injective : {A : Type 0} {x y : A} → answered x ≡ answered y → x ≡ y
answered-injective h = cc

never : {A P : Type 0} {e : LinkError} {y : A} → failed e ≡ answered y → P
never h = cc

never_ends : {A P : Type 0} {y : A} → unfinished ≡ answered y → P
never_ends h = cc

module _ (f : Float) (call : LinkCall) (payload : CreateCausalLinkRequest) (db : GraphDb)
    {l : IncidentCausalLink} {db' : GraphDb} where
  insert_inv :
      (org : ℕ)
      → insert_link f call org payload db ≡ answered (l, db')
      → (ds : List ℕ) × (find_all_downstream_symptoms payload.root_incident_id
            (edges_of org db ++ (payload.root_incident_id, payload.symptom_incident_id) ∷ [])
          ≡ some ds)
        × (l ≡ new_link call org payload)
        × (db' ≡ linked f call org payload ds db)
  unfolding insert_link
  insert_inv org h =
      let r = payload.root_incident_id in
      let s = payload.symptom_incident_id in
      elim (Bool-cases (
        any (λ (x : IncidentCausalLink). x.root_incident_id == r && x.symptom_incident_id == s)
          db.links)) [
            | inl e ↦ never (rw (insert_link, e) at h)
            | inr e ↦
                elim (Option-cases
                  (find_all_downstream_symptoms r (edges_of org db ++ (r, s) ∷ []))) [
                    | inl q ↦ never_ends (rw (insert_link, e, q) at h)
                    | inr (ds, q) ↦
                        let pair = answered-injective (rw (insert_link, e, q) at h) in
                        (ds, q, sym (ap (λ x. x.0) pair), sym (ap (λ x. x.1) pair))
                  ]
          ]

  judge_inv :
      (org : ℕ) (o : Option Validation)
      → judge_link f call org payload db o ≡ answered (l, db')
      → (o ≡ some Validation.accepted) × (insert_link f call org payload db ≡ answered (l, db'))
  unfolding judge_link
  judge_inv org none h = never_ends h
  judge_inv org (some Validation.accepted) h = (refl, h)
  judge_inv org (some Validation.self_causation) h = never h
  judge_inv org (some Validation.cyclic) h = never h

  pub create_causal_link-LinkRun :
      create_causal_link f call payload db ≡ answered (l, db') → LinkRun f call payload db l db'
  unfolding create_causal_link
  create_causal_link-LinkRun h = elim (Option-cases call.org_id) [
    | inl e ↦ never (rw (create_causal_link, e) at h)
    | inr (org, e0) ↦ elim (Bool-cases (may_link call.role)) [
      | inr e ↦ never (rw (create_causal_link, e0, e) at h)
      | inl e1 ↦ elim (Bool-cases (has_node org payload.root_incident_id db)) [
        | inr e ↦ never (rw (create_causal_link, e0, e1, e) at h)
        | inl e2 ↦ elim (Bool-cases (has_node org payload.symptom_incident_id db)) [
          | inr e ↦ never (rw (create_causal_link, e0, e1, e2, e) at h)
          | inl e3 ↦
              let (accepted, made) =
                judge_inv org
                  (validate_acyclic_addition (edges_of org db) payload.root_incident_id
                    payload.symptom_incident_id)
                  (rw (create_causal_link, e0, e1, e2, e3) at h) in
              let (ds, found, link, state) = insert_inv org made in
              record {
                org = org;
                downstream = ds;
                claimed = e0;
                permitted = e1;
                rooted = e2;
                aimed = e3;
                accepted = accepted;
                found = found;
                link = link;
                state = state;
              }
        ]
      ]
    ]
  ]
