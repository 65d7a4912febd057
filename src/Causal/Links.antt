-- ===== src/Causal/Links.antt =====
-- The endpoints create_causal_link and get_downstream_symptoms of civicbrain/api/v1/causal.py.
pub mod Run
pub mod Acyclic
pub mod Counts
use civicbrain_v.Base.{
  ℕ, List, [], ◌∷◌, ◌++◌, Bool, true, false, ◌&&◌, ◌||◌, not, ◌==◌, if◌then◌else◌, any, find,
  select, modify, map, elem, length, Option, none, some,
}
use civicbrain_v.Text.{Text}
use civicbrain_v.Directory.Models.{StaffRole}
use civicbrain_v.Causal.{Edge, Validation, validate_acyclic_addition, find_all_downstream_symptoms}
use civicbrain_v.Causal.Models.{
  CausalRelationType, IncidentCausalLink, Node, GraphDb, Float, Boost,
  calculate_root_cause_priority,
}

-- What the endpoints raise, and its status code.
pub data LinkError : Type 0 where
  missing_organization not_permitted root_not_found symptom_not_found cyclic_dependency
        incident_not_found duplicate_link :
      LinkError

abbrev pub link_error_code : LinkError → ℕ
link_error_code LinkError.missing_organization = 400
link_error_code LinkError.not_permitted = 403
link_error_code LinkError.root_not_found = 404
link_error_code LinkError.symptom_not_found = 404
link_error_code LinkError.cyclic_dependency = 422
link_error_code LinkError.incident_not_found = 404
link_error_code LinkError.duplicate_link = 500

-- How a call ends; `unfinished` is a search whose fuel does not suffice.
pub data LinkOutcome (A : Type 0) : Type 0 where
  answered : A → LinkOutcome A
  failed : LinkError → LinkOutcome A
  unfinished : LinkOutcome A

pub record CreateCausalLinkRequest : Type 0 where
  pub root_incident_id : ℕ
  pub symptom_incident_id : ℕ
  pub relation_type : CausalRelationType
  pub confidence : ℕ
  pub notes : Option Text

-- What a call depends on besides: the claims, the drawn key, and the time of the transaction.
pub record LinkCall : Type 0 where
  pub org_id : Option ℕ
  pub role : Option StaffRole
  pub user_id : ℕ
  pub link_id : ℕ
  pub now : ℕ

-- `claims.role not in (ADMIN, DISPATCHER, ZONAL_SUPERVISOR)`
abbrev pub may_link : Option StaffRole → Bool
may_link none = false
may_link (some r) = elim r [
  | StaffRole.admin ↦ true
  | StaffRole.dispatcher ↦ true
  | StaffRole.zonal_supervisor ↦ true
  | _ ↦ false
]

abbrev pub has_node : ℕ → ℕ → GraphDb → Bool
has_node org k db = any (λ (n : Node). n.id == k && n.organization_id == org) db.nodes

-- The links of the organization as pairs.
abbrev pub edges_of : ℕ → GraphDb → List Edge
edges_of org db =
    map (λ (l : IncidentCausalLink). (l.root_incident_id, l.symptom_incident_id))
      (select (λ (l : IncidentCausalLink). l.organization_id == org) db.links)

abbrev pub new_link : LinkCall → ℕ → CreateCausalLinkRequest → IncidentCausalLink
new_link call org payload = record {
  id = call.link_id;
  organization_id = org;
  root_incident_id = payload.root_incident_id;
  symptom_incident_id = payload.symptom_incident_id;
  relation_type = payload.relation_type;
  confidence = payload.confidence;
  established_by = call.user_id;
  notes = payload.notes;
  created_at = call.now;
}

-- The assignments to the root, given its downstream incidents and their scores. No score is
-- written where nothing is downstream.
unfoldable pub mark_root : Float → List ℕ → List ℕ → Node → Node
unfolding calculate_root_cause_priority
mark_root f [] scores n = record n { is_root_cause = true; downstream_symptom_count = 0 }
mark_root f (d ∷ ds) scores n =
    let boost = calculate_root_cause_priority f n.priority_score scores in
    record n {
      is_root_cause = true;
      downstream_symptom_count = length (d ∷ ds);
      priority_score = boost.final_priority_score;
      root_cause_priority_boost = boost.priority_boost;
    }

abbrev pub scores_of : List ℕ → GraphDb → List ℕ
scores_of ids db =
    map (λ (n : Node). n.priority_score) (select (λ (n : Node). elem n.id ids) db.nodes)

-- The insert and the update of the root, given what is downstream of it with the new link.
abbrev pub linked : Float → LinkCall → ℕ → CreateCausalLinkRequest → List ℕ → GraphDb → GraphDb
linked f call org payload downstream db = record {
  nodes =
      modify (λ (n : Node). n.id == payload.root_incident_id)
        (mark_root f downstream (scores_of downstream db)) db.nodes;
  links = db.links ++ new_link call org payload ∷ [];
}

-- The pair is unique (`uq_causal_pair`), over all organizations.
unfoldable pub insert_link :
    Float
    → LinkCall
    → ℕ
    → CreateCausalLinkRequest
    → GraphDb
    → LinkOutcome (IncidentCausalLink × GraphDb)
insert_link f call org payload db =
    let r = payload.root_incident_id in
    let s = payload.symptom_incident_id in
    if any (λ (l : IncidentCausalLink). l.root_incident_id == r && l.symptom_incident_id == s)
      db.links
    then failed LinkError.duplicate_link
    else elim (find_all_downstream_symptoms r (edges_of org db ++ (r, s) ∷ [])) [
      | none ↦ unfinished
      | some downstream ↦
          answered (new_link call org payload, linked f call org payload downstream db)
    ]

-- What becomes of the verdict on the new link.
unfoldable pub judge_link :
    Float
    → LinkCall
    → ℕ
    → CreateCausalLinkRequest
    → GraphDb
    → Option Validation
    → LinkOutcome (IncidentCausalLink × GraphDb)
unfolding insert_link
judge_link f call org payload db none = unfinished
judge_link f call org payload db (some Validation.accepted) = insert_link f call org payload db
judge_link f call org payload db (some Validation.self_causation) =
    failed LinkError.cyclic_dependency
judge_link f call org payload db (some Validation.cyclic) = failed LinkError.cyclic_dependency

unfoldable pub create_causal_link :
    Float
    → LinkCall
    → CreateCausalLinkRequest
    → GraphDb
    → LinkOutcome (IncidentCausalLink × GraphDb)
unfolding judge_link
create_causal_link f call payload db = elim call.org_id [
  | none ↦ failed LinkError.missing_organization
  | some org ↦
      if not (may_link call.role)
      then failed LinkError.not_permitted
      else if not (has_node org payload.root_incident_id db)
      then failed LinkError.root_not_found
      else if not (has_node org payload.symptom_incident_id db)
      then failed LinkError.symptom_not_found
      else judge_link f call org payload db (
          validate_acyclic_addition (edges_of org db) payload.root_incident_id
            payload.symptom_incident_id)
]

-- `downstream_symptom_count` and `downstream_incident_ids` of the response; the scores repeat the
-- columns.
unfoldable pub get_downstream_symptoms : Option ℕ → ℕ → GraphDb → LinkOutcome (ℕ × List ℕ)
get_downstream_symptoms none k db = failed LinkError.missing_organization
get_downstream_symptoms (some org) k db =
    if not (has_node org k db)
    then failed LinkError.incident_not_found
    else elim (find_all_downstream_symptoms k (edges_of org db)) [
      | none ↦ unfinished
      | some ids ↦ answered (length ids, ids)
    ]
