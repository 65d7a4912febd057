-- ===== src/Intake/Routing.antt =====
-- route_and_deduplicate_observation of civicbrain/domain/intake/services.py. An exception of the
-- similarity is `none`.
pub mod Best
pub mod Destination
use civicbrain_v.Base.{
  ℕ, List, [], ◌∷◌, ◌++◌, ◌-◌, map, Bool, true, false, ◌&&◌, leb, ◌==◌, if◌then◌else◌, select,
  modify, Option, none, some,
}
use civicbrain_v.Text.{Text, text_eq}
use civicbrain_v.Geo.{Point}
use civicbrain_v.Intake.Models.{
  Incident, IncidentStatus, Observation, ObservationStatus, DedupDecision,
}
use civicbrain_v.Intake.Fractions.{Fraction, exceeds}
use civicbrain_v.Intake.Similarity.{calculate_jaro_winkler_similarity, zero_fraction}
use civicbrain_v.Intake.Dedup.{evaluate_splink_record_linkage}
use civicbrain_v.Store.{Db}

-- What is measured for a candidate, and its score.
pub record Linkage : Type 0 where
  pub spatial_distance_meters : ℕ
  pub temporal_diff_seconds : ℕ
  pub category_match : Bool
  pub text_similarity : Fraction
  pub match_odds : Fraction
  pub match_probability : Fraction
  pub decision : DedupDecision

-- The audit row of a candidate, its key and time aside.
pub record IncidentDedupLink : Type 0 where
  pub organization_id : ℕ
  pub observation_id : ℕ
  pub candidate_incident_id : ℕ
  pub linkage : Linkage

-- The observation that is routed, with the columns that the routing reads.
pub record Detected : Type 0 where
  pub id : ℕ
  pub department_id : ℕ
  pub category_code : Text
  pub severity_score : ℕ

pub record IntakeDb : Type 0 where
  pub db : Db
  pub dedup_links : List IncidentDedupLink

-- `decision in (EXACT_MATCH, PROBABLE_MATCH)`
abbrev pub is_match : Linkage → Bool
is_match l = elim l.decision [
  | DedupDecision.exact_match ↦ true
  | DedupDecision.probable_match ↦ true
  | _ ↦ false
]

-- `status.notin_([CONFIRMED, REJECTED])`
abbrev pub is_open : IncidentStatus → Bool
is_open IncidentStatus.confirmed = false
is_open IncidentStatus.rejected = false
is_open _ = true

abbrev pub is_candidate : ℕ → ℕ → Incident → Bool
is_candidate org department i =
    i.organization_id == org && i.department_id == department && is_open i.status

abbrev pub candidates : ℕ → Detected → Db → List Incident
candidates org o db = select (is_candidate org o.department_id) db.incidents

-- What a call depends on besides the rows: `str.lower`, the distance that PostGIS computes (0 where
-- it gives none), the time, and the key that a new incident draws.
pub record RoutingCall : Type 0 where
  pub lower : Text → Text
  pub distance : Point → Point → ℕ
  pub now : ℕ
  pub incident_id : ℕ
  pub organization_id : ℕ
  pub ward_id : ℕ
  pub description : Option Text
  pub place : Point

abbrev pub text_or_empty : Option Text → Text
text_or_empty none = []
text_or_empty (some s) = s

abbrev pub abs_diff : ℕ → ℕ → ℕ
abs_diff m n = if leb m n then n - m else m - n

-- The measures of a candidate and its score, where the similarity is computed.
abbrev pub scored : RoutingCall → Detected → Incident → Fraction → Linkage
scored r o c similarity =
    let distance = r.distance r.place c.geom in
    let diff = abs_diff r.now c.created_at in
    let same = text_eq o.category_code c.category_code in
    let e = evaluate_splink_record_linkage distance diff same similarity in
    record {
      spatial_distance_meters = distance;
      temporal_diff_seconds = diff;
      category_match = same;
      text_similarity = similarity;
      match_odds = e.total_odds;
      match_probability = e.posterior_prob;
      decision = e.decision;
    }

abbrev pub similarity_to : RoutingCall → Incident → Option Fraction
similarity_to r c =
    calculate_jaro_winkler_similarity r.lower (text_or_empty r.description) c.category_code

-- The body of the loop up to the audit row, for one candidate and for all; `none` where it raises.
abbrev pub link_one : RoutingCall → Detected → Incident → Option Fraction → Option Linkage
link_one r o c none = none
link_one r o c (some similarity) = some (scored r o c similarity)

abbrev pub with_link :
    Incident
    → Option Linkage
    → Option (List (Incident × Linkage))
    → Option (List (Incident × Linkage))
with_link c (some l) (some ls) = some ((c, l) ∷ ls)
with_link c (some l) none = none
with_link c none ls = none

unfoldable pub link_all :
    RoutingCall → Detected → List Incident → Option (List (Incident × Linkage))
link_all r o [] = some []
link_all r o (c ∷ cs) = with_link c (link_one r o c (similarity_to r c)) (link_all r o cs)

-- The rest of the loop, with `best_match_incident` and `highest_prob`.
unfoldable pub best_match : Option Incident → Fraction → List (Incident × Linkage) → Option Incident
best_match best highest [] = best
best_match best highest ((c, l) ∷ ls) =
    let taken = best_match (some c) l.match_probability ls in
    let kept = best_match best highest ls in
    if is_match l && exceeds l.match_probability highest then taken else kept

abbrev pub audit : ℕ → Detected → Incident × Linkage → IncidentDedupLink
audit org o (c, l) = record {
  organization_id = org;
  observation_id = o.id;
  candidate_incident_id = c.id;
  linkage = l;
}

abbrev pub new_incident : RoutingCall → Detected → Incident
new_incident r o = record {
  id = r.incident_id;
  organization_id = r.organization_id;
  department_id = o.department_id;
  ward_id = r.ward_id;
  category_code = o.category_code;
  geom = r.place;
  status = IncidentStatus.reported;
  severity = o.severity_score;
  assigned_worker_id = none;
  triaged_at = none;
  verified_at = none;
  prioritized_at = none;
  assigned_at = none;
  in_progress_at = none;
  resolved_at = none;
  confirmed_at = none;
  rejected_at = none;
  appealed_at = none;
  reopened_at = none;
  rejection_reason = none;
  appeal_reason = none;
  resolution_notes = none;
  resolution_proof_urls = [];
  resolution_geom = none;
  auto_confirm_deadline = none;
  created_at = r.now;
}

-- `observation.incident_id = ...; observation.status = LINKED_TO_INCIDENT`
abbrev pub link_observation : ℕ → ℕ → Db → Db
link_observation o k db = record db {
  observations =
      modify (λ (x : Observation). x.id == o)
        (λ (x : Observation). record x {
          incident_id = some k;
          status = ObservationStatus.linked_to_incident;
        })
        db.observations;
}

abbrev pub with_incident : Incident → Db → Db
with_incident i db = record db { incidents = db.incidents ++ i ∷ [] }

-- The incident that the observation is linked to, and the tables.
abbrev pub conclude_routing :
    RoutingCall
    → Detected
    → List (Incident × Linkage)
    → IntakeDb
    → Option Incident
    → Incident × IntakeDb
conclude_routing r o ls s (some i) = (
  i,
  record {
    db = link_observation o.id i.id s.db;
    dedup_links = s.dedup_links ++ map (audit r.organization_id o) ls;
  },
)
conclude_routing r o ls s none = (
  new_incident r o,
  record {
    db = link_observation o.id r.incident_id (with_incident (new_incident r o) s.db);
    dedup_links = s.dedup_links ++ map (audit r.organization_id o) ls;
  },
)

abbrev pub routed :
    RoutingCall
    → Detected
    → IntakeDb
    → Option (List (Incident × Linkage))
    → Option (Incident × IntakeDb)
routed r o s none = none
routed r o s (some ls) = some (conclude_routing r o ls s (best_match none zero_fraction ls))

unfoldable pub route_and_deduplicate_observation :
    RoutingCall → Detected → IntakeDb → Option (Incident × IntakeDb)
unfolding best_match link_all
route_and_deduplicate_observation r o s =
    routed r o s (link_all r o (candidates r.organization_id o s.db))
