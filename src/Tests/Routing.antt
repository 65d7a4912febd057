-- ===== src/Tests/Routing.antt =====
-- Runs of the routing of observations of civicbrain/domain/intake/services.py, and of the score of
-- civicbrain/domain/intake/dedup.py.
use mathlib.Core.List.{Memᴰ}
use civicbrain_v.Base.{
  ℕ, ◌==◌, ◌&&◌, select, [], ◌++◌, map, true, false, Option, none, some, ◌≡◌, ◌⊎◌, refl,
}
use civicbrain_v.Text.{codes, text_eq}
use civicbrain_v.Intake.Models.{Incident, DedupDecision}
use civicbrain_v.Intake.Fractions.{Fraction, exceeds}
use civicbrain_v.Intake.Similarity.{calculate_jaro_winkler_similarity, zero_fraction, one_fraction}
use civicbrain_v.Intake.Similarity.Bounds.{IsUnit, calculate_jaro_winkler_similarity-some}
use civicbrain_v.Intake.Dedup.{evaluate_splink_record_linkage}
use civicbrain_v.Intake.Dedup.Votes.{verdict, evaluate_splink_record_linkage-verdict}
use civicbrain_v.Intake.Routing.{
  Linkage, is_open, Detected, IntakeDb, RoutingCall, is_match, candidates, audit, link_all,
  new_incident, link_observation, with_incident, route_and_deduplicate_observation,
}
use civicbrain_v.Intake.Routing.Best.{
  Linked, IsReported, none_above, route_and_deduplicate_observation_lem,
}
use civicbrain_v.Tests.City.{city, here}

-- Every distance is 12 m.
abbrev call : RoutingCall
call = record {
  lower = λ s. s;
  distance = λ p q. 12000000;
  now = 160;
  incident_id = 50;
  organization_id = 1;
  ward_id = 9;
  description = some (codes "hole");
  place = here;
}

abbrev detected : Detected
detected = record { id = 31; department_id = 2; category_code = []; severity_score = 3 }

abbrev quiet : IntakeDb
quiet = record { db = city; dedup_links = [] }

abbrev incident_of : Option (Incident × IntakeDb) → Option ℕ
incident_of none = none
incident_of (some (i, _)) = some i.id

first_of_two : incident_of (route_and_deduplicate_observation call detected quiet) ≡ some 7
unfolding route_and_deduplicate_observation calculate_jaro_winkler_similarity
    evaluate_splink_record_linkage text_eq
first_of_two = refl

other_organization :
    incident_of
      (route_and_deduplicate_observation (record call { organization_id = 4 }) detected quiet)
    ≡ some 50
unfolding route_and_deduplicate_observation
other_organization = refl

route_and_deduplicate_observation_lem_example :
    (ls : Linked) × (i : Incident) × (s' : IntakeDb) × (route_and_deduplicate_observation call
        detected quiet
      ≡ some (i, s'))
    × (link_all call detected (candidates 1 detected city) ≡ some ls)
    × (map (λ (e : Incident × Linkage). e.0) ls
        ≡ select
            (λ (c : Incident). c.organization_id == 1 && c.department_id == 2 && is_open c.status)
            city.incidents)
    × (s'.dedup_links ≡ [] ++ map (audit 1 detected) ls)
    × (((l : Linkage) × Memᴰ (i, l) ls
          × (is_match l ≡ true)
          × (exceeds l.match_probability zero_fraction ≡ true)
          × (none_above l.match_probability ls ≡ true)
          × (s'.db ≡ link_observation 31 i.id city))
        ⊎ ((none_above zero_fraction ls ≡ true)
            × (i ≡ new_incident call detected)
            × (s'.db ≡ link_observation 31 i.id (with_incident i city))
            × IsReported call detected i))
route_and_deduplicate_observation_lem_example =
    route_and_deduplicate_observation_lem call detected quiet

martha :
    calculate_jaro_winkler_similarity (λ s. s) (codes "martha") (codes "marhta")
    ≡ some (record { num = 6228; den = 6480 })
unfolding calculate_jaro_winkler_similarity
martha = refl

calculate_jaro_winkler_similarity-some_example :
    (f : Fraction) × (calculate_jaro_winkler_similarity (λ s. s) (codes "martha") (codes "marhta")
      ≡ some f)
    × IsUnit f
calculate_jaro_winkler_similarity-some_example =
    calculate_jaro_winkler_similarity-some (λ s. s) (codes "martha") (codes "marhta")

-- Two kilometres away, an hour apart, of one category and with one text.
evaluate_splink_record_linkage-verdict_example :
    (evaluate_splink_record_linkage 2000000000 3600000000 true one_fraction).decision
    ≡ verdict false false true true true
evaluate_splink_record_linkage-verdict_example =
    evaluate_splink_record_linkage-verdict 2000000000 3600000000 true one_fraction

far_match : verdict false false true true true ≡ DedupDecision.exact_match
far_match = refl
