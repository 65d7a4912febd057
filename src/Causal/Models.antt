-- ===== src/Causal/Models.antt =====
-- The tables of civicbrain/domain/causal/models.py, and calculate_root_cause_priority of
-- civicbrain/domain/causal/graph.py.
use civicbrain_v.Base.{ℕ, List, [], ◌∷◌, Bool, Option}
use civicbrain_v.Text.{Text}

pub data CausalRelationType : Type 0 where
  infrastructure_failure environmental_cascade operational_blockage structural_damage :
      CausalRelationType

-- A `float` is a code; its arithmetic is the machine's.
pub record IncidentCausalLink : Type 0 where
  pub id : ℕ
  pub organization_id : ℕ
  pub root_incident_id : ℕ
  pub symptom_incident_id : ℕ
  pub relation_type : CausalRelationType
  pub confidence : ℕ
  pub established_by : ℕ
  pub notes : Option Text
  pub created_at : ℕ

-- The columns of `incident` that the causal graph reads and writes.
pub record Node : Type 0 where
  pub id : ℕ
  pub organization_id : ℕ
  pub is_root_cause : Bool
  pub downstream_symptom_count : ℕ
  pub priority_score : ℕ
  pub root_cause_priority_boost : ℕ

pub record GraphDb : Type 0 where
  pub nodes : List Node
  pub links : List IncidentCausalLink

-- The operations on floats, and the constants 0.0, 1.0, 100.0 and the coupling coefficient.
pub record Float : Type 0 where
  pub add : ℕ → ℕ → ℕ
  pub subtract : ℕ → ℕ → ℕ
  pub multiply : ℕ → ℕ → ℕ
  pub divide : ℕ → ℕ → ℕ
  pub minimum : ℕ → ℕ → ℕ
  pub maximum : ℕ → ℕ → ℕ
  pub round_6 : ℕ → ℕ
  pub zero : ℕ
  pub one : ℕ
  pub hundred : ℕ
  pub coupling_coefficient : ℕ

-- `priority_boost` and `final_priority_score` of `RootCauseBoostResult`; the others repeat the
-- arguments.
pub record Boost : Type 0 where
  pub priority_boost : ℕ
  pub final_priority_score : ℕ

-- `sum(self.coupling_coefficient * (p_j / 100.0) for ...)`, from a start value.
scaling_sum : Float → ℕ → List ℕ → ℕ
scaling_sum f acc [] = acc
scaling_sum f acc (p ∷ ps) =
    scaling_sum f (f.add acc (f.multiply f.coupling_coefficient (f.divide p f.hundred))) ps

-- The children are given by their scores.
unfoldable pub calculate_root_cause_priority : Float → ℕ → List ℕ → Boost
unfolding scaling_sum
calculate_root_cause_priority f base [] = record {
  priority_boost = f.zero;
  final_priority_score = f.round_6 base;
}
calculate_root_cause_priority f base (p ∷ ps) =
    let scaled = f.multiply base (f.add f.one (scaling_sum f f.zero (p ∷ ps))) in
    let final = f.minimum f.hundred scaled in
    record {
      priority_boost = f.round_6 (f.maximum f.zero (f.subtract final base));
      final_priority_score = f.round_6 final;
    }
