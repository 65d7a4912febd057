-- ===== src/Tests/Links.antt =====
-- A new link in the causal graph of an organization.
use civicbrain_v.Base.{
  ℕ, suc, ◌+◌, ◌-◌, List, [], ◌∷◌, false, true, some, none, find, ◌==◌, length, ◌≡◌, refl, arith,
}
use civicbrain_v.Directory.Models.{StaffRole}
use civicbrain_v.Causal.{
  validate_acyclic_addition, build, link, search, visit, symptoms_of, collect,
  find_all_downstream_symptoms,
}
use civicbrain_v.Causal.Downstream.{Downstream}
use civicbrain_v.Causal.Links.{
  LinkCall, CreateCausalLinkRequest, answered, create_causal_link, get_downstream_symptoms,
  edges_of, linked, new_link,
}
use civicbrain_v.Causal.Models.{Float, CausalRelationType, Node, GraphDb}
use civicbrain_v.Causal.Links.Acyclic.{AllAcyclic, create_causal_link-AllAcyclic}
use civicbrain_v.Causal.Links.Counts.{IsBlast, create_causal_link-IsBlast}

-- Numbers in place of floats.
abbrev float : Float
float = record {
  add = λ a b. a + b;
  subtract = λ a b. a - b;
  multiply = λ a b. a;
  divide = λ a b. a;
  minimum = λ a b. b;
  maximum = λ a b. b;
  round_6 = λ a. a;
  zero = 0;
  one = 1;
  hundred = 100;
  coupling_coefficient = 1;
}

abbrev node : ℕ → Node
node k = record {
  id = k;
  organization_id = 1;
  is_root_cause = false;
  downstream_symptom_count = 0;
  priority_score = 10;
  root_cause_priority_boost = 0;
}

abbrev graph : GraphDb
graph = record { nodes = node 1 ∷ node 2 ∷ []; links = [] }

abbrev call : LinkCall
call = record {
  org_id = some 1;
  role = some StaffRole.dispatcher;
  user_id = 9;
  link_id = 50;
  now = 1000;
}

abbrev request : CreateCausalLinkRequest
request = record {
  root_incident_id = 1;
  symptom_incident_id = 2;
  relation_type = CausalRelationType.infrastructure_failure;
  confidence = 1;
  notes = none;
}

abbrev graph_after : GraphDb
graph_after = linked float call 1 request (2 ∷ []) graph

links :
    create_causal_link float call request graph ≡ answered (new_link call 1 request, graph_after)
unfolding create_causal_link validate_acyclic_addition build link search visit symptoms_of collect
    find_all_downstream_symptoms
links = refl

nothing_below : {x y : ℕ} → Downstream [] x y → x ≡ suc x
nothing_below (Downstream.direct h) = cc
nothing_below (Downstream.further d h) = cc

graph-AllAcyclic : AllAcyclic graph
graph-AllAcyclic org x d = let e = nothing_below d in omega arith

create_causal_link-AllAcyclic_example : AllAcyclic graph_after
create_causal_link-AllAcyclic_example =
    create_causal_link-AllAcyclic float call request graph graph-AllAcyclic links

create_causal_link-IsBlast_example :
    (org : ℕ) × (ids : List ℕ) × (root : Node) × (call.org_id ≡ some org)
    × IsBlast (edges_of org graph_after) 1 ids
    × (find (λ (n : Node). n.id == 1) graph_after.nodes ≡ some root)
    × (root.is_root_cause ≡ true)
    × (root.downstream_symptom_count ≡ length ids)
    × (get_downstream_symptoms (some org) 1 graph_after ≡ answered (length ids, ids))
create_causal_link-IsBlast_example = create_causal_link-IsBlast float call request graph links
