-- ===== src/Tests/Graph.antt =====
-- Causal links between four incidents.
use civicbrain_v.Base.{ℕ, List, [], ◌∷◌, ◌≡◌, ◌↔◌, refl, true, some, elem, arith}
use civicbrain_v.Causal.{
  Edge, Validation, validate_acyclic_addition, find_all_downstream_symptoms, build, link, search,
  visit, symptoms_of, collect,
}
use civicbrain_v.Causal.Downstream.{
  Downstream, IsAcyclic, find_all_downstream_symptoms_lem, validate_acyclic_addition-IsAcyclic,
}

abbrev chain : List Edge
chain = (1, 2) ∷ (2, 3) ∷ (1, 4) ∷ []

-- A link back to the first incident is refused, and so is one of an incident to itself.
refused_cycle : validate_acyclic_addition chain 3 1 ≡ some Validation.cyclic
unfolding validate_acyclic_addition build link search visit symptoms_of
refused_cycle = refl

refused_self : validate_acyclic_addition chain 3 3 ≡ some Validation.self_causation
unfolding validate_acyclic_addition
refused_self = refl

accepted_link : validate_acyclic_addition chain 3 4 ≡ some Validation.accepted
unfolding validate_acyclic_addition build link search visit symptoms_of
accepted_link = refl

downstream_of_one : find_all_downstream_symptoms 1 chain ≡ some (3 ∷ 4 ∷ 2 ∷ [])
unfolding find_all_downstream_symptoms build link collect visit symptoms_of
downstream_of_one = refl

find_all_downstream_symptoms_lem_example :
    (vs : List ℕ) × (find_all_downstream_symptoms 1 chain ≡ some vs)
    × ((y : ℕ) → (elem y vs ≡ true) ↔ Downstream chain 1 y)
find_all_downstream_symptoms_lem_example = find_all_downstream_symptoms_lem 1 chain

abbrev single : List Edge
single = (1, 2) ∷ []

single-IsBelow : {x y : ℕ} → Downstream single x y → (x ≡ 1) × (y ≡ 2)
single-IsBelow (Downstream.direct h) = (ground arith, ground arith)
single-IsBelow (Downstream.further d h) = let below = single-IsBelow d in (below.0, ground arith)

single-IsAcyclic : IsAcyclic single
single-IsAcyclic x d = let below = single-IsBelow d in omega arith

validate_acyclic_addition-IsAcyclic_example :
    (o : Validation) × (validate_acyclic_addition single 2 3 ≡ some o)
    × ((o ≡ Validation.accepted) ↔ IsAcyclic ((2, 3) ∷ single))
validate_acyclic_addition-IsAcyclic_example =
    validate_acyclic_addition-IsAcyclic 2 3 single single-IsAcyclic
