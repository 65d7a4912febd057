-- ===== src/Causal.antt =====
-- civicbrain/domain/causal/graph.py: validate_acyclic_addition and find_all_downstream_symptoms.
-- An edge leads from a root cause to a symptom. A `set` is the list of its members, and the order
-- of `list(visited)`, which Python leaves open, carries no meaning.
pub mod Search
pub mod Closure
pub mod Downstream
pub mod Models
pub mod Links
use civicbrain_v.Base.{
  ℕ, zero, suc, ◌+◌, List, [], ◌∷◌, ◌++◌, Bool, true, false, not, Option, some, none, if◌then◌else◌,
  ◌==◌, select, elem, length,
}

abbrev pub Edge : Type 0
Edge = ℕ × ℕ

-- `dict[uuid.UUID, list[uuid.UUID]]`
abbrev pub Adjacency : Type 0
Adjacency = List (ℕ × List ℕ)

-- `adj.setdefault(root, []).append(symptom)`
unfoldable pub link : ℕ → ℕ → Adjacency → Adjacency
link root symptom [] = (root, symptom ∷ []) ∷ []
link root symptom ((k, ss) ∷ adj) =
    let rest = link root symptom adj in
    if k == root then (k, ss ++ symptom ∷ []) ∷ adj else (k, ss) ∷ rest

-- The loop over the edges.
unfoldable pub build : Adjacency → List Edge → Adjacency
build adj [] = adj
build adj ((root, symptom) ∷ edges) = build (link root symptom adj) edges

-- `adj.get(x, [])`
unfoldable pub symptoms_of : ℕ → Adjacency → List ℕ
symptoms_of x [] = []
symptoms_of x ((k, ss) ∷ adj) = let rest = symptoms_of x adj in if k == x then ss else rest

-- One round of a loop: the queue and the visited nodes after `curr` has been popped.
unfoldable pub visit : Adjacency → ℕ → List ℕ → List ℕ → List ℕ × List ℕ
visit adj curr queue visited = if elem curr visited then (queue, visited) else (
  queue ++ select (λ n. not (elem n (curr ∷ visited))) (symptoms_of curr adj),
  curr ∷ visited,
)

-- The loop of `find_all_downstream_symptoms`; `none` where the fuel is used up.
unfoldable pub collect : ℕ → Adjacency → List ℕ → List ℕ → Option (List ℕ)
collect zero adj [] visited = some visited
collect zero adj (_ ∷ _) visited = none
collect (suc fuel) adj [] visited = some visited
collect (suc fuel) adj (curr ∷ queue) visited =
    let next = visit adj curr queue visited in collect fuel adj next.0 next.1

-- The loop of `validate_acyclic_addition`: does it come to the root, where it raises?
unfoldable pub search : ℕ → Adjacency → ℕ → List ℕ → List ℕ → Option Bool
search zero adj root [] visited = some false
search zero adj root (_ ∷ _) visited = none
search (suc fuel) adj root [] visited = some false
search (suc fuel) adj root (curr ∷ queue) visited =
    let next = visit adj curr queue visited in
    let rest = search fuel adj root next.0 next.1 in if curr == root then some true else rest

-- What `validate_acyclic_addition` does: it returns, or raises `CyclicCausalDependencyError` in one
-- of two places.
pub data Validation : Type 0 where
  accepted self_causation cyclic : Validation

abbrev pub judge : Bool → Validation
judge true = cyclic
judge false = accepted

unfoldable pub validate_acyclic_addition : List Edge → ℕ → ℕ → Option Validation
validate_acyclic_addition edges root symptom =
    if root == symptom
    then some self_causation
    else elim (search (suc (length edges)) (build [] edges) root (symptom ∷ []) []) [
      | none ↦ none
      | some found ↦ some (judge found)
    ]

unfoldable pub find_all_downstream_symptoms : ℕ → List Edge → Option (List ℕ)
find_all_downstream_symptoms root edges =
    let adj = build [] edges in collect (length edges + length edges) adj (symptoms_of root adj) []
