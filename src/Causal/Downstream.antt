-- ===== src/Causal/Downstream.antt =====
-- The relation that the links of civicbrain/domain/causal/graph.py mean, and the two searches over
-- it.
use civicbrain_v.Base.{
  ℕ, suc, ◌+◌, List, [], ◌∷◌, Bool, true, false, some, ◌==◌, elem, length, ◌≡◌, ◌↔◌, ◌⊎◌, refl, sym,
  ◌∙◌, ap, arith, Bool-cases, inl, inr, subst, ==_refl,
}
use civicbrain_v.Causal.{
  Edge, Validation, judge, build, symptoms_of, search, validate_acyclic_addition,
  find_all_downstream_symptoms,
}
use civicbrain_v.Causal.Search.{
  neighbours, has_edge, symptoms_of-build, elem-neighbours, unseen_le, length-neighbours_le,
}
use civicbrain_v.Causal.Closure.{IsCollected, IsLeast, run}

-- `y` is a symptom of `x` by one link or more.
pub data Downstream (es : List Edge) (x : ℕ) : ℕ → Type 0 where
  direct : {y : ℕ} → has_edge es x y ≡ true → Downstream es x y
  further : {y z : ℕ} → Downstream es x y → has_edge es y z ≡ true → Downstream es x z

-- `y` is `x` or a symptom of it.
abbrev pub AtOrBelow : List Edge → ℕ → ℕ → Type 0
AtOrBelow es x y = (x ≡ y) ⊎ Downstream es x y

-- No incident is a symptom of itself.
abbrev pub IsAcyclic : List Edge → Type 0
IsAcyclic es = (x : ℕ) → ¬ Downstream es x x

within-step :
    (es : List Edge) (x y z : ℕ) → AtOrBelow es x y → has_edge es y z ≡ true → Downstream es x z
within-step es x y z (inl e) h = Downstream.direct (subst (λ a. has_edge es a z ≡ true) (sym e) h)
within-step es x y z (inr d) h = Downstream.further d h

Downstream-within :
    (es : List Edge) {x y : ℕ} → Downstream es x y → (z : ℕ) → AtOrBelow es y z → Downstream es x z
Downstream-within es {x} {y} d z (inl e) = subst (Downstream es x) e d
Downstream-within es {x} {y} d z (inr (Downstream.direct h)) = Downstream.further d h
Downstream-within es {x} {y} d z (inr (Downstream.further {y = m} r h)) =
    Downstream.further (Downstream-within es d m (inr r)) h

lift-Downstream :
    (e : Edge) (es : List Edge) {x y : ℕ} → Downstream es x y → Downstream (e ∷ es) x y
lift-Downstream e es (Downstream.direct h) = Downstream.direct (ground arith)
lift-Downstream e es (Downstream.further d h) =
    Downstream.further (lift-Downstream e es d) (ground arith)

-- A way over the new edge splits at it.
split-Downstream :
    (r s : ℕ) (es : List Edge) {x y : ℕ}
    → Downstream ((r, s) ∷ es) x y
    → Downstream es x y ⊎ (AtOrBelow es x r × AtOrBelow es s y)
split-Downstream r s es {x} {y} (Downstream.direct h) = elim (Bool-cases (has_edge es x y)) [
  | inl old ↦ inl (Downstream.direct old)
  | inr new ↦
      let from_r : x ≡ r = ground arith in
      let to_s : s ≡ y = ground arith in inr (inl from_r, inl to_s)
]
split-Downstream r s es {x} {y} (Downstream.further {y = m} d h) =
    elim (Bool-cases (has_edge es m y)) [
      | inl old ↦ elim (split-Downstream r s es d) [
        | inl way ↦ inl (Downstream.further way old)
        | inr (up, down) ↦ inr (up, inr (within-step es s m y down old))
      ]
      | inr new ↦
          let from_r : m ≡ r = ground arith in
          let to_s : s ≡ y = ground arith in
          elim (split-Downstream r s es d) [
            | inl way ↦ inr (inr (subst (Downstream es x) from_r way), inl to_s)
            | inr (up, _) ↦ inr (up, inl to_s)
          ]
    ]

within_trans : (es : List Edge) (x y z : ℕ) → AtOrBelow es x y → AtOrBelow es y z → AtOrBelow es x z
within_trans es x y z (inl e) w = subst (λ a. AtOrBelow es a z) (sym e) w
within_trans es x y z (inr d) w = inr (Downstream-within es d z w)

-- A search over the dictionary of the edges finds what the edges make downstream.
module _ (es : List Edge) (q vs : List ℕ) (collected : IsCollected es q [] vs)
    (least : IsLeast es q [] vs) where
  Downstream-elem :
      {x y : ℕ}
      → ((z : ℕ) → has_edge es x z ≡ true → elem z vs ≡ true)
      → Downstream es x y
      → elem y vs ≡ true
  Downstream-elem {x} {y} first (Downstream.direct h) = first y h
  Downstream-elem {x} {y} first (Downstream.further {y = m} d h) =
      collected.closed (λ _ _ a _. cc) m y (Downstream-elem first d) h

-- `find_all_downstream_symptoms` always ends, and what it returns is the set of the incidents that
-- are downstream of the root by one link or more, for any links, cyclic ones too.
pub find_all_downstream_symptoms_lem :
    (root : ℕ) (es : List Edge)
    → (vs : List ℕ) × (find_all_downstream_symptoms root es ≡ some vs)
      × ((y : ℕ) → (elem y vs ≡ true) ↔ Downstream es root y)
unfolding find_all_downstream_symptoms
find_all_downstream_symptoms_lem root es =
    let adj = build [] es in
    let q = symptoms_of root adj in
    let same = symptoms_of-build root es in
    let a = unseen_le [] es in
    let b = length-neighbours_le root es in
    let c : length q ≡ length (neighbours root es) = ap (λ (l : List ℕ). length l) same in
    let (vs, eq, collected, least, _) =
      run es adj (λ x. symptoms_of-build x es) (length es + length es) q [] (omega arith) in
    let queue_edge = λ (y : ℕ). ap (λ (l : List ℕ). elem y l) same ∙ elem-neighbours root y es in
    (
      vs,
      eq,
      (λ y. (
        least (Downstream es root) (λ x z d h. Downstream.further d h) (λ x e. cc)
            (λ x e. Downstream.direct (sym (queue_edge x) ∙ e)) y,
        Downstream-elem es q vs collected least (λ z h. collected.queued z (queue_edge z ∙ h)),
      )),
    )

search-AtOrBelow :
    (root symptom : ℕ) (es : List Edge)
    → (b : Bool) × (search (suc (length es)) (build [] es) root (symptom ∷ []) [] ≡ some b)
      × ((b ≡ true) ↔ AtOrBelow es symptom root)
search-AtOrBelow root symptom es =
    let a = unseen_le [] es in
    let (vs, _, collected, least, found) =
      run es (build [] es) (λ x. symptoms_of-build x es) (suc (length es)) (symptom ∷ []) []
        (omega arith) in
    let start : elem symptom vs ≡ true = collected.queued symptom (rw (==_refl symptom)) in
    (
      elem root vs,
      found root refl,
      (
        least (AtOrBelow es symptom) (λ x y w h. inr (within-step es symptom x y w h)) (λ x e. cc)
            (λ x e. inl (ground arith)) root,
        (λ w. elim w [
          | inl e ↦ subst (λ z. elem z vs ≡ true) e start
          | inr d ↦
              Downstream-elem es (symptom ∷ []) vs collected least
                (λ z h. collected.closed (λ _ _ x _. cc) symptom z start h) d
        ]),
      ),
    )

-- `validate_acyclic_addition` always ends, and it returns unless the root is the symptom or is
-- downstream of it.
pub validate-AtOrBelow :
    (root symptom : ℕ) (es : List Edge)
    → (o : Validation) × (validate_acyclic_addition es root symptom ≡ some o)
      × ((o ≡ Validation.accepted) ↔ (¬ AtOrBelow es symptom root))
unfolding validate_acyclic_addition
validate-AtOrBelow root symptom es = elim (Bool-cases (root == symptom)) [
  | inl e ↦
      (Validation.self_causation, rw e refl, ((λ h. cc), (λ n. absurd (n (inl (ground arith))))))
  | inr e ↦
      let (b, eq, found) = search-AtOrBelow root symptom es in
      (
        judge b,
        rw (e, eq, validate_acyclic_addition) refl,
        elim b
              as (λ c.
                ((c ≡ true) ↔ AtOrBelow es symptom root)
                → ((judge c ≡ Validation.accepted) ↔ (¬ AtOrBelow es symptom root))) [
                  | true ↦ λ f. ((λ h. cc), (λ n. absurd (n (f.0 refl))))
                  | false ↦ λ f. ((λ _ w. let h = f.1 w in cc), (λ _. refl))
                ]
            found,
      )
]

-- In a causal graph without cycles, `validate_acyclic_addition` always ends, and it lets a new link
-- through exactly if the graph with the link has no cycle either.
pub validate_acyclic_addition-IsAcyclic :
    (root symptom : ℕ) (es : List Edge)
    → IsAcyclic es
    → (o : Validation) × (validate_acyclic_addition es root symptom ≡ some o)
      × ((o ≡ Validation.accepted) ↔ IsAcyclic ((root, symptom) ∷ es))
validate_acyclic_addition-IsAcyclic root symptom es acyclic =
    let (o, eq, free) = validate-AtOrBelow root symptom es in
    (
      o,
      eq,
      (
        (λ h x d. elim (split-Downstream root symptom es d) [
          | inl old ↦ acyclic x old
          | inr (up, down) ↦ free.0 h (within_trans es symptom x root down up)
        ]),
        (λ still. free.1 (λ w. still root (
            Downstream-within ((root, symptom) ∷ es) {y = symptom}
              (Downstream.direct (rw (==_refl root, ==_refl symptom) refl)) root
              (elim w [ inl e ↦ inl e | inr d ↦ inr (lift-Downstream (root, symptom) es d) ])))),
      ),
    )
