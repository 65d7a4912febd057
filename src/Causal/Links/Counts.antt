-- ===== src/Causal/Links/Counts.antt =====
-- About the counts that create_causal_link and get_downstream_symptoms of
-- civicbrain/api/v1/causal.py store and answer.
use mathlib.Core.Option.{some-injective}
use civicbrain_v.Base.{
  ℕ, ◌+◌, zero, suc, List, [], ◌∷◌, ◌++◌, Bool, true, ◌&&◌, not, ◌==◌, some, elem, any, find,
  modify, length, find-modify_self, map_some, ◌≡◌, ◌↔◌, refl, sym, ◌∙◌, ap, subst, Bool-cases,
  Option-cases, inl, inr, arith,
}
use civicbrain_v.Causal.{
  Edge, Adjacency, Validation, visit, collect, build, symptoms_of, find_all_downstream_symptoms,
}
use civicbrain_v.Causal.Downstream.{
  Downstream, validate-AtOrBelow, find_all_downstream_symptoms_lem,
}
use civicbrain_v.Causal.Links.{
  LinkCall, CreateCausalLinkRequest, LinkOutcome, LinkError, answered, failed, unfinished, edges_of,
  linked, mark_root, scores_of, has_node, may_link, insert_link, judge_link, create_causal_link,
  get_downstream_symptoms,
}
use civicbrain_v.Causal.Models.{Float, IncidentCausalLink, GraphDb, Node}
use civicbrain_v.Causal.Links.Run.{create_causal_link-LinkRun}
use civicbrain_v.Causal.Links.Acyclic.{edges_of-linked_own}

-- No incident stands twice in the list.
abbrev pub is_distinct : List ℕ → Bool
is_distinct [] = true
is_distinct (x ∷ xs) = not (elem x xs) && is_distinct xs

collect-is_distinct :
    (fuel : ℕ) (adj : Adjacency) (queue visited : List ℕ) {vs : List ℕ}
    → is_distinct visited ≡ true
    → collect fuel adj queue visited ≡ some vs
    → is_distinct vs ≡ true
unfolding collect visit
collect-is_distinct zero adj [] visited h e = rw (← some-injective visited _ e) h
collect-is_distinct zero adj (_ ∷ _) visited h e = cc
collect-is_distinct (suc fuel) adj [] visited h e = rw (← some-injective visited _ e) h
collect-is_distinct (suc fuel) adj (curr ∷ queue) visited h e =
    collect-is_distinct fuel adj (visit adj curr queue visited).0 (visit adj curr queue visited).1
      next e
  where
    next : is_distinct (visit adj curr queue visited).1 ≡ true
    next = elim (Bool-cases (elem curr visited)) [
      | inl q ↦ rw (visit, q) h
      | inr q ↦ rw (visit, q) (rw (q, h) refl)
    ]

find_all_downstream_symptoms-is_distinct :
    (root : ℕ) (es : List Edge) {vs : List ℕ}
    → find_all_downstream_symptoms root es ≡ some vs
    → is_distinct vs ≡ true
unfolding find_all_downstream_symptoms
find_all_downstream_symptoms-is_distinct root es h =
    collect-is_distinct (length es + length es) (build [] es) (symptoms_of root (build [] es)) []
      refl h

-- The list has each incident downstream of the root once, and no others.
abbrev pub IsBlast : List Edge → ℕ → List ℕ → Type 0
IsBlast es root vs = (is_distinct vs ≡ true) × ((y : ℕ) → (elem y vs ≡ true) ↔ Downstream es root y)

found-IsBlast :
    (root : ℕ) (es : List Edge) (vs : List ℕ)
    → find_all_downstream_symptoms root es ≡ some vs
    → IsBlast es root vs
found-IsBlast root es vs h =
    let (ws, e, exact) = find_all_downstream_symptoms_lem root es in
    let same : ws ≡ vs = some-injective ws vs (sym e ∙ h) in
    (
      find_all_downstream_symptoms-is_distinct root es h,
      subst (λ (us : List ℕ). (y : ℕ) → (elem y us ≡ true) ↔ Downstream es root y) same exact,
    )

mark_root-count :
    (f : Float) (ds scores : List ℕ) (n : Node)
    → ((mark_root f ds scores n).is_root_cause ≡ true)
      × ((mark_root f ds scores n).downstream_symptom_count ≡ length ds)
      × ((mark_root f ds scores n).id ≡ n.id)
      × ((mark_root f ds scores n).organization_id ≡ n.organization_id)
unfolding mark_root
mark_root-count f [] scores n = (refl, refl, refl, refl)
mark_root-count f (d ∷ ds) scores n = (refl, refl, refl, refl)

any-modify :
    (p q : Node → Bool) (f : Node → Node)
    → ((n : Node) → p (f n) ≡ p n)
    → (ns : List Node) → any p (modify q f ns) ≡ any p ns
any-modify p q f same [] = refl
any-modify p q f same (n ∷ ns) = ground (arith, same n, any-modify p q f same ns)

has_node-linked :
    (f : Float) (call : LinkCall) (payload : CreateCausalLinkRequest) (db : GraphDb) (org k : ℕ)
    (ds : List ℕ)
    → has_node org k (linked f call org payload ds db) ≡ has_node org k db
has_node-linked f call payload db org k ds =
    any-modify (λ n. n.id == k && n.organization_id == org) (λ n. n.id == payload.root_incident_id)
      (mark_root f ds (scores_of ds db))
      (λ n. let (_, _, id, own) = mark_root-count f ds (scores_of ds db) n in rw (id, own) refl)
      db.nodes

get_downstream_symptoms-found :
    (org k : ℕ) (db : GraphDb) (ids : List ℕ)
    → has_node org k db ≡ true
    → find_all_downstream_symptoms k (edges_of org db) ≡ some ids
    → get_downstream_symptoms (some org) k db ≡ answered (length ids, ids)
unfolding get_downstream_symptoms
get_downstream_symptoms-found org k db ids h e = rw (get_downstream_symptoms, h, e) refl

found_node :
    (org k : ℕ) (ns : List Node)
    → any (λ (n : Node). n.id == k && n.organization_id == org) ns ≡ true
    → (n : Node) × (find (λ (n : Node). n.id == k) ns ≡ some n)
found_node org k [] h = cc
found_node org k (n ∷ ns) h = elim (Bool-cases (n.id == k)) [
  | inl e ↦ (n, rw e refl)
  | inr e ↦ let (m, q) = found_node org k ns (rw e at h) in (m, rw e q)
]

failed_is_not_unfinished :
    {A : Type 0} {e : LinkError} → ¬ (◌≡◌ {A = LinkOutcome A} (failed e) unfinished)
failed_is_not_unfinished h = cc

answered_is_not_unfinished : {A : Type 0} {a : A} → ¬ (answered a ≡ unfinished)
answered_is_not_unfinished h = cc

module _ (f : Float) (call : LinkCall) (payload : CreateCausalLinkRequest) (db : GraphDb)
    {l : IncidentCausalLink} {db' : GraphDb} where
  -- When a link is created, the root is marked as a root cause, and its stored count is the number of
  -- incidents that are downstream of it in the organization's links with the new one, each counted
  -- once; the endpoint for the downstream symptoms answers this count and these incidents.
  pub create_causal_link-IsBlast :
      create_causal_link f call payload db ≡ answered (l, db')
      → (org : ℕ) × (ids : List ℕ) × (root : Node) × (call.org_id ≡ some org)
        × IsBlast (edges_of org db') payload.root_incident_id ids
        × (find (λ (n : Node). n.id == payload.root_incident_id) db'.nodes ≡ some root)
        × (root.is_root_cause ≡ true)
        × (root.downstream_symptom_count ≡ length ids)
        × (get_downstream_symptoms (some org) payload.root_incident_id db'
            ≡ answered (length ids, ids))
  create_causal_link-IsBlast h =
      let run = create_causal_link-LinkRun f call payload db h in
      let org = run.org in
      let k = payload.root_incident_id in
      let ds = run.downstream in
      let mark = mark_root f ds (scores_of ds db) in
      let own = edges_of-linked_own f call payload db org ds in
      let (n, q) = found_node org k db.nodes run.rooted in
      let (marked, counted, _, _) = mark_root-count f ds (scores_of ds db) n in
      let found =
        find-modify_self (λ (n : Node). n.id) mark
          (λ n. (mark_root-count f ds (scores_of ds db) n).2) k db.nodes
        ∙ ap (map_some mark) q in
      (
        org,
        ds,
        mark n,
        run.claimed,
        rw (run.state, own) (found-IsBlast k _ ds run.found),
        ap (λ (g : GraphDb). find (λ (n : Node). n.id == k) g.nodes) run.state ∙ found,
        marked,
        counted,
        subst (λ g. get_downstream_symptoms (some org) k g ≡ answered (length ds, ds))
            (sym run.state)
            (get_downstream_symptoms-found org k (linked f call org payload ds db) ds
              (has_node-linked f call payload db org k ds ∙ run.rooted)
              (ap (λ es. find_all_downstream_symptoms k es) own ∙ run.found)),
      )

-- The searches have fuel enough: no call to create a link or to list the symptoms of an incident is
-- left unfinished, whatever the stored links are.
pub create_causal_link_ends :
    (f : Float) (call : LinkCall) (payload : CreateCausalLinkRequest) (db : GraphDb) (org k : ℕ)
    → ¬ (create_causal_link f call payload db ≡ unfinished)
      × ¬ (get_downstream_symptoms (some org) k db ≡ unfinished)
unfolding create_causal_link judge_link insert_link get_downstream_symptoms
create_causal_link_ends f call payload db org k = (created, listed)
  where
    inserted : (o : ℕ) → ¬ (insert_link f call o payload db ≡ unfinished)
    inserted o h =
        let r = payload.root_incident_id in
        let s = payload.symptom_incident_id in
        let (ds, e, _) = find_all_downstream_symptoms_lem r (edges_of o db ++ (r, s) ∷ []) in
        elim (Bool-cases (
          any (λ (x : IncidentCausalLink). x.root_incident_id == r && x.symptom_incident_id == s)
            db.links)) [
              | inl q ↦ failed_is_not_unfinished (rw (insert_link, q) at h)
              | inr q ↦ answered_is_not_unfinished (rw (insert_link, q, e) at h)
            ]

    judged : (o : ℕ) (v : Validation) → ¬ (judge_link f call o payload db (some v) ≡ unfinished)
    judged o Validation.accepted h = inserted o h
    judged o Validation.self_causation h = failed_is_not_unfinished h
    judged o Validation.cyclic h = failed_is_not_unfinished h

    created : ¬ (create_causal_link f call payload db ≡ unfinished)
    created h = elim (Option-cases call.org_id) [
      | inl e ↦ failed_is_not_unfinished (rw (create_causal_link, e) at h)
      | inr (o, e0) ↦ elim (Bool-cases (may_link call.role)) [
        | inr e ↦ failed_is_not_unfinished (rw (create_causal_link, e0, e) at h)
        | inl e1 ↦ elim (Bool-cases (has_node o payload.root_incident_id db)) [
          | inr e ↦ failed_is_not_unfinished (rw (create_causal_link, e0, e1, e) at h)
          | inl e2 ↦ elim (Bool-cases (has_node o payload.symptom_incident_id db)) [
            | inr e ↦ failed_is_not_unfinished (rw (create_causal_link, e0, e1, e2, e) at h)
            | inl e3 ↦
                let (v, e4, _) =
                  validate-AtOrBelow payload.root_incident_id payload.symptom_incident_id
                    (edges_of o db) in
                judged o v (rw (create_causal_link, e0, e1, e2, e3, e4) at h)
          ]
        ]
      ]
    ]

    listed : ¬ (get_downstream_symptoms (some org) k db ≡ unfinished)
    listed h = elim (Bool-cases (has_node org k db)) [
      | inr e ↦ failed_is_not_unfinished (rw (get_downstream_symptoms, e) at h)
      | inl e ↦
          let (ds, q, _) = find_all_downstream_symptoms_lem k (edges_of org db) in
          answered_is_not_unfinished (rw (get_downstream_symptoms, e, q) at h)
    ]
