-- ===== src/Causal/Links/Acyclic.antt =====
-- About the links that create_causal_link of civicbrain/api/v1/causal.py stores.
use mathlib.Core.List.{append-nil}
use civicbrain_v.Base.{
  ℕ, List, [], ◌∷◌, ◌++◌, false, ◌&&◌, ◌==◌, any-append, map-append, select, select-append, ◌≡◌,
  refl, sym, ◌∙◌, subst, Bool-cases, inl, inr, arith, ==_refl,
}
use civicbrain_v.Causal.{Edge, Validation}
use civicbrain_v.Causal.Search.{has_edge}
use civicbrain_v.Causal.Downstream.{Downstream, IsAcyclic, validate_acyclic_addition-IsAcyclic}
use civicbrain_v.Causal.Links.{
  LinkCall, CreateCausalLinkRequest, answered, edges_of, new_link, linked, create_causal_link,
}
use civicbrain_v.Causal.Models.{Float, IncidentCausalLink, GraphDb}
use civicbrain_v.Causal.Links.Run.{create_causal_link-LinkRun}

-- The links of no organization make a cycle.
abbrev pub AllAcyclic : GraphDb → Type 0
AllAcyclic db = (org : ℕ) → IsAcyclic (edges_of org db)

has_edge-append :
    (e : Edge) (es : List Edge) (x y : ℕ) → has_edge (es ++ e ∷ []) x y ≡ has_edge (e ∷ es) x y
has_edge-append e es x y = any-append (λ e. e.0 == x && e.1 == y) es (e ∷ []) ∙ ground arith

append-Downstream :
    (e : Edge) (es : List Edge) {x y : ℕ} → Downstream (es ++ e ∷ []) x y → Downstream (e ∷ es) x y
append-Downstream e es {x} {y} (Downstream.direct h) =
    Downstream.direct (sym (has_edge-append e es x y) ∙ h)
append-Downstream e es {x} {y} (Downstream.further {y = m} d h) =
    Downstream.further (append-Downstream e es d) (sym (has_edge-append e es m y) ∙ h)

module _ (f : Float) (call : LinkCall) (payload : CreateCausalLinkRequest) (db : GraphDb) (org : ℕ)
    (ds : List ℕ) where
  pub edges_of-linked_own :
      edges_of org (linked f call org payload ds db)
      ≡ edges_of org db ++ (payload.root_incident_id, payload.symptom_incident_id) ∷ []
  edges_of-linked_own =
      rw
        (
          select-append (λ (l : IncidentCausalLink). l.organization_id == org) db.links
              (new_link call org payload ∷ []),
          ==_refl org,
          map-append {B = Edge}
              (λ (l : IncidentCausalLink). (l.root_incident_id, l.symptom_incident_id))
              (select (λ (l : IncidentCausalLink). l.organization_id == org) db.links)
              (new_link call org payload ∷ []),
        )
        refl

  edges_of-linked_other :
      (o : ℕ) → (org == o) ≡ false → edges_of o (linked f call org payload ds db) ≡ edges_of o db
  edges_of-linked_other o e =
      rw
        (
          select-append (λ (l : IncidentCausalLink). l.organization_id == o) db.links
              (new_link call org payload ∷ []),
          e,
          append-nil (select (λ (l : IncidentCausalLink). l.organization_id == o) db.links),
        )
        refl

module _ (f : Float) (call : LinkCall) (payload : CreateCausalLinkRequest) (db : GraphDb)
    {l : IncidentCausalLink} {db' : GraphDb} where
  -- Where the links of no organization make a cycle, they make none after a link is created.
  pub create_causal_link-AllAcyclic :
      AllAcyclic db → create_causal_link f call payload db ≡ answered (l, db') → AllAcyclic db'
  create_causal_link-AllAcyclic acyclic h o x d =
      let run = create_causal_link-LinkRun f call payload db h in
      let org = run.org in
      let e : Edge = (payload.root_incident_id, payload.symptom_incident_id) in
      let (verdict, ends, exact) =
        validate_acyclic_addition-IsAcyclic payload.root_incident_id payload.symptom_incident_id
          (edges_of org db) (acyclic org) in
      let accepted : verdict ≡ Validation.accepted = cc run.accepted in
      let d' = subst (λ g. Downstream (edges_of o g) x x) run.state d in
      elim (Bool-cases (org == o)) [
        | inl q ↦
            let same : o ≡ org = ground arith in
            let own = edges_of-linked_own f call payload db org run.downstream in
            exact.0 accepted x (
              append-Downstream e (edges_of org db) (
                subst (λ es. Downstream es x x) own
                  (subst
                    (λ k. Downstream (edges_of k (linked f call org payload run.downstream db)) x x)
                    same d')))
        | inr q ↦ acyclic o x (
            subst (λ es. Downstream es x x)
              (edges_of-linked_other f call payload db org run.downstream o q) d')
      ]
