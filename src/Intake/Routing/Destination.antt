-- ===== src/Intake/Routing/Destination.antt =====
-- About the incident that route_and_deduplicate_observation, civicbrain/domain/intake/services.py,
-- links an observation to.
use mathlib.Core.List.Memᴰ
use mathlib.Core.List.{Memᴰ}
use civicbrain_v.Base.{
  List, [], ◌∷◌, map, Bool, true, select, Option, some, ◌≡◌, ◌⊎◌, sym, subst, ◌∙◌, ap, Bool-cases,
  inl, inr,
}
use civicbrain_v.Intake.Models.{Incident}
use civicbrain_v.Store.{Db}
use civicbrain_v.Intake.Routing.{
  Linkage, Detected, IntakeDb, RoutingCall, is_match, candidates, is_candidate, new_incident,
  link_observation, with_incident, route_and_deduplicate_observation,
}
use civicbrain_v.Intake.Routing.Best.{
  Linked, IsReported, none_above, route_and_deduplicate_observation_lem,
}
use civicbrain_v.Intake.Fractions.{exceeds}
use civicbrain_v.Intake.Similarity.{zero_fraction}

Mem-map-fst :
    {i : Incident} {l : Linkage} (ls : List (Incident × Linkage))
    → Memᴰ (i, l) ls
    → Memᴰ i (map (λ (e : Incident × Linkage). e.0) ls)
Mem-map-fst [] m = absurd (Memᴰ.not-nil m)
Mem-map-fst (e ∷ ls) (Memᴰ.head q) = Memᴰ.head (ap (λ (x : Incident × Linkage). x.0) q)
Mem-map-fst (e ∷ ls) (Memᴰ.tail m) = Memᴰ.tail (Mem-map-fst ls m)

Mem-cons :
    {i : Incident} (j : Incident) {is js : List Incident}
    → Memᴰ i (j ∷ is)
    → (Memᴰ i is → Memᴰ i js)
    → Memᴰ i (j ∷ js)
Mem-cons j (Memᴰ.head e) h = Memᴰ.head e
Mem-cons j (Memᴰ.tail m) h = Memᴰ.tail (h m)

Mem-select :
    {i : Incident} (p : Incident → Bool) (is : List Incident) → Memᴰ i (select p is) → Memᴰ i is
Mem-select p [] m = absurd (Memᴰ.not-nil m)
Mem-select p (j ∷ is) m = elim (Bool-cases (p j)) [
  | inl e ↦ Mem-cons j (rw e at m) (Mem-select p is)
  | inr e ↦ Memᴰ.tail (Mem-select p is (rw e at m))
]

-- Where routing leads: to an incident of the table, or to a new one that is added.
module _ (r : RoutingCall) (o : Detected) (s : IntakeDb) where
  abbrev pub Routed : Incident → Db → Type 0
  Routed i db =
      (Memᴰ i s.db.incidents × (db ≡ link_observation o.id i.id s.db))
      ⊎ ((i ≡ new_incident r o) × (db ≡ link_observation o.id i.id (with_incident i s.db)))

  ends-Routed :
      {i : Incident} {ls : Linked} (s' : IntakeDb)
      → map (λ (e : Incident × Linkage). e.0) ls ≡ candidates r.organization_id o s.db
      → ((l : Linkage) × Memᴰ (i, l) ls
          × (is_match l ≡ true)
          × (exceeds l.match_probability zero_fraction ≡ true)
          × (none_above l.match_probability ls ≡ true)
          × (s'.db ≡ link_observation o.id i.id s.db))
        ⊎ ((none_above zero_fraction ls ≡ true)
            × (i ≡ new_incident r o)
            × (s'.db ≡ link_observation o.id i.id (with_incident i s.db))
            × IsReported r o i)
      → Routed i s'.db
  ends-Routed {i} {ls} s' same (inl (l, m, _, _, _, e)) =
      let there : Memᴰ i (candidates r.organization_id o s.db) =
        subst (λ xs. Memᴰ i xs) same (Mem-map-fst ls m) in
      inl (Mem-select (is_candidate r.organization_id o.department_id) s.db.incidents there, e)
  ends-Routed s' same (inr (_, q, e, _)) = inr (q, e)

  pub route-Routed :
      {i : Incident} {s' : IntakeDb}
      → route_and_deduplicate_observation r o s ≡ some (i, s')
      → Routed i s'.db
  route-Routed {i} {s'} h =
      let (ls, i0, s0, e, linked, same, audits, ends) =
        route_and_deduplicate_observation_lem r o s in
      let both : ◌≡◌ {A = Option (Incident × IntakeDb)} (some (i0, s0)) (some (i, s')) =
        sym e ∙ h in
      let first : i0 ≡ i = cc in
      let second : s0 ≡ s' = cc in
      subst (λ (x : IntakeDb). Routed i x.db) second
        (subst (λ x. Routed x s0.db) first (ends-Routed s0 same ends))
