-- ===== src/Intake/Routing/Best.antt =====
-- About the incident that route_and_deduplicate_observation of
-- civicbrain/domain/intake/services.py finds.
use mathlib.Core.List.{Memᴰ}
use civicbrain_v.Base.{
  List, ◌==◌, select, [], ◌∷◌, ◌++◌, map, Bool, true, false, ◌&&◌, ◌||◌, not, all, All, Option,
  none, some, ◌≡◌, refl, ◌⊎◌, ap, Bool-cases, inl, inr, arith,
}
use civicbrain_v.Intake.Models.{Incident, IncidentStatus}
use civicbrain_v.Intake.Fractions.{
  Fraction, exceeds, exceeds_trans, exceeds_above, exceeds_asym, IsPositive,
}
use civicbrain_v.Intake.Similarity.{zero_fraction}
use civicbrain_v.Intake.Similarity.Bounds.{calculate_jaro_winkler_similarity-some}
use civicbrain_v.Intake.Dedup.{evaluate_splink_record_linkage-IsPositive}
use civicbrain_v.Intake.Routing.{
  Linkage, is_open, Detected, IntakeDb, RoutingCall, is_match, candidates, scored, link_all,
  text_or_empty, best_match, audit, new_incident, link_observation, with_incident, abs_diff,
  route_and_deduplicate_observation,
}

abbrev pub Linked : Type 0
Linked = List (Incident × Linkage)

-- No match in the list is more probable than this.
abbrev pub none_above : Fraction → Linked → Bool
none_above p =
    all (λ (e : Incident × Linkage). not (is_match e.1) || not (exceeds e.1.match_probability p))

abbrev AllPositive : Linked → Type 0
AllPositive = All (λ (e : Incident × Linkage). IsPositive e.1.match_probability)

-- What is above the greater is above the smaller.
none_above-exceeds :
    (p q : Fraction) (ls : Linked)
    → AllPositive ls
    → IsPositive q
    → exceeds q p ≡ true
    → none_above p ls ≡ true
    → none_above q ls ≡ true
none_above-exceeds p q [] pos q_pos h k = refl
none_above-exceeds p q ((c, l) ∷ ls) (here, pos) q_pos h k = ground (
  arith,
  exceeds_above p q l.match_probability q_pos here h,
  none_above-exceeds p q ls pos q_pos h,
)

-- The result is the start value, where no match is more probable than it; or it is a match of the
-- list that is more probable than the start value and than which no match is more probable.
abbrev IsBest : Option Incident → Fraction → Linked → Option Incident → Type 0
IsBest start highest ls r =
    ((r ≡ start) × (none_above highest ls ≡ true))
    ⊎ ((i : Incident) × (l : Linkage) × (r ≡ some i)
        × Memᴰ (i, l) ls
        × (is_match l ≡ true)
        × (exceeds l.match_probability highest ≡ true)
        × IsPositive l.match_probability
        × (none_above l.match_probability ls ≡ true))

module _ (start : Option Incident) (highest : Fraction) (c : Incident) (l : Linkage) (ls : Linked)
    (here : IsPositive l.match_probability) where
  IsBest-take :
      (is_match l && exceeds l.match_probability highest) ≡ true
      → {r : Option Incident} → IsBest (some c) l.match_probability ls r
      → IsBest start highest ((c, l) ∷ ls) r
  IsBest-take e (inl (q, top)) =
      inr (c, l, q, Memᴰ.head refl, ground arith, ground arith, here, ground (arith, top))
  IsBest-take e (inr (i, k, q, within, match, above, pos, top)) = inr (
    i,
    k,
    q,
    Memᴰ.tail within,
    match,
    exceeds_trans highest l.match_probability k.match_probability here pos above (ground arith),
    pos,
    ground (arith, exceeds_asym l.match_probability k.match_probability above, top),
  )

  IsBest-keep :
      (is_match l && exceeds l.match_probability highest) ≡ false
      → {r : Option Incident} → IsBest start highest ls r
      → IsBest start highest ((c, l) ∷ ls) r
  IsBest-keep e (inl (q, top)) = inl (q, ground (arith, top))
  IsBest-keep e (inr (i, k, q, within, match, above, pos, top)) = inr (
    i,
    k,
    q,
    Memᴰ.tail within,
    match,
    above,
    pos,
    ground
        (arith, exceeds_above highest k.match_probability l.match_probability pos here above, top),
  )

best_match-IsBest :
    (start : Option Incident) (highest : Fraction) (ls : Linked)
    → AllPositive ls
    → IsBest start highest ls (best_match start highest ls)
unfolding best_match
best_match-IsBest start highest [] pos = inl (refl, refl)
best_match-IsBest start highest ((c, l) ∷ ls) (here, pos) =
    elim (Bool-cases (is_match l && exceeds l.match_probability highest)) [
      | inl e ↦
          rw (best_match, e)
            (IsBest-take start highest c l ls here e
              (best_match-IsBest (some c) l.match_probability ls pos))
      | inr e ↦
          rw (best_match, e)
            (IsBest-keep start highest c l ls here e (best_match-IsBest start highest ls pos))
    ]

-- Every candidate is measured and scored, in their order.
link_all-some :
    (r : RoutingCall) (o : Detected) (cs : List Incident)
    → (ls : Linked) × (link_all r o cs ≡ some ls)
      × (map (λ (e : Incident × Linkage). e.0) ls ≡ cs)
      × AllPositive ls
unfolding link_all
link_all-some r o [] = ([], refl, refl, tt)
link_all-some r o (c ∷ cs) =
    let (f, e, _) =
      calculate_jaro_winkler_similarity-some r.lower (text_or_empty r.description)
        c.category_code in
    let (ls, q, same, pos) = link_all-some r o cs in
    (
      (c, scored r o c f) ∷ ls,
      rw (link_all, e, q) refl,
      ap (λ xs. c ∷ xs) same,
      (
        evaluate_splink_record_linkage-IsPositive (r.distance r.place c.geom)
            (abs_diff r.now c.created_at) _ f,
        pos,
      ),
    )

-- What a new incident takes from the call and the observation.
abbrev pub IsReported : RoutingCall → Detected → Incident → Type 0
IsReported r o i =
    (i.id ≡ r.incident_id)
    × (i.organization_id ≡ r.organization_id)
    × (i.ward_id ≡ r.ward_id)
    × (i.department_id ≡ o.department_id)
    × (i.category_code ≡ o.category_code)
    × (i.geom ≡ r.place)
    × (i.severity ≡ o.severity_score)
    × (i.status ≡ IncidentStatus.reported)

-- Routing never fails. Every open incident of the organization and department of the observation,
-- in whatever ward, is scored and has its audit row. The observation is linked either to one of
-- these, which is a match with a positive probability and than which no match among them is more
-- probable, and then no incident is added; or, where none of them is a match with a positive
-- probability, to a new incident in the given ward that is added.
pub route_and_deduplicate_observation_lem :
    (r : RoutingCall) (o : Detected) (s : IntakeDb)
    → (ls : Linked) × (i : Incident) × (s' : IntakeDb) × (route_and_deduplicate_observation r o s
        ≡ some (i, s'))
      × (link_all r o (candidates r.organization_id o s.db) ≡ some ls)
      × (map (λ (e : Incident × Linkage). e.0) ls
          ≡ select
              (λ (c : Incident).
                c.organization_id == r.organization_id
                && c.department_id == o.department_id
                && is_open c.status)
              s.db.incidents)
      × (s'.dedup_links ≡ s.dedup_links ++ map (audit r.organization_id o) ls)
      × (((l : Linkage) × Memᴰ (i, l) ls
            × (is_match l ≡ true)
            × (exceeds l.match_probability zero_fraction ≡ true)
            × (none_above l.match_probability ls ≡ true)
            × (s'.db ≡ link_observation o.id i.id s.db))
          ⊎ ((none_above zero_fraction ls ≡ true)
              × (i ≡ new_incident r o)
              × (s'.db ≡ link_observation o.id i.id (with_incident i s.db))
              × IsReported r o i))
unfolding route_and_deduplicate_observation
route_and_deduplicate_observation_lem r o s =
    let (ls, e, same, pos) = link_all-some r o (candidates r.organization_id o s.db) in
    elim (best_match-IsBest none zero_fraction ls pos) [
      | inl (q, top) ↦ (
        ls,
        _,
        _,
        rw (e, q) refl,
        e,
        same,
        refl,
        inr (top, refl, refl, (refl, refl, refl, refl, refl, refl, refl, refl)),
      )
      | inr (i, l, q, within, match, above, _, top) ↦
          (ls, i, _, rw (e, q) refl, e, same, refl, inl (l, within, match, above, top, refl))
    ]
