-- ===== src/Taxonomy/Categories/Governance.antt =====
-- About the rubrics and codes of the categories of civicbrain/api/v1/taxonomy.py.
use mathlib.Core.Option.{some-injective}
use civicbrain_v.Base.{
  ℕ, List, [], ◌∷◌, ◌++◌, false, ◌==◌, any, find, select, All, Option, some, ◌≡◌, refl, sym, ◌∙◌,
  ap, subst, Bool-cases, Option-cases, inl, inr,
}
use civicbrain_v.Text.Strip.{strip}
use civicbrain_v.Directory.Models.{Department}
use civicbrain_v.Taxonomy.Rubric.{
  RubricLevel, SeverityRubric, tiers, levels_of, severity_rubric, create_default_rubric,
}
use civicbrain_v.Taxonomy.Rubric.Complete.{severity_rubric-IsComplete, create_default_rubric_lem}
use civicbrain_v.Taxonomy.Categories.{
  Collation, TaxonomyCategory, TaxonomyDb, TaxonomyError, granted, denied, TaxonomyCategoryPropose,
  has_code, proposed_rubric, new_category, insert_category, propose_category, approve, approved_in,
  is_foreign, approve_category,
}

abbrev pub IsComplete : TaxonomyCategory → Type 0
IsComplete c = levels_of c.severity_rubric.levels ≡ tiers

-- Every category has a rubric of five tiers.
abbrev pub IsGoverned : TaxonomyDb → Type 0
IsGoverned db = All IsComplete db.categories

granted-injective : {A : Type 0} {x y : A} → granted x ≡ granted y → x ≡ y
granted-injective h = cc

never : {A P : Type 0} {e : TaxonomyError} {y : A} → denied e ≡ granted y → P
never h = cc

proposed_rubric-IsComplete :
    (p : TaxonomyCategoryPropose) {r : SeverityRubric}
    → proposed_rubric p ≡ some r
    → levels_of r.levels ≡ tiers
unfolding proposed_rubric
proposed_rubric-IsComplete p {r} h = elim (Option-cases p.levels) [
  | inr (levels, e) ↦ severity_rubric-IsComplete levels p.buhlmann_k (rw (proposed_rubric, e) at h)
  | inl e ↦
      let (s, q, complete) = create_default_rubric_lem p.name in
      let made : create_default_rubric p.name ≡ some r = rw (proposed_rubric, e) at h in
      subst (λ (t : SeverityRubric). levels_of t.levels ≡ tiers) (some-injective s r (sym q ∙ made))
        complete
]

-- What is known where a category is proposed.
pub record IsProposed (co : Collation) (id now : ℕ) (p : TaxonomyCategoryPropose) (db : TaxonomyDb)
    (c : TaxonomyCategory) (db' : TaxonomyDb) : Type 0 where
  pub rubric : SeverityRubric
  pub complete : levels_of rubric.levels ≡ tiers
  pub fresh : select (has_code p.organization_id (co.upper (strip p.code))) db.categories ≡ []
  pub made : c ≡ new_category co id now p rubric
  pub grown : db' ≡ record db { categories = db.categories ++ c ∷ [] }

insert_category_inv :
    (c : TaxonomyCategory) (db : TaxonomyDb) (cs : List TaxonomyCategory) {d : TaxonomyCategory}
    {db' : TaxonomyDb}
    → insert_category c db cs ≡ granted (d, db')
    → (cs ≡ []) × (d ≡ c) × (db' ≡ record db { categories = db.categories ++ d ∷ [] })
insert_category_inv c db [] h =
    let pair = granted-injective h in
    let same = sym (ap (λ r. r.0) pair) in (refl, same, sym (ap (λ r. r.1) pair) ∙ rw same refl)
insert_category_inv c db (_ ∷ []) h = never h
insert_category_inv c db (_ ∷ _ ∷ _) h = never h

pub propose_category-IsProposed :
    (co : Collation) (id now : ℕ) (p : TaxonomyCategoryPropose) (db : TaxonomyDb)
    {c : TaxonomyCategory} {db' : TaxonomyDb}
    → propose_category co id now p db ≡ granted (c, db')
    → IsProposed co id now p db c db'
unfolding propose_category
propose_category-IsProposed co id now p db {c} {db'} h = elim (Option-cases (proposed_rubric p)) [
  | inl e ↦ never (rw (propose_category, e) at h)
  | inr (rubric, e0) ↦ elim (Bool-cases (any (λ o. o == p.organization_id) db.organizations)) [
    | inr e ↦ never (rw (propose_category, e0, e) at h)
    | inl e1 ↦
        elim (Option-cases (find (λ (d : Department). d.id == p.department_id) db.departments)) [
          | inl e ↦ never (rw (propose_category, e0, e1, e) at h)
          | inr (d, e2) ↦ elim (Bool-cases (d.organization_id == p.organization_id)) [
            | inr e ↦ never (rw (propose_category, e0, e1, e2, e) at h)
            | inl e3 ↦
                let (fresh, made, grown) =
                  insert_category_inv (new_category co id now p rubric) db
                    (select (has_code p.organization_id (co.upper (strip p.code))) db.categories)
                    (rw (propose_category, e0, e1, e2, e3) at h) in
                record {
                  rubric = rubric;
                  complete = proposed_rubric-IsComplete p e0;
                  fresh = fresh;
                  made = made;
                  grown = grown;
                }
          ]
        ]
  ]
]

-- What is known where a category is approved.
pub record IsApproved (own : Option ℕ) (now id : ℕ) (db : TaxonomyDb) (c : TaxonomyCategory)
    (db' : TaxonomyDb) : Type 0 where
  pub before : TaxonomyCategory
  pub rubric : SeverityRubric
  pub complete : levels_of rubric.levels ≡ tiers
  pub found : find (λ (c : TaxonomyCategory). c.id == id) db.categories ≡ some before
  pub domestic : is_foreign own before ≡ false
  pub made : c ≡ approve rubric now before
  pub changed : db' ≡ approved_in rubric now before db

pub approve_category-IsApproved :
    (own : Option ℕ) (now id : ℕ) (levels : List RubricLevel) (k : ℕ) (db : TaxonomyDb)
    {c : TaxonomyCategory} {db' : TaxonomyDb}
    → approve_category own now id levels k db ≡ granted (c, db')
    → IsApproved own now id db c db'
unfolding approve_category
approve_category-IsApproved own now id levels k db {c} {db'} h =
    elim (Option-cases (severity_rubric levels k)) [
      | inl e ↦ never (rw (approve_category, e) at h)
      | inr (rubric, e0) ↦
          elim (Option-cases (find (λ (c : TaxonomyCategory). c.id == id) db.categories)) [
            | inl e ↦ never (rw (approve_category, e0, e) at h)
            | inr (b, e1) ↦ elim (Bool-cases (is_foreign own b)) [
              | inl e ↦ never (rw (approve_category, e0, e1, e) at h)
              | inr e2 ↦
                  let pair = granted-injective (rw (approve_category, e0, e1, e2) at h) in
                  record {
                    before = b;
                    rubric = rubric;
                    complete = severity_rubric-IsComplete levels k e0;
                    found = e1;
                    domestic = e2;
                    made = sym (ap (λ r. r.0) pair);
                    changed = sym (ap (λ r. r.1) pair);
                  }
            ]
          ]
    ]
