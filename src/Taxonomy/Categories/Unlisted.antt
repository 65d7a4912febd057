-- ===== src/Taxonomy/Categories/Unlisted.antt =====
-- About the categories that a proposal or an approval of civicbrain/api/v1/taxonomy.py leaves out
-- of a public list.
use mathlib.Core.Option.{some-injective}
use mathlib.Core.List.{append-nil}
use civicbrain_v.Base.{
  ℕ, List, [], ◌∷◌, ◌++◌, Bool, true, false, ◌==◌, find, select, select-append, modify_first,
  find-key, some, ◌≡◌, refl, ◌∙◌, ap, Bool-cases, inl, inr, arith,
}
use civicbrain_v.Taxonomy.Rubric.{SeverityRubric}
use civicbrain_v.Taxonomy.Categories.{
  Collation, TaxonomyCategory, CategoryStatus, TaxonomyDb, TaxonomyCategoryPropose, is_public,
  public_list, approve, approved_in,
}
use civicbrain_v.Taxonomy.Categories.Governance.{IsProposed}

-- A row that is in no public list before and after a change of it changes no such list.
select-modify_first_out :
    (p q : TaxonomyCategory → Bool) (f : TaxonomyCategory → TaxonomyCategory) {c : TaxonomyCategory}
    (cs : List TaxonomyCategory)
    → find q cs ≡ some c
    → p c ≡ false
    → p (f c) ≡ false
    → select p (modify_first q f cs) ≡ select p cs
select-modify_first_out p q f [] e h k = refl
select-modify_first_out p q f {c} (d ∷ cs) e h k = elim (Bool-cases (q d)) [
  | inl m ↦
      let same : some d ≡ some c = rw m at e in
      let eq = some-injective d c same in rw (m, eq, h, k) refl
  | inr m ↦ rw (m, select-modify_first_out p q f {c = c} cs (rw m at e) h k) refl
]

module _ (co : Collation) (db : TaxonomyDb) where
  pub proposed_list :
      (id now : ℕ) (p : TaxonomyCategoryPropose) {c : TaxonomyCategory} {db' : TaxonomyDb} (org : ℕ)
      → IsProposed co id now p db c db'
      → public_list co org db' ≡ public_list co org db
  proposed_list id now p {c} org h =
      let status : c.status ≡ CategoryStatus.proposed =
        ap (λ (x : TaxonomyCategory). x.status) h.made in
      ap (public_list co org) h.grown ∙ ap co.by_code (unlisted status)
    where
      unlisted :
          c.status ≡ CategoryStatus.proposed
          → select (is_public org) (db.categories ++ c ∷ []) ≡ select (is_public org) db.categories
      unlisted e =
          let hidden : is_public org c ≡ false = rw e (ground arith) in
          rw
            (
              select-append (is_public org) db.categories (c ∷ []),
              hidden,
              append-nil (select (is_public org) db.categories),
            )
            refl

  pub approved_list :
      (rubric : SeverityRubric) (now id : ℕ) (c : TaxonomyCategory) (org : ℕ)
      → find (λ (x : TaxonomyCategory). x.id == id) db.categories ≡ some c
      → (org == c.organization_id) ≡ false
      → public_list co org (approved_in rubric now c db) ≡ public_list co org db
  approved_list rubric now id c org e other =
      let key : (c.id == id) ≡ true =
        find-key (λ (x : TaxonomyCategory). x.id == id) db.categories e in
      let same : id ≡ c.id = ground arith in
      let turned : (c.organization_id == org) ≡ false = ground arith in
      ap co.by_code (
        select-modify_first_out (is_public org) (λ x. x.id == c.id) (approve rubric now)
          db.categories (rw same at e) (rw turned refl) (rw turned refl))
