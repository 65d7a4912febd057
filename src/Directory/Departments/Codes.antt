-- ===== src/Directory/Departments/Codes.antt =====
-- About the codes of the departments that create_department of
-- civicbrain/api/v1/hierarchy.py makes.
use mathlib.Core.List.{append-nil}
use civicbrain_v.Base.{
  ℕ, List, [], ◌∷◌, ◌++◌, ◌≤◌, true, not, ◌==◌, Option, none, some, ◌≡◌, refl, sym, ◌∙◌, ap, length,
  select, select-append, Bool-cases, inl, inr, arith, ==_refl,
}
use civicbrain_v.Text.{Text, text_eq, text_eq_refl, eq_of_text_eq}
use civicbrain_v.Directory.Models.{done-injective, Department, Directory, Refusal, done, refused}
use civicbrain_v.Directory.Cells.{Unicode}
use civicbrain_v.Directory.Departments.{
  DepartmentCreate, clean_code, has_code, new_department, insert_department, create_department,
}

-- No organization has two departments with the same code.
abbrev pub IsUnique : Directory → Type 0
IsUnique db = (org : ℕ) (code : Text) → length (select (has_code org code) db.departments) ≤ 1

-- What is known where a department is added.
record IsAdded (u : Unicode) (id org : ℕ) (payload : DepartmentCreate) (db : Directory)
    (d : Department) (db' : Directory) : Type 0 where
  pub fresh : select (has_code org (clean_code u payload)) db.departments ≡ []
  pub made : d ≡ new_department u id org payload
  pub grown : db'.departments ≡ db.departments ++ d ∷ []

module _ (u : Unicode) (id org : ℕ) (payload : DepartmentCreate) (db : Directory) {d : Department}
    {db' : Directory} where
  insert_department-IsAdded :
      (ds : List Department)
      → select (has_code org (clean_code u payload)) db.departments ≡ ds
      → insert_department u id org payload db ds ≡ done (d, db')
      → IsAdded u id org payload db d db'
  insert_department-IsAdded [] e h =
      let pair = done-injective h in
      record {
        fresh = e;
        made = sym (ap (λ r. r.0) pair);
        grown =
            sym (ap (λ r. r.1.departments) pair)
            ∙ ap (λ (x : Department). db.departments ++ x ∷ []) (ap (λ r. r.0) pair);
      }
  insert_department-IsAdded (_ ∷ []) e h = cc
  insert_department-IsAdded (_ ∷ _ ∷ _) e h = cc

  create_department-IsAdded :
      (claim : Option ℕ)
      → create_department u id claim org payload db ≡ done (d, db')
      → (claim ≡ some org) × IsAdded u id org payload db d db'
  unfolding create_department
  create_department-IsAdded none h = cc
  create_department-IsAdded (some own) h = elim (Bool-cases (not (own == org))) [
    | inl e ↦
        let k : refused Refusal.other_organization ≡ done (d, db') =
          rw (create_department, e) at h in
        cc
    | inr e ↦
        let own_org : own ≡ org = ground arith in
        (
          ap some own_org,
          insert_department-IsAdded (select (has_code org (clean_code u payload)) db.departments)
              refl (rw (create_department, e) at h),
        )
  ]

has_code-both :
    (org : ℕ) (code : Text) (d : Department)
    → has_code org code d ≡ true
    → (d.organization_id ≡ org) × (d.code ≡ code)
has_code-both org code d h =
    let same : text_eq d.code code ≡ true = ground arith in
    (ground arith, eq_of_text_eq d.code code same)

module _ (u : Unicode) (id org : ℕ) (payload : DepartmentCreate) (db : Directory) {d : Department}
    {db' : Directory} where
  -- The number of departments with a code, where one is added with a fresh code.
  select_added :
      (o : ℕ) (code : Text)
      → IsAdded u id org payload db d db'
      → has_code o code d ≡ true
      → select (has_code o code) db'.departments ≡ d ∷ []
  select_added o code added e =
      let (in_org, with_code) = has_code-both o code d e in
      let same_org : o ≡ org = sym in_org ∙ ap (λ (x : Department). x.organization_id) added.made in
      let same_code : code ≡ clean_code u payload =
        sym with_code ∙ ap (λ (x : Department). x.code) added.made in
      let none_before : select (has_code o code) db.departments ≡ [] =
        ap (λ k. select (has_code k code) db.departments) same_org
        ∙ ap (λ t. select (has_code org t) db.departments) same_code
        ∙ added.fresh in
      rw (added.grown, select-append (has_code o code) db.departments (d ∷ []), e, none_before) refl

  count_added :
      (o : ℕ) (code : Text)
      → IsAdded u id org payload db d db'
      → length (select (has_code o code) db.departments) ≤ 1
      → length (select (has_code o code) db'.departments) ≤ 1
  count_added o code added h = elim (Bool-cases (has_code o code d)) [
    | inl e ↦ rw (select_added o code added e) (omega arith)
    | inr e ↦
        rw
          (
            added.grown,
            select-append (has_code o code) db.departments (d ∷ []),
            e,
            append-nil (select (has_code o code) db.departments),
          )
          h
  ]

  -- Where the codes are unique in each organization and a department is created, the claims name its
  -- organization, the organization had no department with its code before and has exactly this one
  -- after, and the codes are still unique.
  pub create_department-IsUnique :
      (claim : Option ℕ)
      → IsUnique db
      → create_department u id claim org payload db ≡ done (d, db')
      → (claim ≡ some org)
        × (select (has_code org d.code) db.departments ≡ [])
        × (select (has_code org d.code) db'.departments ≡ d ∷ [])
        × IsUnique db'
  create_department-IsUnique claim unique h =
      let (claimed, added) = create_department-IsAdded u id org payload db claim h in
      let code = ap (λ (x : Department). x.code) added.made in
      let own : d.organization_id ≡ org = ap (λ (x : Department). x.organization_id) added.made in
      let found : has_code org d.code d ≡ true = rw (own, ==_refl org, text_eq_refl d.code) refl in
      (
        claimed,
        ap (λ t. select (has_code org t) db.departments) code ∙ added.fresh,
        select_added org d.code added found,
        λ o c. count_added o c added (unique o c),
      )
