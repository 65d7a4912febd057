-- ===== src/Taxonomy/Categories.antt =====
-- list_categories, propose_category and approve_category of civicbrain/api/v1/taxonomy.py.
-- The cache of the public list is part of the state; an entry of it may have run out before a call.
pub mod Governance
pub mod Unlisted
pub mod Public
use civicbrain_v.Base.{
  ℕ, List, [], ◌∷◌, ◌++◌, Bool, true, false, ◌&&◌, not, ◌==◌, if◌then◌else◌, any, find, select,
  modify_first, Option, none, some,
}
use civicbrain_v.Text.{Text, codes, text_eq}
use civicbrain_v.Text.Strip.{strip}
use civicbrain_v.Directory.Models.{StaffRole, value, Department}
use civicbrain_v.Taxonomy.Rubric.{
  RubricLevel, SeverityRubric, severity_rubric, create_default_rubric,
}

pub data CategoryStatus : Type 0 where
  proposed approved deprecated : CategoryStatus

pub record TaxonomyCategory : Type 0 where
  pub id : ℕ
  pub organization_id : ℕ
  pub department_id : ℕ
  pub code : Text
  pub name : Text
  pub description : Option Text
  pub severity_rubric : SeverityRubric
  pub status : CategoryStatus
  pub is_active : Bool
  pub updated_at : ℕ

-- The tables that are read and written, and the cached lists by organization.
pub record TaxonomyDb : Type 0 where
  pub organizations : List ℕ
  pub departments : List Department
  pub categories : List TaxonomyCategory
  pub cache : List (ℕ × List TaxonomyCategory)

-- `str.upper`, and the order that the database gives the rows by their code.
pub record Collation : Type 0 where
  pub upper : Text → Text
  pub by_code : List TaxonomyCategory → List TaxonomyCategory

-- The status codes are 422 for a payload that does not validate, 404, 400, 409, 500, 404 and 403.
pub data TaxonomyError : Type 0 where
  invalid_rubric unknown_organization foreign_department code_exists multiple_codes
        category_not_found foreign_category :
      TaxonomyError

pub data Ruling (A : Type 0) : Type 0 where
  granted : A → Ruling A
  denied : TaxonomyError → Ruling A

-- `claims.role` and `claims.org_id`. The claims have no attribute `user_role`, which `getattr`
-- answers with None.
pub record OptionalClaims : Type 0 where
  pub role : Option StaffRole
  pub org_id : Option ℕ

abbrev status_eq : CategoryStatus → CategoryStatus → Bool
status_eq CategoryStatus.proposed CategoryStatus.proposed = true
status_eq CategoryStatus.approved CategoryStatus.approved = true
status_eq CategoryStatus.deprecated CategoryStatus.deprecated = true
status_eq _ _ = false

-- `claims.role == "authenticated"`: a role is a text, its value.
abbrev is_authenticated : Option StaffRole → Bool
is_authenticated none = false
is_authenticated (some r) = text_eq (value r) (codes "authenticated")

abbrev same_organization : Option ℕ → ℕ → Bool
same_organization none org = false
same_organization (some o) org = o == org

abbrev user_role : OptionalClaims → Option StaffRole
user_role claims = none

abbrev is_admin_role : Option StaffRole → Bool
is_admin_role (some StaffRole.admin) = true
is_admin_role _ = false

-- `is_admin`
unfoldable pub sees_all : Option OptionalClaims → ℕ → Bool
unfolding value text_eq
sees_all none org = false
sees_all (some c) org =
    is_authenticated c.role && same_organization c.org_id org && is_admin_role (user_role c)

-- Approved and active, in the organization.
abbrev pub is_public : ℕ → TaxonomyCategory → Bool
is_public org c =
    c.organization_id == org && status_eq c.status CategoryStatus.approved && c.is_active

-- The rows that an administrator asks for.
abbrev is_requested : ℕ → Option CategoryStatus → TaxonomyCategory → Bool
is_requested org none c = c.organization_id == org
is_requested org (some s) c = c.organization_id == org && status_eq c.status s

-- The public list as the database has it.
abbrev pub public_list : Collation → ℕ → TaxonomyDb → List TaxonomyCategory
public_list co org db = co.by_code (select (is_public org) db.categories)

abbrev pub cached : ℕ → TaxonomyDb → Option (List TaxonomyCategory)
cached org db = elim (find (λ (e : ℕ × List TaxonomyCategory). e.0 == org) db.cache) [
  | none ↦ none
  | some e ↦ some e.1
]

abbrev pub uncache : ℕ → List (ℕ × List TaxonomyCategory) → List (ℕ × List TaxonomyCategory)
uncache org = select (λ (e : ℕ × List TaxonomyCategory). not (e.0 == org))

-- `cache_set`
abbrev pub store : ℕ → List TaxonomyCategory → TaxonomyDb → TaxonomyDb
store org cs db = record db { cache = (org, cs) ∷ uncache org db.cache }

-- Without a status, the public list goes through the cache.
unfoldable pub list_public : Collation → ℕ → TaxonomyDb → List TaxonomyCategory × TaxonomyDb
list_public co org db = elim (cached org db) [
  | some cs ↦ (cs, db)
  | none ↦ (public_list co org db, store org (public_list co org db) db)
]

unfoldable pub list_categories :
    Collation
    → Option OptionalClaims
    → ℕ
    → Option CategoryStatus
    → TaxonomyDb
    → List TaxonomyCategory × TaxonomyDb
unfolding sees_all list_public
list_categories co claims org status db =
    if sees_all claims org
    then (co.by_code (select (is_requested org status) db.categories), db)
    else elim status [ none ↦ list_public co org db | some s ↦ (public_list co org db, db) ]

pub record TaxonomyCategoryPropose : Type 0 where
  pub organization_id : ℕ
  pub department_id : ℕ
  pub code : Text
  pub name : Text
  pub description : Option Text
  pub levels : Option (List RubricLevel)
  pub buhlmann_k : ℕ

abbrev pub has_code : ℕ → Text → TaxonomyCategory → Bool
has_code org code c = c.organization_id == org && text_eq c.code code

-- The rubric of the payload, which is validated with it, or the default one.
unfoldable pub proposed_rubric : TaxonomyCategoryPropose → Option SeverityRubric
unfolding severity_rubric create_default_rubric
proposed_rubric p = elim p.levels [
  | some levels ↦ severity_rubric levels p.buhlmann_k
  | none ↦ create_default_rubric p.name
]

abbrev pub new_category :
    Collation → ℕ → ℕ → TaxonomyCategoryPropose → SeverityRubric → TaxonomyCategory
new_category co id now p rubric = record {
  id = id;
  organization_id = p.organization_id;
  department_id = p.department_id;
  code = co.upper (strip p.code);
  name = strip p.name;
  description = p.description;
  severity_rubric = rubric;
  status = CategoryStatus.proposed;
  is_active = true;
  updated_at = now;
}

-- The insert, given the categories that have the code; `scalar_one_or_none` raises on two.
abbrev pub insert_category :
    TaxonomyCategory → TaxonomyDb → List TaxonomyCategory → Ruling (TaxonomyCategory × TaxonomyDb)
insert_category c db [] = granted (c, record db { categories = db.categories ++ c ∷ [] })
insert_category c db (_ ∷ []) = denied TaxonomyError.code_exists
insert_category c db (_ ∷ _ ∷ _) = denied TaxonomyError.multiple_codes

-- `id` is drawn, `now` the time of the transaction.
unfoldable pub propose_category :
    Collation
    → ℕ
    → ℕ
    → TaxonomyCategoryPropose
    → TaxonomyDb
    → Ruling (TaxonomyCategory × TaxonomyDb)
unfolding proposed_rubric text_eq strip
propose_category co id now p db = elim (proposed_rubric p) [
  | none ↦ denied TaxonomyError.invalid_rubric
  | some rubric ↦
      if not (any (λ o. o == p.organization_id) db.organizations)
      then denied TaxonomyError.unknown_organization
      else elim (find (λ d. d.id == p.department_id) db.departments) [
        | none ↦ denied TaxonomyError.foreign_department
        | some d ↦
            if not (d.organization_id == p.organization_id)
            then denied TaxonomyError.foreign_department
            else insert_category (new_category co id now p rubric) db
                (select (has_code p.organization_id (co.upper (strip p.code))) db.categories)
      ]
]

abbrev pub approve : SeverityRubric → ℕ → TaxonomyCategory → TaxonomyCategory
approve rubric now c = record c {
  severity_rubric = rubric;
  status = CategoryStatus.approved;
  updated_at = now;
}

-- Claims without an organization pass.
abbrev pub is_foreign : Option ℕ → TaxonomyCategory → Bool
is_foreign none c = false
is_foreign (some o) c = not (o == c.organization_id)

-- The commit of the approval, and the deletion of the cached list.
abbrev pub approved_in : SeverityRubric → ℕ → TaxonomyCategory → TaxonomyDb → TaxonomyDb
approved_in rubric now c db = record db {
  categories =
      modify_first (λ (x : TaxonomyCategory). x.id == c.id) (approve rubric now) db.categories;
  cache = uncache c.organization_id db.cache;
}

-- The administrator's organization is that of the claims.
unfoldable pub approve_category :
    Option ℕ → ℕ → ℕ → List RubricLevel → ℕ → TaxonomyDb → Ruling (TaxonomyCategory × TaxonomyDb)
unfolding severity_rubric
approve_category own now id levels k db = elim (severity_rubric levels k) [
  | none ↦ denied TaxonomyError.invalid_rubric
  | some rubric ↦ elim (find (λ (c : TaxonomyCategory). c.id == id) db.categories) [
    | none ↦ denied TaxonomyError.category_not_found
    | some c ↦
        if is_foreign own c
        then denied TaxonomyError.foreign_category
        else granted (approve rubric now c, approved_in rubric now c db)
  ]
]
