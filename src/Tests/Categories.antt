-- ===== src/Tests/Categories.antt =====
-- A category that is proposed and approved.
use civicbrain_v.Base.{List, [], ◌∷◌, true, some, none, ◌≡◌, refl}
use civicbrain_v.Text.{codes}
use civicbrain_v.Directory.Models.{StaffRole}
use civicbrain_v.Taxonomy.Rubric.{RubricLevel, severity_rubric, default_levels}
use civicbrain_v.Taxonomy.Categories.{
  Collation, TaxonomyCategory, CategoryStatus, TaxonomyDb, TaxonomyCategoryPropose, Ruling, granted,
  denied, public_list, list_categories, propose_category, approve_category,
}
use civicbrain_v.Taxonomy.Categories.Governance.{IsGoverned}
use civicbrain_v.Taxonomy.Categories.Public.{
  Step, Reachable, list_categories-public_list, Reachable-IsGoverned,
}

abbrev collation : Collation
collation = record { upper = λ s. s; by_code = λ cs. cs }

abbrev town : TaxonomyDb
town = record {
  organizations = 1 ∷ [];
  departments = record { id = 4; organization_id = 1; name = []; code = []; is_active = true } ∷ [];
  categories = [];
  cache = [];
}

abbrev potholes : TaxonomyCategoryPropose
potholes = record {
  organization_id = 1;
  department_id = 4;
  code = codes " POTHOLE";
  name = codes "Potholes";
  description = none;
  levels = none;
  buhlmann_k = 10000;
}

swapped : List RubricLevel → List RubricLevel
swapped (a ∷ b ∷ ls) = b ∷ a ∷ ls
swapped ls = ls

given_or : TaxonomyDb → Ruling (TaxonomyCategory × TaxonomyDb) → TaxonomyDb
given_or db (granted x) = x.1
given_or db (denied e) = db

with_proposal : TaxonomyDb
unfolding given_or propose_category severity_rubric
with_proposal = given_or town (propose_category collation 8 100 potholes town)

with_approval : TaxonomyDb
unfolding given_or with_proposal approve_category swapped
with_approval = given_or town (
    approve_category (some 1) 200 8 (swapped (default_levels (codes "Potholes"))) 10000
      with_proposal)

-- The proposal, a public list that is cached, the approval.
calls : Reachable collation town with_approval
unfolding with_approval list_categories
calls =
    Reachable.after
      (Reachable.after (Reachable.after Reachable.start (Step.proposes 8 100 potholes refl))
        (Step.lists none 1 none))
      (Step.approves (some 1) 200 8 (swapped (default_levels (codes "Potholes"))) 10000 refl)

list_categories-public_list_example :
    (list_categories collation
      (some (record { role = some StaffRole.admin; org_id = some 1 }))
      1
      (some CategoryStatus.proposed)
      with_approval).0
    ≡ public_list collation 1 with_approval
list_categories-public_list_example =
    list_categories-public_list collation town refl calls
      (some (record { role = some StaffRole.admin; org_id = some 1 })) 1
      (some CategoryStatus.proposed)

Reachable-IsGoverned_example : IsGoverned with_approval
Reachable-IsGoverned_example = Reachable-IsGoverned collation town tt calls
