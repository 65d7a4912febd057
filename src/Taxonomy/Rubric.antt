-- ===== src/Taxonomy/Rubric.antt =====
-- RubricLevel, SeverityRubric and create_default_rubric of civicbrain/domain/intake/taxonomy.py.
pub mod Complete
use civicbrain_v.Base.{
  ℕ, ◌*◌, List, [], ◌∷◌, ◌++◌, Bool, ◌&&◌, leb, ◌==◌, if◌then◌else◌, all, map, elem, length, Option,
  none, some,
}
use civicbrain_v.Text.{Text, codes}

-- A score is a `float` in thousandths.
pub record RubricLevel : Type 0 where
  pub level : ℕ
  pub criteria : Text
  pub baseline_score : ℕ

pub record SeverityRubric : Type 0 where
  pub levels : List RubricLevel
  pub buhlmann_k : ℕ

-- The constraints of the fields of `RubricLevel`.
unfoldable pub is_valid_level : RubricLevel → Bool
is_valid_level l =
    leb 1 l.level
    && leb l.level 5
    && leb 10 (length l.criteria)
    && leb 1000 l.baseline_score
    && leb l.baseline_score 5000

abbrev pub tiers : List ℕ
tiers = 1 ∷ 2 ∷ 3 ∷ 4 ∷ 5 ∷ []

abbrev pub levels_of : List RubricLevel → List ℕ
levels_of = map (λ (l : RubricLevel). l.level)

-- `tier_set == {1, 2, 3, 4, 5}`
abbrev pub is_tier_set : List ℕ → Bool
is_tier_set ns = all (λ n. elem n tiers) ns && all (λ t. elem t ns) tiers

-- `sorted(levels, key=lambda x: x.level)`, which keeps the order of equal levels.
unfoldable pub insert_level : RubricLevel → List RubricLevel → List RubricLevel
insert_level l [] = l ∷ []
insert_level l (m ∷ ms) =
    let rest = insert_level l ms in if leb l.level m.level then l ∷ m ∷ ms else m ∷ rest

unfoldable pub sort_levels : List RubricLevel → List RubricLevel
unfolding insert_level
sort_levels [] = []
sort_levels (l ∷ ls) = insert_level l (sort_levels ls)

-- `validate_levels_complete`; `none` is the ValueError.
unfoldable pub validate_levels_complete : List RubricLevel → Option (List RubricLevel)
unfolding sort_levels
validate_levels_complete levels =
    if is_tier_set (levels_of levels) then some (sort_levels levels) else none

-- The construction of a rubric: the constraints of the fields, and then the validator.
unfoldable pub severity_rubric : List RubricLevel → ℕ → Option SeverityRubric
unfolding validate_levels_complete is_valid_level
severity_rubric levels k =
    if all is_valid_level levels && length levels == 5 && leb 1000 k
    then elim (validate_levels_complete levels) [
      | none ↦ none
      | some sorted ↦ some (record { levels = sorted; buhlmann_k = k })
    ]
    else none

abbrev rubric_level : ℕ → Text → RubricLevel
rubric_level n criteria = record { level = n; criteria = criteria; baseline_score = n * 1000 }

-- The levels that `create_default_rubric` writes for a category's name.
abbrev pub default_levels : Text → List RubricLevel
default_levels name =
    rubric_level 1
      (codes "Minor cosmetic or superficial issue with " ++ name ++ codes "; no safety impact.")
    ∷ rubric_level 2
        (codes "Noticeable defect in " ++ name ++ codes "; slight inconvenience, minimal hazard.")
    ∷ rubric_level 3
        (codes "Moderate impairment of " ++ name ++ codes "; impedes normal usage or civic flow.")
    ∷ rubric_level 4 (
        codes "Severe degradation of "
        ++ name
        ++ codes "; active risk to public health or mobility.")
    ∷ rubric_level 5 (
        codes "Critical emergency or failure of "
        ++ name
        ++ codes "; immediate danger to life/property.")
    ∷ []

unfoldable pub create_default_rubric : Text → Option SeverityRubric
unfolding severity_rubric
create_default_rubric name = severity_rubric (default_levels name) 10000
