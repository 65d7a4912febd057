-- ===== src/Taxonomy/Rubric/Complete.antt =====
-- About the rubrics that civicbrain/domain/intake/taxonomy.py accepts.
use mathlib.Core.Option.{some-injective}
use civicbrain_v.Base.{
  ℕ, zero, suc, ◌≤◌, ◌<◌, List, [], ◌∷◌, Bool, true, ◌&&◌, leb, ◌==◌, all, elem, length, none, some,
  ◌≡◌, refl, ◌∙◌, ap, arith, Bool-cases, inl, inr,
}
use civicbrain_v.Text.{Text}
use civicbrain_v.Taxonomy.Rubric.{
  RubricLevel, SeverityRubric, is_valid_level, tiers, levels_of, is_tier_set, insert_level,
  sort_levels, validate_levels_complete, severity_rubric, default_levels, create_default_rubric,
}

elem-insert_level :
    (n : ℕ) (l : RubricLevel) (ls : List RubricLevel)
    → elem n (levels_of (insert_level l ls)) ≡ elem n (levels_of (l ∷ ls))
unfolding insert_level
elem-insert_level n l [] = refl
elem-insert_level n l (m ∷ ms) = ground (arith, elem-insert_level n l ms)

elem-sort_levels :
    (n : ℕ) (ls : List RubricLevel) → elem n (levels_of (sort_levels ls)) ≡ elem n (levels_of ls)
unfolding sort_levels
elem-sort_levels n [] = refl
elem-sort_levels n (l ∷ ls) =
    elem-insert_level n l (sort_levels ls) ∙ rw (elem-sort_levels n ls) refl

length-insert_level :
    (l : RubricLevel) (ls : List RubricLevel) → length (insert_level l ls) ≡ suc (length ls)
unfolding insert_level
length-insert_level l [] = refl
length-insert_level l (m ∷ ms) = ground (arith, length-insert_level l ms)

length-sort_levels : (ls : List RubricLevel) → length (sort_levels ls) ≡ length ls
unfolding sort_levels
length-sort_levels [] = refl
length-sort_levels (l ∷ ls) =
    length-insert_level l (sort_levels ls) ∙ ap suc (length-sort_levels ls)

-- In ascending order from this level on.
abbrev is_ascending : ℕ → List RubricLevel → Bool
is_ascending n [] = true
is_ascending n (l ∷ ls) = leb n l.level && is_ascending l.level ls

insert_level-is_ascending :
    (n : ℕ) (l : RubricLevel) (ls : List RubricLevel)
    → is_ascending n ls ≡ true
    → n ≤ l.level
    → is_ascending n (insert_level l ls) ≡ true
unfolding insert_level
insert_level-is_ascending n l [] h k = ground arith
insert_level-is_ascending n l (m ∷ ms) h k = ground (arith, insert_level-is_ascending m.level l ms)

sort_levels-is_ascending : (ls : List RubricLevel) → is_ascending 0 (sort_levels ls) ≡ true
unfolding sort_levels
sort_levels-is_ascending [] = refl
sort_levels-is_ascending (l ∷ ls) =
    insert_level-is_ascending 0 l (sort_levels ls) (sort_levels-is_ascending ls) (omega arith)

-- What comes after a level in ascending order is not below it.
ascending_lower :
    (n m : ℕ) (ls : List RubricLevel)
    → is_ascending n ls ≡ true
    → elem m (levels_of ls) ≡ true
    → n ≤ m
ascending_lower n m [] h k = cc
ascending_lower n m (l ∷ ls) h k = ground (arith, ascending_lower l.level m ls)

-- Does the list have the `n` levels above `k`?
abbrev has_range : ℕ → ℕ → List RubricLevel → Bool
has_range k zero ls = true
has_range k (suc n) ls = elem (suc k) (levels_of ls) && has_range (suc k) n ls

abbrev range : ℕ → ℕ → List ℕ
range k zero = []
range k (suc n) = suc k ∷ range (suc k) n

has_range-tail :
    (k n : ℕ) (l : RubricLevel) (ls : List RubricLevel)
    → l.level ≤ k
    → has_range k n (l ∷ ls) ≡ true
    → has_range k n ls ≡ true
has_range-tail k zero l ls h e = refl
has_range-tail k (suc n) l ls h e = ground (arith, has_range-tail (suc k) n l ls)

-- An ascending list has no more consecutive levels than elements.
too_few :
    (m k n : ℕ) (ls : List RubricLevel)
    → is_ascending m ls ≡ true
    → has_range k n ls ≡ true
    → n ≤ length ls
too_few m k zero ls a h = omega arith
too_few m k (suc n) [] a h = cc
too_few m k (suc n) (l ∷ ls) a h =
    let below : elem (suc k) (levels_of (l ∷ ls)) ≡ true = ground arith in
    let least : l.level ≤ suc k = ascending_lower l.level (suc k) (l ∷ ls) (ground arith) below in
    let rest = has_range-tail (suc k) n l ls least (ground arith) in
    let more = too_few l.level (suc k) n ls (ground arith) rest in omega arith

-- With as many elements as levels, the list begins above `k`.
is_ascending-suc :
    (k n : ℕ) (ls : List RubricLevel)
    → is_ascending k ls ≡ true
    → has_range k n ls ≡ true
    → length ls ≡ n
    → is_ascending (suc k) ls ≡ true
is_ascending-suc k n [] a h e = refl
is_ascending-suc k n (l ∷ ls) a h e = elim (Bool-cases (l.level == k)) [
  | inl q ↦
      let low : l.level ≤ k = ground arith in
      let more = too_few l.level k n ls (ground arith) (has_range-tail k n l ls low h) in
      absurd (omega arith)
  | inr q ↦ ground arith
]

has_range-eq :
    (k n : ℕ) (ls : List RubricLevel)
    → is_ascending k ls ≡ true
    → has_range k n ls ≡ true
    → length ls ≡ n
    → levels_of ls ≡ range k n
has_range-eq k zero [] a h e = refl
has_range-eq k zero (l ∷ ls) a h e = absurd (omega arith)
has_range-eq k (suc n) [] a h e = absurd (omega arith)
has_range-eq k (suc n) (l ∷ ls) a h e =
    let above : k < l.level = ground (arith, is_ascending-suc k (suc n) (l ∷ ls) a h e) in
    let below : elem (suc k) (levels_of (l ∷ ls)) ≡ true = ground arith in
    let least = ascending_lower l.level (suc k) (l ∷ ls) (ground arith) below in
    let same : l.level ≡ suc k = omega arith in
    let rest = has_range-tail (suc k) n l ls (omega arith) (ground arith) in
    let up : is_ascending (suc k) ls ≡ true = ground arith in
    rw (same, has_range-eq (suc k) n ls up rest (omega arith)) refl

sort_levels-range :
    (ls : List RubricLevel)
    → length ls ≡ 5
    → is_tier_set (levels_of ls) ≡ true
    → levels_of (sort_levels ls) ≡ tiers
sort_levels-range ls five h =
    let held : has_range 0 5 (sort_levels ls) ≡ true =
      rw
        (
          elem-sort_levels 1 ls,
          elem-sort_levels 2 ls,
          elem-sort_levels 3 ls,
          elem-sort_levels 4 ls,
          elem-sort_levels 5 ls,
        )
        (ground arith) in
    has_range-eq 0 5 (sort_levels ls) (sort_levels-is_ascending ls) held
      (length-sort_levels ls ∙ five)

-- A rubric that is accepted has exactly the five tiers, each once and in this order, whatever the
-- order in which its levels were given.
pub severity_rubric-IsComplete :
    (levels : List RubricLevel) (k : ℕ) {r : SeverityRubric}
    → severity_rubric levels k ≡ some r
    → levels_of r.levels ≡ tiers
unfolding severity_rubric validate_levels_complete
severity_rubric-IsComplete levels k {r} h =
    elim (Bool-cases (all is_valid_level levels && length levels == 5 && leb 1000 k)) [
      | inr e ↦ let n : none ≡ some r = rw (severity_rubric, e) at h in cc
      | inl e ↦ elim (Bool-cases (is_tier_set (levels_of levels))) [
        | inr q ↦
            let n : none ≡ some r = rw (severity_rubric, e, validate_levels_complete, q) at h in cc
        | inl q ↦
            let made : some (record { levels = sort_levels levels; buhlmann_k = k }) ≡ some r =
              rw (severity_rubric, e, validate_levels_complete, q) at h in
            let five : length levels ≡ 5 = ground arith in
            rw (← some-injective (record { levels = sort_levels levels; buhlmann_k = k }) r made)
              (sort_levels-range levels five q)
      ]
    ]

default_levels-valid : (name : Text) → all is_valid_level (default_levels name) ≡ true
unfolding is_valid_level
default_levels-valid name = ground arith

-- Every name has a default rubric: the constraints and the validator accept it, and it has the five
-- tiers.
pub create_default_rubric_lem :
    (name : Text)
    → (r : SeverityRubric) × (create_default_rubric name ≡ some r) × (levels_of r.levels ≡ tiers)
unfolding create_default_rubric severity_rubric validate_levels_complete
create_default_rubric_lem name =
    let valid = default_levels-valid name in
    (
      record { levels = sort_levels (default_levels name); buhlmann_k = 10000 },
      rw (create_default_rubric, severity_rubric, valid) refl,
      sort_levels-range (default_levels name) refl refl,
    )
