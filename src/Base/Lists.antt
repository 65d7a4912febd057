-- ===== src/Base/Lists.antt =====
-- Lists under Boolean tests: the queries and updates that a table needs, and their laws.
use Prim.Native.Nat.{ℕ, suc}
use mathlib.Core.Path.{◌≡◌, refl}
use mathlib.Core.Logic.{inl, inr}
use mathlib.Core.Bool.{Bool, true, false, ◌||◌, ◌&&◌, not}
use mathlib.Core.Option.{Option, none, some}
use mathlib.Core.List.{List, [], ◌∷◌, Memᴰ}
use native.Mathlib.Omega.{arith}
use civicbrain_v.Base.Tests.{if◌then◌else◌, ◌==◌, Bool-cases}

module _ {ℓ} {A : Type ℓ} where
  abbrev pub length : List A → ℕ
  length [] = 0
  length (x ∷ xs) = suc (length xs)

  -- The first element that passes a test.
  abbrev pub find : (A → Bool) → List A → Option A
  find p [] = none
  find p (x ∷ xs) = if p x then some x else find p xs

  -- `[x for x in xs if p x]`
  abbrev pub select : (A → Bool) → List A → List A
  select p [] = []
  select p (x ∷ xs) = let rest = select p xs in if p x then x ∷ rest else rest

  -- `any(p x for x in xs)`
  abbrev pub any : (A → Bool) → List A → Bool
  any p [] = false
  any p (x ∷ xs) = p x || any p xs

  -- `all(p x for x in xs)`
  abbrev pub all : (A → Bool) → List A → Bool
  all p [] = true
  all p (x ∷ xs) = p x && all p xs

  -- Assigns to the fields of each element that passes a test.
  abbrev pub modify : (A → Bool) → (A → A) → List A → List A
  modify p f [] = []
  modify p f (x ∷ xs) = (if p x then f x else x) ∷ modify p f xs

  -- Assigns to the fields of the first element that passes a test, the one that `find` gives.
  abbrev pub modify_first : (A → Bool) → (A → A) → List A → List A
  modify_first p f [] = []
  modify_first p f (x ∷ xs) = let rest = modify_first p f xs in if p x then f x ∷ xs else x ∷ rest

  -- A predicate at every element.
  abbrev pub All {κ} : (A → Type κ) → List A → Type κ
  All P [] = Unit
  All P (x ∷ xs) = P x × All P xs

  pub any-exists :
      (p : A → Bool) (xs : List A) → any p xs ≡ true → (a : A) × Memᴰ a xs × (p a ≡ true)
  any-exists p [] h = cc
  any-exists p (x ∷ xs) h = elim (Bool-cases (p x)) [
    | inl e ↦ (x, Memᴰ.head refl, e)
    | inr e ↦ let (a, m, q) = any-exists p xs (ground arith) in (a, Memᴰ.tail m, q)
  ]

  pub any-mem : (p : A → Bool) {a : A} {xs : List A} → Memᴰ a xs → p a ≡ true → any p xs ≡ true
  any-mem p (Memᴰ.head e) h = rw (← e, h)
  any-mem p (Memᴰ.tail {x} m) h = ground (arith, any-mem p m h)

abbrev pub elem : ℕ → List ℕ → Bool
elem a = any (λ x. x == a)

-- `set(xs)` as a list, first occurrences kept.
unfoldable pub distinct : List ℕ → List ℕ
distinct [] = []
distinct (x ∷ xs) = x ∷ select (λ y. not (y == x)) (distinct xs)

elem-select_ne :
    (a b : ℕ) (xs : List ℕ) → elem a (select (λ y. not (y == b)) xs) ≡ (not (a == b) && elem a xs)
elem-select_ne a b [] = ground arith
elem-select_ne a b (x ∷ xs) = ground (arith, elem-select_ne a b xs)

pub elem-distinct : (a : ℕ) (xs : List ℕ) → elem a (distinct xs) ≡ elem a xs
unfolding distinct
elem-distinct a [] = refl
elem-distinct a (x ∷ xs) = ground (arith, elem-select_ne a x (distinct xs), elem-distinct a xs)
