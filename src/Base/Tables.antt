-- ===== src/Base/Tables.antt =====
-- Laws of the queries and updates of a table: a list of rows with a numeric key.
use Prim.Native.Nat.{ℕ}
use mathlib.Core.Path.{◌≡◌, refl, subst}
use mathlib.Core.Logic.{◌≢◌, inl, inr}
use mathlib.Core.Bool.{Bool, true, ◌&&◌, ◌||◌}
use mathlib.Core.Option.{Option, none, some, some-injective}
use mathlib.Core.List.{List, [], ◌∷◌, ◌++◌, map}
use native.Mathlib.Omega.{arith}
use civicbrain_v.Base.Tests.{◌==◌, Bool-cases}
use civicbrain_v.Base.Lists.{find, select, any, all, modify, modify_first, All}

module _ {ℓ} {A : Type ℓ} where
  abbrev pub map_some : (A → A) → Option A → Option A
  map_some f none = none
  map_some f (some x) = some (f x)

  pub any-append : (p : A → Bool) (xs ys : List A) → any p (xs ++ ys) ≡ (any p xs || any p ys)
  any-append p [] ys = refl
  any-append p (x ∷ xs) ys = ground (arith, any-append p xs ys)

  pub all-append : (p : A → Bool) (xs ys : List A) → all p (xs ++ ys) ≡ (all p xs && all p ys)
  all-append p [] ys = refl
  all-append p (x ∷ xs) ys = ground (arith, all-append p xs ys)

  pub any-select : (p q : A → Bool) (xs : List A) → any q (select p xs) ≡ any (λ x. p x && q x) xs
  any-select p q [] = refl
  any-select p q (x ∷ xs) = ground (arith, any-select p q xs)

  pub any-map {κ} :
      {B : Type κ} (q : B → Bool) (f : A → B) (xs : List A)
      → any q (map f xs) ≡ any (λ x. q (f x)) xs
  any-map q f [] = refl
  any-map q f (x ∷ xs) = ground (arith, any-map q f xs)

  pub map-append {κ} :
      {B : Type κ} (f : A → B) (xs ys : List A) → map f (xs ++ ys) ≡ map f xs ++ map f ys
  map-append f [] ys = refl
  map-append f (x ∷ xs) ys = rw (map-append f xs ys) refl

  pub modify-eq_of_find-none :
      (p : A → Bool) (f : A → A) (xs : List A) → find p xs ≡ none → modify p f xs ≡ xs
  modify-eq_of_find-none p f [] h = refl
  modify-eq_of_find-none p f (x ∷ xs) h = ground (arith, modify-eq_of_find-none p f xs)

  pub find-append_some :
      (p : A → Bool) {x : A} (xs ys : List A) → find p xs ≡ some x → find p (xs ++ ys) ≡ some x
  find-append_some p [] ys h = cc
  find-append_some p {x = y} (x ∷ xs) ys h = ground (arith, find-append_some p {x = y} xs ys)

  pub find-append_none :
      (p : A → Bool) (xs ys : List A) → find p xs ≡ none → find p (xs ++ ys) ≡ find p ys
  find-append_none p [] ys h = refl
  find-append_none p (x ∷ xs) ys h = ground (arith, find-append_none p xs ys)

  pub select-append :
      (p : A → Bool) (xs ys : List A) → select p (xs ++ ys) ≡ select p xs ++ select p ys
  select-append p [] ys = refl
  select-append p (x ∷ xs) ys = ground (arith, select-append p xs ys)

module _ {ℓ κ} {A : Type ℓ} (P : A → Type κ) where
  pub All-modify :
      (p : A → Bool) (f : A → A)
      → ((x : A) → P x → p x ≡ true → P (f x))
      → (xs : List A) → All P xs
      → All P (modify p f xs)
  All-modify p f keep [] h = tt
  All-modify p f keep (x ∷ xs) (h, hs) = elim (Bool-cases (p x)) [
    | inl e ↦ rw e (keep x h e, All-modify p f keep xs hs)
    | inr e ↦ rw e (h, All-modify p f keep xs hs)
  ]

  pub All-modify_first :
      (p : A → Bool) (f : A → A) (xs : List A)
      → ((x : A) → P x → find p xs ≡ some x → P (f x))
      → All P xs
      → All P (modify_first p f xs)
  All-modify_first p f [] keep h = tt
  All-modify_first p f (x ∷ xs) keep (h, hs) = elim (Bool-cases (p x)) [
    | inl e ↦ rw e (keep x h (rw e), hs)
    | inr e ↦ rw e (h, All-modify_first p f xs (λ y k q. keep y k (rw e q)) hs)
  ]

  pub All-append : (xs ys : List A) → All P xs → All P ys → All P (xs ++ ys)
  All-append [] ys h k = k
  All-append (x ∷ xs) ys (h, hs) k = (h, All-append xs ys hs k)

  pub All-find : (p : A → Bool) {x : A} (xs : List A) → All P xs → find p xs ≡ some x → P x
  All-find p [] h e = cc
  All-find p {x} (y ∷ ys) (h, hs) e = elim (Bool-cases (p y)) [
    | inl q ↦ subst_head (rw q at e) h
    | inr q ↦ All-find p ys hs (rw q at e)
  ]
    where
      subst_head : some y ≡ some x → P y → P x
      subst_head q u = subst P (some-injective y x q) u

pub All-map {ℓ κ} :
    {A : Type ℓ} (P Q : A → Type κ) → ((x : A) → P x → Q x) → (xs : List A) → All P xs → All Q xs
All-map P Q f [] h = tt
All-map P Q f (x ∷ xs) (h, hs) = (f x h, All-map P Q f xs hs)

pub All-map₂ {ℓ κ μ ν} :
    {A : Type ℓ} (P : A → Type κ) (Q : A → Type μ) (R : A → Type ν)
    → ((x : A) → P x → Q x → R x)
    → (xs : List A) → All P xs
    → All Q xs
    → All R xs
All-map₂ P Q R f [] h k = tt
All-map₂ P Q R f (x ∷ xs) (h, hs) (k, ks) = (f x h k, All-map₂ P Q R f xs hs ks)

module _ {ℓ} {A : Type ℓ} (key : A → ℕ) (f : A → A) (same : (x : A) → key (f x) ≡ key x) where
  pub find-modify_first_self :
      (k : ℕ) (xs : List A)
      → find (λ x. key x == k) (modify_first (λ x. key x == k) f xs)
        ≡ map_some f (find (λ x. key x == k) xs)
  find-modify_first_self k [] = refl
  find-modify_first_self k (x ∷ xs) = ground (arith, same x, find-modify_first_self k xs)

  pub find-modify_first_ne :
      (j k : ℕ) (xs : List A)
      → j ≢ k
      → find (λ x. key x == j) (modify_first (λ x. key x == k) f xs) ≡ find (λ x. key x == j) xs
  find-modify_first_ne j k [] h = refl
  find-modify_first_ne j k (x ∷ xs) h = ground (arith, same x, find-modify_first_ne j k xs h)

  pub find-modify_self :
      (k : ℕ) (xs : List A)
      → find (λ x. key x == k) (modify (λ x. key x == k) f xs)
        ≡ map_some f (find (λ x. key x == k) xs)
  find-modify_self k [] = refl
  find-modify_self k (x ∷ xs) = ground (arith, same x, find-modify_self k xs)

  pub find-modify_ne :
      (j k : ℕ) (xs : List A)
      → j ≢ k
      → find (λ x. key x == j) (modify (λ x. key x == k) f xs) ≡ find (λ x. key x == j) xs
  find-modify_ne j k [] h = refl
  find-modify_ne j k (x ∷ xs) h = ground (arith, same x, find-modify_ne j k xs h)

pub find-key {ℓ} :
    {A : Type ℓ} (p : A → Bool) {x : A} (xs : List A) → find p xs ≡ some x → p x ≡ true
find-key p [] h = cc
find-key p {x} (y ∷ ys) h = ground (arith, find-key p {x = x} ys)
