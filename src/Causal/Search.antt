-- ===== src/Causal/Search.antt =====
-- About the dictionary of edges in civicbrain/domain/causal/graph.py, and the fuel that a loop needs.
use civicbrain_v.Base.{
  ℕ, ◌+◌, ◌≤◌, List, [], ◌∷◌, ◌++◌, map, Bool, true, false, not, ◌&&◌, ◌||◌, ◌==◌, any, select,
  elem, length, ◌≡◌, refl, sym, ◌∙◌, ap, arith, Bool-cases, inl, inr,
}
use civicbrain_v.Causal.{Edge, Adjacency, link, build, symptoms_of, visit}

-- The symptoms that the edges name for a root.
abbrev pub neighbours : ℕ → List Edge → List ℕ
neighbours x edges = map (λ e. e.1) (select (λ e. e.0 == x) edges)

abbrev pub has_edge : List Edge → ℕ → ℕ → Bool
has_edge edges x y = any (λ e. e.0 == x && e.1 == y) edges

append_assoc : (xs ys zs : List ℕ) → (xs ++ ys) ++ zs ≡ xs ++ (ys ++ zs)
append_assoc [] ys zs = refl
append_assoc (x ∷ xs) ys zs = ap (λ (l : List ℕ). x ∷ l) (append_assoc xs ys zs)

append_nil : (xs : List ℕ) → xs ++ [] ≡ xs
append_nil [] = refl
append_nil (x ∷ xs) = ap (λ (l : List ℕ). x ∷ l) (append_nil xs)

symptoms_of-link :
    (x r s : ℕ) (adj : Adjacency)
    → symptoms_of x (link r s adj) ≡ symptoms_of x adj ++ neighbours x ((r, s) ∷ [])
unfolding symptoms_of link
symptoms_of-link x r s [] = ground arith
symptoms_of-link x r s ((k, ss) ∷ adj) = elim (Bool-cases (k == r)) [
  | inl e ↦ elim (Bool-cases (k == x)) [
    | inl h ↦ let same : (r == x) ≡ true = ground arith in rw (e, h, same) refl
    | inr h ↦
        let apart : (r == x) ≡ false = ground arith in
        rw (e, h, apart) (sym (append_nil (symptoms_of x adj)))
  ]
  | inr e ↦ elim (Bool-cases (k == x)) [
    | inl h ↦ let apart : (r == x) ≡ false = ground arith in rw (e, h, apart) (sym (append_nil ss))
    | inr h ↦ rw (e, h) (symptoms_of-link x r s adj)
  ]
]

neighbours-cons :
    (x : ℕ) (e : Edge) (es : List Edge)
    → neighbours x (e ∷ es) ≡ neighbours x (e ∷ []) ++ neighbours x es
neighbours-cons x e es = elim (Bool-cases (e.0 == x)) [ inl q ↦ rw q refl | inr q ↦ rw q refl ]

symptoms_of-build_from :
    (x : ℕ) (adj : Adjacency) (es : List Edge)
    → symptoms_of x (build adj es) ≡ symptoms_of x adj ++ neighbours x es
unfolding build
symptoms_of-build_from x adj [] = sym (append_nil (symptoms_of x adj))
symptoms_of-build_from x adj ((r, s) ∷ es) =
    symptoms_of-build_from x (link r s adj) es
    ∙ ap (λ (l : List ℕ). l ++ neighbours x es) (symptoms_of-link x r s adj)
    ∙ append_assoc (symptoms_of x adj) (neighbours x ((r, s) ∷ [])) (neighbours x es)
    ∙ ap (λ (l : List ℕ). symptoms_of x adj ++ l) (sym (neighbours-cons x (r, s) es))

-- The dictionary gives for each node the symptoms that its edges name, in their order.
pub symptoms_of-build : (x : ℕ) (es : List Edge) → symptoms_of x (build [] es) ≡ neighbours x es
unfolding symptoms_of
symptoms_of-build x es = symptoms_of-build_from x [] es

pub elem-neighbours : (x y : ℕ) (es : List Edge) → elem y (neighbours x es) ≡ has_edge es x y
elem-neighbours x y [] = refl
elem-neighbours x y (e ∷ es) = ground (arith, elem-neighbours x y es)

pub elem-append : (x : ℕ) (xs ys : List ℕ) → elem x (xs ++ ys) ≡ (elem x xs || elem x ys)
elem-append x [] ys = refl
elem-append x (z ∷ xs) ys = ground (arith, elem-append x xs ys)

pub elem-select_unseen :
    (x : ℕ) (v xs : List ℕ)
    → elem x (select (λ n. not (elem n v)) xs) ≡ (not (elem x v) && elem x xs)
elem-select_unseen x v [] = ground arith
elem-select_unseen x v (z ∷ xs) = ground (arith, elem-select_unseen x v xs)

length-append : (xs ys : List ℕ) → length (xs ++ ys) ≡ length xs + length ys
length-append [] ys = omega arith
length-append (x ∷ xs) ys = ground (arith, length-append xs ys)

length-select_le : (p : ℕ → Bool) (xs : List ℕ) → length (select p xs) ≤ length xs
length-select_le p [] = ground arith
length-select_le p (x ∷ xs) = ground (arith, length-select_le p xs)

-- The edges whose root has not been visited.
abbrev pub unseen : List ℕ → List Edge → ℕ
unseen v es = length (select (λ e. not (elem e.0 v)) es)

-- A visit takes the edges of its node off the rest.
unseen-visit :
    (c : ℕ) (v : List ℕ) (es : List Edge)
    → elem c v ≡ false
    → unseen (c ∷ v) es + length (neighbours c es) ≡ unseen v es
unseen-visit c v [] h = refl
unseen-visit c v (e ∷ es) h = ground (arith, unseen-visit c v es h)

pub unseen_le : (v : List ℕ) (es : List Edge) → unseen v es ≤ length es
unseen_le v [] = ground arith
unseen_le v (e ∷ es) = ground (arith, unseen_le v es)

pub length-neighbours_le : (x : ℕ) (es : List Edge) → length (neighbours x es) ≤ length es
length-neighbours_le x [] = ground arith
length-neighbours_le x (e ∷ es) = ground (arith, length-neighbours_le x es)

-- A round shortens the queue and the unvisited edges together by at least one.
pub visit-measure :
    (adj : Adjacency) (es : List Edge)
    → ((x : ℕ) → symptoms_of x adj ≡ neighbours x es)
    → (c : ℕ) (q v : List ℕ)
    → length (visit adj c q v).0 + unseen (visit adj c q v).1 es ≤ length q + unseen v es
unfolding visit
visit-measure adj es same c q v = elim (Bool-cases (elem c v)) [
  | inl h ↦ rw h (omega arith)
  | inr h ↦ rw h (
      let new = select (λ n. not (elem n (c ∷ v))) (symptoms_of c adj) in
      let a = length-append q new in
      let b = length-select_le (λ n. not (elem n (c ∷ v))) (symptoms_of c adj) in
      let d = unseen-visit c v es h in
      let e : length (symptoms_of c adj) ≡ length (neighbours c es) =
        ap (λ (l : List ℕ). length l) (same c) in
      omega arith)
]
