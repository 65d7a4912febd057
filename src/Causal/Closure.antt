-- ===== src/Causal/Closure.antt =====
-- About the loops of civicbrain/domain/causal/graph.py: the nodes that a queue leads to.
use civicbrain_v.Base.{
  ℕ, zero, suc, ◌+◌, ◌≤◌, List, [], ◌∷◌, ◌++◌, Bool, true, false, not, ◌&&◌, ◌||◌, some, ◌==◌,
  select, elem, length, ◌≡◌, refl, sym, ◌∙◌, ap, arith, Bool-cases, inl, inr, subst, ==_iff,
}
use civicbrain_v.Causal.{Edge, Adjacency, symptoms_of, visit, collect, search}
use civicbrain_v.Causal.Search.{
  neighbours, has_edge, elem-neighbours, elem-append, elem-select_unseen, unseen, visit-measure,
}

-- Every edge from a visited node leads to a visited or a queued one.
abbrev IsFringed : List Edge → List ℕ → List ℕ → Type 0
IsFringed es q v =
    (x y : ℕ) → elem x v ≡ true → has_edge es x y ≡ true → (elem y v || elem y q) ≡ true

abbrev pub IsClosed : List Edge → (ℕ → Bool) → Type 0
IsClosed es p = (x y : ℕ) → p x ≡ true → has_edge es x y ≡ true → p y ≡ true

-- The nodes `vs` that the loop collects from a queue `q` and visited nodes `v`.
pub record IsCollected (es : List Edge) (q v vs : List ℕ) : Type 0 where
  pub seen : (x : ℕ) → elem x v ≡ true → elem x vs ≡ true
  pub queued : (x : ℕ) → elem x q ≡ true → elem x vs ≡ true
  pub closed : IsFringed es q v → IsClosed es (λ x. elem x vs)

-- A property of the queued and the visited nodes that every edge hands on holds of all that is
-- collected.
abbrev pub IsLeast : List Edge → List ℕ → List ℕ → List ℕ → Type 1
IsLeast es q v vs =
    (P : ℕ → Type 0)
    → ((x y : ℕ) → P x → has_edge es x y ≡ true → P y)
    → ((x : ℕ) → elem x v ≡ true → P x)
    → ((x : ℕ) → elem x q ≡ true → P x)
    → (x : ℕ) → elem x vs ≡ true
    → P x

module _ (es : List Edge) (adj : Adjacency)
    (same : (x : ℕ) → symptoms_of x adj ≡ neighbours x es) where
  abbrev news : ℕ → List ℕ → List ℕ
  news c v = select (λ n. not (elem n (c ∷ v))) (symptoms_of c adj)

  elem-news : (c y : ℕ) (v : List ℕ) → elem y (news c v) ≡ (not (elem y (c ∷ v)) && has_edge es c y)
  elem-news c y v =
      elem-select_unseen y (c ∷ v) (symptoms_of c adj)
      ∙ ap (λ (l : List ℕ). not (elem y (c ∷ v)) && elem y l) (same c)
      ∙ ap (λ b. not (elem y (c ∷ v)) && b) (elem-neighbours c y es)

  skip-IsCollected :
      (c : ℕ) (q v vs : List ℕ)
      → elem c v ≡ true
      → IsCollected es q v vs
      → IsCollected es (c ∷ q) v vs
  skip-IsCollected c q v vs h k = record {
    seen = k.seen;
    queued = λ x e. elim (Bool-cases (c == x)) [
      | inl s ↦ k.seen x (subst (λ a. elem a v ≡ true) ((==_iff c x).0 s) h)
      | inr s ↦ k.queued x (ground arith)
    ];
    closed = λ fringe. k.closed (λ x y a b.
        let f = fringe x y a b in
        elim (Bool-cases (c == y)) [
          | inl s ↦
              let d : elem y v ≡ true = subst (λ a. elem a v ≡ true) ((==_iff c y).0 s) h in
              ground arith
          | inr s ↦ ground arith
        ]);
  }

  step-IsCollected :
      (c : ℕ) (q v vs : List ℕ)
      → IsCollected es (q ++ news c v) (c ∷ v) vs
      → IsCollected es (c ∷ q) v vs
  step-IsCollected c q v vs k = record {
    seen = λ x e. k.seen x (ground arith);
    queued = λ x e. elim (Bool-cases (c == x)) [
      | inl s ↦ k.seen x (ground arith)
      | inr s ↦ k.queued x (elem-append x q (news c v) ∙ ground arith)
    ];
    closed = λ fringe. k.closed (λ x y a b.
        let split = elem-append y q (news c v) in
        let new = elem-news c y v in
        elim (Bool-cases (c == x)) [
          | inl s ↦
              let d : has_edge es c y ≡ true =
                subst (λ a. has_edge es a y ≡ true) (sym ((==_iff c x).0 s)) b in
              ground arith
          | inr s ↦ let f = fringe x y (ground arith) b in ground arith
        ]);
  }

  step-IsLeast :
      (c : ℕ) (q v vs : List ℕ) → IsLeast es (q ++ news c v) (c ∷ v) vs → IsLeast es (c ∷ q) v vs
  step-IsLeast c q v vs k P hands pv pq =
      let pc : P c = pq c (ground arith) in
      k P hands
        (λ x e. elim (Bool-cases (c == x)) [
          | inl s ↦ subst P ((==_iff c x).0 s) pc
          | inr s ↦ pv x (ground arith)
        ])
        (λ x e. elim (Bool-cases (elem x q)) [
          | inl s ↦ pq x (ground arith)
          | inr s ↦
              let split = elem-append x q (news c v) in
              let new = elem-news c x v in hands c x pc (ground arith)
        ])

  visit-IsCollected :
      (c : ℕ) (q v vs : List ℕ)
      → IsCollected es (visit adj c q v).0 (visit adj c q v).1 vs
      → IsCollected es (c ∷ q) v vs
  unfolding visit
  visit-IsCollected c q v vs = elim (Bool-cases (elem c v)) [
    | inl h ↦ rw h (skip-IsCollected c q v vs h)
    | inr h ↦ rw h (step-IsCollected c q v vs)
  ]

  visit-IsLeast :
      (c : ℕ) (q v vs : List ℕ)
      → IsLeast es (visit adj c q v).0 (visit adj c q v).1 vs
      → IsLeast es (c ∷ q) v vs
  unfolding visit
  visit-IsLeast c q v vs = elim (Bool-cases (elem c v)) [
    | inl h ↦ rw h (λ k P hands pv pq. k P hands pv (λ x e. pq x (ground arith)))
    | inr h ↦ rw h (step-IsLeast c q v vs)
  ]

  visit-other :
      (c root : ℕ) (q v : List ℕ)
      → (c == root) ≡ false
      → elem root v ≡ false
      → elem root (visit adj c q v).1 ≡ false
  unfolding visit
  visit-other c root q v ne h = elim (Bool-cases (elem c v)) [
    | inl e ↦ rw e h
    | inr e ↦ rw e (rw ne h)
  ]

  -- What the two loops give, from a queue and visited nodes.
  abbrev Run : ℕ → List ℕ → List ℕ → Type 1
  Run n q v =
      (vs : List ℕ) × (collect n adj q v ≡ some vs)
      × IsCollected es q v vs
      × IsLeast es q v vs
      × ((root : ℕ) → elem root v ≡ false → search n adj root q v ≡ some (elem root vs))

  nothing-IsCollected : (v : List ℕ) → IsCollected es [] v v
  nothing-IsCollected v = record {
    seen = λ x e. e;
    queued = λ x e. cc;
    closed = λ fringe x y a b. let f = fringe x y a b in ground arith;
  }

  -- With fuel for the queue and for the edges of the nodes that are not visited, the loops end: the
  -- one has collected the least closed set, the other tells whether the root is in it.
  pub run : (n : ℕ) (q v : List ℕ) → length q + unseen v es ≤ n → Run n q v
  unfolding collect search
  run zero [] v h =
      (v, refl, nothing-IsCollected v, (λ P hands pv pq. pv), (λ root e. ap some (sym e)))
  run zero (c ∷ q) v h = absurd (omega arith)
  run (suc n) [] v h =
      (v, refl, nothing-IsCollected v, (λ P hands pv pq. pv), (λ root e. ap some (sym e)))
  run (suc n) (c ∷ q) v h =
      let m = visit-measure adj es same c q v in
      let (vs, eq, k, l, s) = run n (visit adj c q v).0 (visit adj c q v).1 (omega arith) in
      let all_in = visit-IsCollected c q v vs k in
      (
        vs,
        eq,
        all_in,
        visit-IsLeast c q v vs l,
        (λ root e. elim (Bool-cases (c == root)) [
          | inl t ↦ rw t (ap some (sym (all_in.queued root (rw t refl))))
          | inr t ↦ rw t (s root (visit-other c root q v t e))
        ]),
      )
