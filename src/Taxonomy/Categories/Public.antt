-- ===== src/Taxonomy/Categories/Public.antt =====
-- About the public list of categories and its cache, civicbrain/api/v1/taxonomy.py, along the calls
-- of its endpoints.
use civicbrain_v.Base.{
  ℕ, List, [], ◌∷◌, Bool, true, false, not, ◌==◌, find, select, All, All-map, All-append,
  All-modify_first, All-find, find-key, Option, none, some, ◌≡◌, refl, sym, ◌∙◌, ap, subst,
  Bool-cases, Option-cases, inl, inr, arith,
}
use civicbrain_v.Directory.Models.{StaffRole}
use civicbrain_v.Taxonomy.Rubric.{RubricLevel, SeverityRubric, levels_of}
use civicbrain_v.Taxonomy.Categories.{
  Collation, TaxonomyCategory, CategoryStatus, TaxonomyDb, OptionalClaims, granted,
  TaxonomyCategoryPropose, sees_all, public_list, cached, uncache, store, list_public,
  list_categories, propose_category, approve, approved_in, approve_category,
}
use civicbrain_v.Taxonomy.Categories.Governance.{
  IsComplete, IsGoverned, propose_category-IsProposed, approve_category-IsApproved,
}
use civicbrain_v.Taxonomy.Categories.Unlisted.{proposed_list, approved_list}

module _ (co : Collation) where
  -- One call of an endpoint, or the end of the life of a cached list.
  pub data Step (db : TaxonomyDb) : TaxonomyDb → Type 0 where
    lists :
        (claims : Option OptionalClaims) (org : ℕ) (status : Option CategoryStatus)
        → Step db (list_categories co claims org status db).1
    proposes :
        (id now : ℕ) (p : TaxonomyCategoryPropose) {c : TaxonomyCategory} {db' : TaxonomyDb}
        → propose_category co id now p db ≡ granted (c, db')
        → Step db db'
    approves :
        (own : Option ℕ) (now id : ℕ) (levels : List RubricLevel) (k : ℕ) {c : TaxonomyCategory}
        {db' : TaxonomyDb}
        → approve_category own now id levels k db ≡ granted (c, db')
        → Step db db'
    expires : (org : ℕ) → Step db (record db { cache = uncache org db.cache })

  -- Any number of them, one after the other.
  pub data Reachable (db : TaxonomyDb) : TaxonomyDb → Type 0 where
    start : Reachable db db
    after : {db1 db2 : TaxonomyDb} → Reachable db db1 → Step db1 db2 → Reachable db db2

  -- Every cached list is what the database has.
  abbrev IsFresh : TaxonomyDb → Type 0
  IsFresh db = All (λ (e : ℕ × List TaxonomyCategory). e.1 ≡ public_list co e.0 db) db.cache

-- No one is an administrator to `list_categories`: a staff role is never "authenticated".
sees_all_never : (claims : Option OptionalClaims) (org : ℕ) → sees_all claims org ≡ false
unfolding sees_all
sees_all_never none org = refl
sees_all_never (some c) org = roles c.role c.org_id
  where
    roles :
        (r : Option StaffRole) (o : Option ℕ)
        → sees_all (some (record { role = r; org_id = o })) org ≡ false
    roles none o = refl
    roles (some StaffRole.admin) o = refl
    roles (some StaffRole.dispatcher) o = refl
    roles (some StaffRole.department_staff) o = refl
    roles (some StaffRole.zonal_supervisor) o = refl
    roles (some StaffRole.field_worker) o = refl
    roles (some StaffRole.corporator) o = refl

module _ {A : Type 0} (P : A → Type 0) where
  All-select : (q : A → Bool) (xs : List A) → All P xs → All P (select q xs)
  All-select q [] h = tt
  All-select q (x ∷ xs) (h, hs) = elim (Bool-cases (q x)) [
    | inl e ↦ rw e (h, All-select q xs hs)
    | inr e ↦ rw e (All-select q xs hs)
  ]

module _ (co : Collation) (db : TaxonomyDb) where
  -- The answer of the public list and the state after it.
  list_public-IsFresh :
      (org : ℕ)
      → IsFresh co db
      → ((list_public co org db).0 ≡ public_list co org db) × IsFresh co (list_public co org db).1
  unfolding list_public
  list_public-IsFresh org fresh =
      elim (Option-cases (find (λ (e : ℕ × List TaxonomyCategory). e.0 == org) db.cache)) [
        | inl q ↦
            rw (list_public, q) (refl, (refl, All-select _ (λ e. not (e.0 == org)) db.cache fresh))
        | inr (e, q) ↦
            let held =
              All-find (λ (e : ℕ × List TaxonomyCategory). e.1 ≡ public_list co e.0 db)
                (λ e. e.0 == org) db.cache fresh q in
            let key : (e.0 == org) ≡ true =
              find-key (λ (e : ℕ × List TaxonomyCategory). e.0 == org) db.cache q in
            let same : e.0 ≡ org = ground arith in
            rw (list_public, q) (held ∙ ap (λ o. public_list co o db) same, fresh)
      ]

  list_categories-IsFresh :
      (claims : Option OptionalClaims) (org : ℕ) (status : Option CategoryStatus)
      → IsFresh co db
      → ((list_categories co claims org status db).0 ≡ public_list co org db)
        × IsFresh co (list_categories co claims org status db).1
  unfolding list_categories
  list_categories-IsFresh claims org none fresh =
      rw (list_categories, sees_all_never claims org) (list_public-IsFresh org fresh)
  list_categories-IsFresh claims org (some s) fresh =
      rw (list_categories, sees_all_never claims org) (refl, fresh)

module _ (co : Collation) (db : TaxonomyDb) where
  list_categories-categories :
      (claims : Option OptionalClaims) (org : ℕ) (status : Option CategoryStatus)
      → (list_categories co claims org status db).1.categories ≡ db.categories
  unfolding list_categories list_public
  list_categories-categories claims org none =
      rw (list_categories, sees_all_never claims org) (kept (cached org db))
    where
      kept :
          (o : Option (List TaxonomyCategory))
          → (elim o as (λ _. List TaxonomyCategory × TaxonomyDb) [
            | some cs ↦ (cs, db)
            | none ↦ (public_list co org db, store org (public_list co org db) db)
          ]).1.categories
            ≡ db.categories
      kept none = refl
      kept (some cs) = refl
  list_categories-categories claims org (some s) =
      rw (list_categories, sees_all_never claims org) refl

module _ (co : Collation) (db : TaxonomyDb) where
  -- The cached lists that are left after an approval are as the database has them.
  uncached_fresh :
      (rubric : SeverityRubric) (now id : ℕ) (c : TaxonomyCategory)
      → find (λ (x : TaxonomyCategory). x.id == id) db.categories ≡ some c
      → (es : List (ℕ × List TaxonomyCategory))
      → All (λ (e : ℕ × List TaxonomyCategory). e.1 ≡ public_list co e.0 db) es
      → All
          (λ (e : ℕ × List TaxonomyCategory).
            e.1 ≡ public_list co e.0 (approved_in rubric now c db))
          (uncache c.organization_id es)
  uncached_fresh rubric now id c q [] h = tt
  uncached_fresh rubric now id c q (e ∷ es) (h, hs) = elim (Bool-cases (e.0 == c.organization_id)) [
    | inl k ↦ rw k (uncached_fresh rubric now id c q es hs)
    | inr k ↦ rw k (
      h ∙ sym (approved_list co db rubric now id c e.0 q k),
      uncached_fresh rubric now id c q es hs,
    )
  ]

  Step-IsFresh : {db' : TaxonomyDb} → Step co db db' → IsFresh co db → IsFresh co db'
  Step-IsFresh (Step.lists claims org status) h =
      (list_categories-IsFresh co db claims org status h).1
  Step-IsFresh (Step.expires org) h = All-select _ (λ e. not (e.0 == org)) db.cache h
  Step-IsFresh {db'} (Step.proposes id now p made) h =
      let known = propose_category-IsProposed co id now p db made in
      subst (IsFresh co) (sym known.grown) (
        All-map _ _
          (λ e k.
            k
            ∙ sym (
                ap (public_list co e.0) (sym known.grown) ∙ proposed_list co db id now p e.0 known))
          db.cache h)
  Step-IsFresh (Step.approves own now id levels k made) h =
      let known = approve_category-IsApproved own now id levels k db made in
      subst (IsFresh co) (sym known.changed)
        (uncached_fresh known.rubric now id known.before known.found db.cache h)

  Step-IsGoverned : {db' : TaxonomyDb} → Step co db db' → IsGoverned db → IsGoverned db'
  Step-IsGoverned (Step.lists claims org status) h =
      subst (All IsComplete) (sym (list_categories-categories co db claims org status)) h
  Step-IsGoverned (Step.expires org) h = h
  Step-IsGoverned (Step.proposes id now p {c} made) h =
      let known = propose_category-IsProposed co id now p db made in
      let complete =
        ap (λ (x : TaxonomyCategory). levels_of x.severity_rubric.levels) known.made
        ∙ known.complete in
      subst IsGoverned (sym known.grown)
        (All-append IsComplete db.categories (c ∷ []) h (complete, tt))
  Step-IsGoverned (Step.approves own now id levels k made) h =
      let known = approve_category-IsApproved own now id levels k db made in
      subst IsGoverned (sym known.changed) (
        All-modify_first IsComplete (λ x. x.id == known.before.id) (approve known.rubric now)
          db.categories (λ c u e. known.complete) h)

module _ (co : Collation) (db : TaxonomyDb) where
  Reachable-IsFresh : {db' : TaxonomyDb} → db.cache ≡ [] → Reachable co db db' → IsFresh co db'
  Reachable-IsFresh empty Reachable.start = rw empty tt
  Reachable-IsFresh empty (Reachable.after {db1} r s) =
      Step-IsFresh co db1 s (Reachable-IsFresh empty r)

  -- From an empty cache, after any sequence of listings, proposals, approvals and expired cache
  -- entries, the list of categories is for every caller and for every status that is asked for the
  -- list of the approved and active categories of the organization as the database has it: it is never
  -- stale, and no caller gets another list.
  pub list_categories-public_list :
      {db' : TaxonomyDb}
      → db.cache ≡ []
      → Reachable co db db'
      → (claims : Option OptionalClaims) (org : ℕ) (status : Option CategoryStatus)
      → (list_categories co claims org status db').0 ≡ public_list co org db'
  list_categories-public_list {db'} empty r claims org status =
      (list_categories-IsFresh co db' claims org status (Reachable-IsFresh empty r)).0

  -- Where every category has a rubric of exactly the tiers 1 to 5 in order, every category still has
  -- one after any sequence of listings, proposals, approvals and expired cache entries.
  pub Reachable-IsGoverned :
      {db' : TaxonomyDb} → IsGoverned db → Reachable co db db' → IsGoverned db'
  Reachable-IsGoverned h Reachable.start = h
  Reachable-IsGoverned h (Reachable.after {db1} r s) =
      Step-IsGoverned co db1 s (Reachable-IsGoverned h r)
