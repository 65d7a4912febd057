-- ===== src/Directory/Batch/Step.antt =====
-- What the body of the loop of bulk_import_users, civicbrain/api/v1/hierarchy.py, can do to its
-- variables, as a step relation.
use mathlib.Core.List.{append-nil}
use civicbrain_v.Base.{
  ℕ, none, some, suc, List, [], ◌∷◌, Bool, true, false, Option, ◌≡◌, refl, Bool-cases, inl, inr,
  ◌⊎◌, ◌∙◌, ◌++◌, ◌||◌, ◌==◌, any, subst, sym, length, ◌+◌, arith,
}
use civicbrain_v.Text.{Text}
use civicbrain_v.Directory.Models.{
  done-injective, StaffRole, Refusal, Directory, ElectedRepresentative, Outcome, done, refused,
  and_then,
}
use civicbrain_v.Directory.Rows.{
  Row, Cells, read_cells, given, Reason, Identified, halted, identified, identify, Metadata, Scope,
  Scoped, out_of_scope, scoped, settle,
}
use civicbrain_v.Directory.Batch.{
  Platform, Draw, auth_user_id, new_account, new_assignment, new_representative, Batch, Person,
  skip, plan, mark, represented, add_account, add_representative, invite, create, enter,
  process_row, process_rows,
}

pub Identified-cases :
    (i : Identified)
    → ((phone : Text) × (reason : Reason) × (i ≡ halted phone reason))
      ⊎ ((phone : Text) × (role : StaffRole) × (i ≡ identified phone role))
Identified-cases (halted phone reason) = inl (phone, reason, refl)
Identified-cases (identified phone role) = inr (phone, role, refl)

-- What `and_then` gave came from both calls.
pub and_then-done :
    {A B : Type 0} (o : Outcome A) (f : A → Outcome B) {b : B}
    → and_then o f ≡ done b
    → (a : A) × (o ≡ done a) × (f a ≡ done b)
and_then-done (done a) f h = (a, refl, h)
and_then-done (refused e) f h = cc

abbrev pub person : Cells → Text → StaffRole → Scope → Person
person c phone role scope = record {
  full_name = c.full_name;
  phone = phone;
  email = given c.email;
  role = role;
  scope = scope;
}

-- The keys of the new rows are not in use.
abbrev is_taken : Draw → Option ℕ → List ElectedRepresentative → Bool
is_taken d none rs = false
is_taken d (some w) rs = any (λ r. r.ward_id == w || r.user_id == auth_user_id d) rs

abbrev pub IsUnused : Draw → Person → Directory → Type 0
IsUnused d p db =
    (any (λ a. a.id == auth_user_id d) db.accounts ≡ false)
    × (is_taken d (represented p) db.representatives ≡ false)

module _ (pf : Platform) (org : ℕ) where
  abbrev entries : Draw → Person → Option ℕ → List ElectedRepresentative
  entries d p none = []
  entries d p (some w) = new_representative pf org d p w ∷ []

  abbrev pub with_entry : Option ℕ → List ℕ → List ℕ
  with_entry none ws = ws
  with_entry (some w) ws = w ∷ ws

  abbrev with_account : Draw → Person → Batch → Batch
  with_account d p b = record b {
    db = record b.db {
      accounts = b.db.accounts ++ new_account pf org d p ∷ [];
      assignments = b.db.assignments ++ new_assignment pf org d p ∷ [];
    };
  }

  abbrev with_representative : Draw → Person → Option ℕ → Batch → Batch
  with_representative d p o b = record b {
    db = record b.db { representatives = b.db.representatives ++ entries d p o };
    corporator_wards = with_entry o b.corporator_wards;
  }

  -- The variables after a row is created.
  abbrev pub enrolled : ℕ → Cells → Person → Batch → Batch
  enrolled n c p b =
      let d = pf.draw n in
      invite pf org n d c p (with_representative d p (represented p) (with_account d p b))

  add_account_inv :
      (d : Draw) (p : Person) (b : Batch) {b' : Batch}
      → add_account pf org d p b ≡ done b'
      → (any (λ a. a.id == auth_user_id d) b.db.accounts ≡ false) × (b' ≡ with_account d p b)
  unfolding add_account
  add_account_inv d p b {b'} h =
      elim (Bool-cases (any (λ a. a.id == auth_user_id d) b.db.accounts)) [
        | inl e ↦ let q : refused Refusal.integrity_error ≡ done b' = rw (add_account, e) at h in cc
        | inr e ↦ (e, sym (done-injective (rw (add_account, e) at h)))
      ]

  add_representative_inv :
      (d : Draw) (p : Person) (o : Option ℕ) (b : Batch) {b' : Batch}
      → add_representative pf org d p o b ≡ done b'
      → (is_taken d o b.db.representatives ≡ false) × (b' ≡ with_representative d p o b)
  unfolding add_representative
  add_representative_inv d p none b h =
      (refl, sym (done-injective h) ∙ rw (append-nil b.db.representatives) refl)
  add_representative_inv d p (some w) b {b'} h =
      elim (Bool-cases (is_taken d (some w) b.db.representatives)) [
        | inl e ↦
            let q : refused Refusal.integrity_error ≡ done b' = rw (add_representative, e) at h in
            cc
        | inr e ↦ (e, sym (done-injective (rw (add_representative, e) at h)))
      ]

-- A row is skipped by its first tests, or by those that follow the phone's; or it is planned in a
-- dry run and created in a real one.
module _ (pf : Platform) (org : ℕ) (m : Metadata) (dry_run : Bool) (n : ℕ) (c : Cells)
    (b : Batch) where
  pub data Step : Batch → Type 0 where
    halts :
        {phone : Text} {reason : Reason}
        → identify pf.unicode b.existing_phones b.seen_phones c ≡ halted phone reason
        → Step (skip n c phone reason b)
    refuses :
        {phone : Text} {role : StaffRole} {reason : Reason}
        → identify pf.unicode b.existing_phones b.seen_phones c ≡ identified phone role
        → settle pf.unicode m b.corporator_wards c role ≡ done (out_of_scope reason)
        → Step (skip n c phone reason (mark phone b))
    plans :
        {phone : Text} {role : StaffRole} {scope : Scope}
        → identify pf.unicode b.existing_phones b.seen_phones c ≡ identified phone role
        → settle pf.unicode m b.corporator_wards c role ≡ done (scoped scope)
        → dry_run ≡ true
        → Step (plan n c phone (mark phone b))
    creates :
        {phone : Text} {role : StaffRole} {scope : Scope}
        → identify pf.unicode b.existing_phones b.seen_phones c ≡ identified phone role
        → settle pf.unicode m b.corporator_wards c role ≡ done (scoped scope)
        → dry_run ≡ false
        → IsUnused (pf.draw n) (person c phone role scope) b.db
        → Step (enrolled pf org n c (person c phone role scope) (mark phone b))

module _ (pf : Platform) (org : ℕ) (m : Metadata) (dry_run : Bool) (n : ℕ) where
  create_inv :
      (c : Cells) (p : Person) (b : Batch) {b' : Batch}
      → create pf org n c p b ≡ done b'
      → IsUnused (pf.draw n) p b.db × (b' ≡ enrolled pf org n c p b)
  unfolding create
  create_inv c p b {b'} h =
      let d = pf.draw n in
      let (b1, e1, h1) = and_then-done (add_account pf org d p b) _ h in
      let (b2, e2, h2) = and_then-done (add_representative pf org d p (represented p) b1) _ h1 in
      let (free, eq1) = add_account_inv pf org d p b e1 in
      let (clear, eq2) = add_representative_inv pf org d p (represented p) b1 e2 in
      ((free, rw eq1 at clear), sym (done-injective h2) ∙ rw (eq2, eq1) refl)

  settled :
      (c : Cells) (b : Batch) (phone : Text) (role : StaffRole) (r : Scoped) {b' : Batch}
      → identify pf.unicode b.existing_phones b.seen_phones c ≡ identified phone role
      → settle pf.unicode m b.corporator_wards c role ≡ done r
      → elim r [
        | out_of_scope reason ↦ done (skip n c phone reason (mark phone b))
        | scoped scope ↦ enter pf org dry_run n c phone role scope (mark phone b)
      ]
        ≡ done b'
      → Step pf org m dry_run n c b b'
  unfolding enter
  settled c b phone role (out_of_scope reason) {b'} e q h =
      subst (Step pf org m dry_run n c b) (done-injective h) (Step.refuses e q)
  settled c b phone role (scoped scope) {b'} e q h = elim (Bool-cases dry_run) [
    | inl d ↦
        subst (Step pf org m dry_run n c b) (done-injective (rw (enter, d) at h)) (Step.plans e q d)
    | inr d ↦
        let (unused, r) =
          create_inv c (person c phone role scope) (mark phone b) (rw (enter, d) at h) in
        subst (Step pf org m dry_run n c b) (sym r) (Step.creates e q d unused)
  ]

  -- Every change that the body makes is a step.
  pub process_row-Step :
      (row : Row) (b : Batch) {b' : Batch}
      → process_row pf org m dry_run n row b ≡ done b'
      → Step pf org m dry_run n (read_cells pf.unicode row) b b'
  unfolding process_row
  process_row-Step row b {b'} h =
      let c = read_cells pf.unicode row in
      elim (Identified-cases (identify pf.unicode b.existing_phones b.seen_phones c)) [
        | inl (phone, reason, e) ↦
            subst (Step pf org m dry_run n c b) (done-injective (rw (process_row, e) at h))
              (Step.halts e)
        | inr (phone, role, e) ↦
            let (r, q, k) =
              and_then-done (settle pf.unicode m b.corporator_wards c role) _
                (rw (process_row, e) at h) in
            settled c b phone role r e q k
      ]

-- What every step keeps, the loop keeps; it counts the rows.
module _ {κ} (pf : Platform) (org : ℕ) (m : Metadata) (dry_run : Bool) (P : ℕ → Batch → Type κ)
    (keep : (n : ℕ) (c : Cells) (b b' : Batch)
      → Step pf org m dry_run n c b b'
      → P n b
      → P (suc n) b') where
  pub process_rows-invariant :
      (n : ℕ) (rows : List Row) (b : Batch) {b' : Batch}
      → process_rows pf org m dry_run n rows b ≡ done b'
      → P n b
      → P (length rows + n) b'
  unfolding process_rows
  process_rows-invariant n [] b {b'} h u =
      subst (λ i. P i b') (omega arith) (subst (P n) (done-injective h) u)
  process_rows-invariant n (row ∷ rows) b {b'} h u =
      let (b1, e, k) = and_then-done (process_row pf org m dry_run n row b) _ h in
      let step = process_row-Step pf org m dry_run n row b e in
      subst (λ i. P i b') (omega arith)
        (process_rows-invariant (suc n) rows b1 k (keep n (read_cells pf.unicode row) b b1 step u))
