-- ===== src/Directory/Rows/Agreement.antt =====
-- About the tests of one row in bulk_import_users, civicbrain/api/v1/hierarchy.py, for two states of
-- the batch.
use civicbrain_v.Base.{
  ℕ, List, true, false, ◌&&◌, ◌||◌, ◌==◌, ap, not, ◌≡◌, any, arith, Bool-cases, inl, inr,
}
use civicbrain_v.Text.{Text, is_empty}
use civicbrain_v.Directory.Models.{StaffRole, done}
use civicbrain_v.Directory.Cells.{Unicode, matches_email}
use civicbrain_v.Text.Members.{member}
use civicbrain_v.Directory.Rows.{
  Cells, Metadata, Reason, Scope, out_of_scope, scoped, identify, identified, settle, role_scope,
  corporator_scope, ward_in,
}
use civicbrain_v.Directory.Rows.Identity.{identify-IsIdentified, IsIdentified-identify}
use civicbrain_v.Directory.Rows.Scopes.{with_ward_inv}

module _ (u : Unicode) (e1 s1 e2 s2 : List Text)
    (same : (p : Text) → (member p e1 || member p s1) ≡ (member p e2 || member p s2)) where
  neither :
      (p : Text)
      → member p e1 ≡ false
      → member p s1 ≡ false
      → (member p e2 ≡ false) × (member p s2 ≡ false)
  neither p h k = let e = same p in (ground arith, ground arith)

  -- A row is identified by the phones that are registered or seen, whichever they are.
  pub identify-agrees :
      (c : Cells) {phone : Text} {role : StaffRole}
      → identify u e1 s1 c ≡ identified phone role
      → identify u e2 s2 c ≡ identified phone role
  identify-agrees c {phone} h =
      let known = identify-IsIdentified u e1 s1 c h in
      let (unregistered, unseen) = neither phone known.unregistered known.unseen in
      IsIdentified-identify u e2 s2 c (record {
        named = known.named;
        unprivileged = known.unprivileged;
        listed = known.listed;
        no_admin = known.no_admin;
        normal = known.normal;
        unregistered = unregistered;
        unseen = unseen;
      })

module _ (u : Unicode) (m : Metadata) (some_wards more_wards : List ℕ)
    (fewer : (w : ℕ) → any (λ v. v == w) some_wards ≡ true → any (λ v. v == w) more_wards ≡ true)
    (c : Cells) where
  corporator_scope-fewer :
      (w : ℕ) {s : Scope}
      → corporator_scope more_wards w ≡ scoped s
      → corporator_scope some_wards w ≡ scoped s
  corporator_scope-fewer w {s} h = elim (Bool-cases (any (λ v. v == w) more_wards)) [
    | inl e ↦ let k : out_of_scope Reason.ward_represented ≡ scoped s = rw e at h in cc
    | inr e ↦ elim (Bool-cases (any (λ v. v == w) some_wards)) [
      | inl q ↦ let k = fewer w q in cc
      | inr q ↦ rw q (rw e at h)
    ]
  ]

  role_scope-fewer :
      (role : StaffRole) {s : Scope}
      → role_scope u m more_wards c role ≡ done (scoped s)
      → role_scope u m some_wards c role ≡ done (scoped s)
  unfolding role_scope
  role_scope-fewer StaffRole.admin h = h
  role_scope-fewer StaffRole.dispatcher h = h
  role_scope-fewer StaffRole.department_staff h = h
  role_scope-fewer StaffRole.zonal_supervisor h = h
  role_scope-fewer StaffRole.field_worker h = h
  role_scope-fewer StaffRole.corporator h =
      let (w, q, k) =
        with_ward_inv (ward_in u c.ward_number m.wards) StaffRole.corporator
          (corporator_scope more_wards) h in
      rw (role_scope, q) (ap done (corporator_scope-fewer w k))

  -- A scope that is found where more wards are taken is found where fewer are.
  pub settle-fewer :
      (role : StaffRole) {s : Scope}
      → settle u m more_wards c role ≡ done (scoped s)
      → settle u m some_wards c role ≡ done (scoped s)
  unfolding settle
  settle-fewer role {s} h =
      elim (Bool-cases (not (is_empty c.email) && not (matches_email c.email))) [
        | inl e ↦
            let k : done (out_of_scope Reason.invalid_email) ≡ done (scoped s) =
              rw (settle, e) at h in
            cc
        | inr e ↦ rw (settle, e) (role_scope-fewer role (rw (settle, e) at h))
      ]
