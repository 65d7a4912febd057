-- ===== src/Directory/Rows/Scopes.antt =====
-- About the scopes that bulk_import_users, civicbrain/api/v1/hierarchy.py, finds for a role.
use civicbrain_v.Base.{
  ℕ, List, [], ◌∷◌, Bool, true, false, ◌&&◌, ◌||◌, ◌==◌, Option, none, some, ◌≡◌, refl, sym, ◌∙◌,
  any, select, any-select, any-map, arith, Option-cases, inl, inr, Bool-cases, subst, ◌≢◌, not,
}
use civicbrain_v.Text.{Text, is_empty}
use civicbrain_v.Directory.Models.{
  done-injective, StaffRole, Department, Zone, Ward, Directory, Refusal, Outcome, done, refused,
}
use civicbrain_v.Directory.Cells.{Unicode, matches_email}
use civicbrain_v.Directory.Rows.{
  Cells, metadata, Scope, Scoped, Reason, out_of_scope, scoped, settle, role_scope, lookup,
  lookup_number, ward_in, with_ward, code_in, corporator_scope,
}

module _ (org : ℕ) (db : Directory) where
  -- Is it the key of an active department, a zone or a ward of the organization?
  abbrev has_department : ℕ → Bool
  has_department k =
      any (λ (d : Department). (d.organization_id == org && d.is_active) && d.id == k)
        db.departments

  abbrev has_zone : ℕ → Bool
  has_zone k = any (λ (z : Zone). z.organization_id == org && z.id == k) db.zones

  abbrev has_ward : ℕ → Bool
  has_ward k = any (λ (w : Ward). w.organization_id == org && w.id == k) db.wards

  -- The keys that each role has, and no others. An administrator is in no scope.
  abbrev pub is_in_scope : StaffRole → Option ℕ → Option ℕ → Option ℕ → Bool
  is_in_scope StaffRole.dispatcher none none none = true
  is_in_scope StaffRole.department_staff (some d) none none = has_department d
  is_in_scope StaffRole.zonal_supervisor none (some z) none = has_zone z
  is_in_scope StaffRole.field_worker (some d) none (some w) = has_department d && has_ward w
  is_in_scope StaffRole.corporator none none (some w) = has_ward w
  is_in_scope _ _ _ _ = false

lookup-any :
    (k : Text) (m : List (Text × ℕ)) {v : ℕ} → lookup k m ≡ some v → any (λ e. e.1 == v) m ≡ true
lookup-any k [] h = cc
lookup-any k ((j, w) ∷ m) {v} h = elim (Option-cases (lookup k m)) [
  | inl e ↦ ground (arith, e)
  | inr (x, e) ↦
      let eq : some x ≡ some v = rw e at h in
      let rest = lookup-any k m (e ∙ eq) in ground (arith, rest)
]

lookup_number-any :
    (k : ℕ) (m : List (ℕ × ℕ)) {v : ℕ} → lookup_number k m ≡ some v → any (λ e. e.1 == v) m ≡ true
lookup_number-any k [] h = cc
lookup_number-any k ((j, w) ∷ m) {v} h = elim (Option-cases (lookup_number k m)) [
  | inl e ↦ ground (arith, e)
  | inr (x, e) ↦
      let eq : some x ≡ some v = rw e at h in
      let rest = lookup_number-any k m (e ∙ eq) in ground (arith, rest)
]

scoped-injective : {x y : Scope} → scoped x ≡ scoped y → x ≡ y
scoped-injective h = cc

never_scoped : {r : Reason} {s : Scope} {P : Type 0} → done (out_of_scope r) ≡ done (scoped s) → P
never_scoped h = cc

pub with_ward_inv :
    (o : Outcome (Option ℕ)) (role : StaffRole) (f : ℕ → Scoped) {s : Scope}
    → with_ward o role f ≡ done (scoped s)
    → (w : ℕ) × (o ≡ done (some w)) × (f w ≡ scoped s)
with_ward_inv (refused e) role f h = cc
with_ward_inv (done none) role f h = cc
with_ward_inv (done (some w)) role f h = (w, refl, done-injective h)

module _ (u : Unicode) (org : ℕ) (db : Directory) where
  code_in-department :
      (code : Text) {v : ℕ}
      → code_in code (metadata u org db).departments ≡ some v
      → has_department org db v ≡ true
  code_in-department code {v} h = elim (Bool-cases (is_empty code)) [
    | inl e ↦ let k : none ≡ some v = rw e at h in cc
    | inr e ↦
        let own = λ (d : Department). d.organization_id == org && d.is_active in
        sym (any-select own (λ (d : Department). d.id == v) db.departments)
        ∙ sym (
            any-map (λ (e : Text × ℕ). e.1 == v) (λ (d : Department). (u.upper d.code, d.id))
              (select own db.departments))
        ∙ lookup-any code _ (rw e at h)
  ]

  code_in-zone :
      (code : Text) {v : ℕ}
      → code_in code (metadata u org db).zones ≡ some v
      → has_zone org db v ≡ true
  code_in-zone code {v} h = elim (Bool-cases (is_empty code)) [
    | inl e ↦ let k : none ≡ some v = rw e at h in cc
    | inr e ↦
        let own = λ (z : Zone). z.organization_id == org in
        sym (any-select own (λ (z : Zone). z.id == v) db.zones)
        ∙ sym (
            any-map (λ (e : Text × ℕ). e.1 == v) (λ (z : Zone). (u.upper z.code, z.id))
              (select own db.zones))
        ∙ lookup-any code _ (rw e at h)
  ]

  ward_in-ward :
      (raw : Text) {v : ℕ}
      → ward_in u raw (metadata u org db).wards ≡ done (some v)
      → has_ward org db v ≡ true
  unfolding ward_in
  ward_in-ward raw {v} h = elim (Bool-cases (is_empty raw || not (u.isdigit raw))) [
    | inl e ↦ let k : none ≡ some v = done-injective (rw (ward_in, e) at h) in cc
    | inr e ↦ elim (Option-cases (u.int raw)) [
      | inl q ↦ let k : refused Refusal.value_error ≡ done (some v) = rw (ward_in, e, q) at h in cc
      | inr (n, q) ↦
          let own = λ (w : Ward). w.organization_id == org in
          sym (any-select own (λ (w : Ward). w.id == v) db.wards)
          ∙ sym (
              any-map (λ (e : ℕ × ℕ). e.1 == v) (λ (w : Ward). (w.ward_number, w.id))
                (select own db.wards))
          ∙ lookup_number-any n _ (done-injective (rw (ward_in, e, q) at h))
    ]
  ]

  abbrev scope_fits : StaffRole → Scope → Bool
  scope_fits role s = is_in_scope org db role s.department_id s.zone_id s.ward_id

  fits :
      (role : StaffRole) {x s : Scope}
      → scope_fits role x ≡ true
      → scoped x ≡ scoped s
      → scope_fits role s ≡ true
  fits role h e = subst (λ (y : Scope). scope_fits role y ≡ true) (scoped-injective e) h

  role_scope-fits :
      (taken : List ℕ) (c : Cells) (role : StaffRole) {s : Scope}
      → role ≢ StaffRole.admin
      → role_scope u (metadata u org db) taken c role ≡ done (scoped s)
      → scope_fits role s ≡ true
  unfolding role_scope
  role_scope-fits taken c StaffRole.admin ne h = absurd (ne refl)
  role_scope-fits taken c StaffRole.dispatcher ne h =
      fits StaffRole.dispatcher refl (done-injective h)
  role_scope-fits taken c StaffRole.department_staff {s} ne h =
      elim (Option-cases (code_in c.department_code (metadata u org db).departments)) [
        | inl e ↦ never_scoped (rw (role_scope, e) at h)
        | inr (d, e) ↦
            fits StaffRole.department_staff (code_in-department c.department_code e)
              (done-injective (rw (role_scope, e) at h))
      ]
  role_scope-fits taken c StaffRole.zonal_supervisor {s} ne h =
      elim (Option-cases (code_in c.zone_code (metadata u org db).zones)) [
        | inl e ↦ never_scoped (rw (role_scope, e) at h)
        | inr (z, e) ↦
            fits StaffRole.zonal_supervisor (code_in-zone c.zone_code e)
              (done-injective (rw (role_scope, e) at h))
      ]
  role_scope-fits taken c StaffRole.field_worker {s} ne h =
      elim (Option-cases (code_in c.department_code (metadata u org db).departments)) [
        | inl e ↦ never_scoped (rw (role_scope, e) at h)
        | inr (d, e) ↦
            let (w, q, k) =
              with_ward_inv (ward_in u c.ward_number (metadata u org db).wards)
                StaffRole.field_worker _ (rw (role_scope, e) at h) in
            let own_department = code_in-department c.department_code e in
            let own_ward = ward_in-ward c.ward_number q in
            fits StaffRole.field_worker (rw (own_department, own_ward) refl) k
      ]
  role_scope-fits taken c StaffRole.corporator {s} ne h =
      let (w, q, k) =
        with_ward_inv (ward_in u c.ward_number (metadata u org db).wards) StaffRole.corporator
          (corporator_scope taken) h in
      elim (Bool-cases (any (λ v. v == w) taken)) [
        | inl e ↦ let n : out_of_scope Reason.ward_represented ≡ scoped s = rw e at k in cc
        | inr e ↦ fits StaffRole.corporator (ward_in-ward c.ward_number q) (rw e at k)
      ]

  -- A role other than the administrator's that is settled has the keys of its scope.
  pub settle-is_in_scope :
      (taken : List ℕ) (c : Cells) (role : StaffRole) {s : Scope}
      → role ≢ StaffRole.admin
      → settle u (metadata u org db) taken c role ≡ done (scoped s)
      → is_in_scope org db role s.department_id s.zone_id s.ward_id ≡ true
  unfolding settle
  settle-is_in_scope taken c role ne h =
      elim (Bool-cases (not (is_empty c.email) && not (matches_email c.email))) [
        | inl e ↦ never_scoped (rw (settle, e) at h)
        | inr e ↦ role_scope-fits taken c role ne (rw (settle, e) at h)
      ]
