-- ===== src/Directory/Rows/Identity.antt =====
-- About the phone and role that bulk_import_users, civicbrain/api/v1/hierarchy.py, reads in a row.
use civicbrain_v.Base.{List, false, some, refl, ◌≡◌, ◌≢◌, Bool-cases, Option-cases, inl, inr, arith}
use civicbrain_v.Text.{Text, is_empty, text_eq}
use civicbrain_v.Directory.Models.{StaffRole, value}
use civicbrain_v.Directory.Cells.{Unicode}
use civicbrain_v.Directory.Phone.{normalize_indian_phone}
use civicbrain_v.Text.Members.{member}
use civicbrain_v.Directory.Rows.{Cells, Reason, halted, identified, identify, bulk_role}

bulk_role-admin : (s : Text) {role : StaffRole} → bulk_role s ≡ some role → role ≢ StaffRole.admin
unfolding bulk_role
bulk_role-admin s h e = ground arith

-- What is known of a row that passes the tests up to the phone's.
pub record IsIdentified (u : Unicode) (existing seen : List Text) (c : Cells) (phone : Text)
    (role : StaffRole) : Type 0 where
  pub named : is_empty c.full_name ≡ false
  pub unprivileged : text_eq c.role (value StaffRole.admin) ≡ false
  pub listed : bulk_role c.role ≡ some role
  pub no_admin : role ≢ StaffRole.admin
  pub normal : normalize_indian_phone u c.phone ≡ some phone
  pub unregistered : member phone existing ≡ false
  pub unseen : member phone seen ≡ false

module _ (u : Unicode) (existing seen : List Text) (c : Cells) {phone : Text}
    {role : StaffRole} where
  never : {p : Text} {r : Reason} {P : Type 0} → halted p r ≡ identified phone role → P
  never h = cc

  pub identify-IsIdentified :
      identify u existing seen c ≡ identified phone role → IsIdentified u existing seen c phone role
  unfolding identify
  identify-IsIdentified h = elim (Bool-cases (is_empty c.full_name)) [
    | inl e ↦ never (rw (identify, e) at h)
    | inr e1 ↦ elim (Bool-cases (text_eq c.role (value StaffRole.admin))) [
      | inl e ↦ never (rw (identify, e1, e) at h)
      | inr e2 ↦ elim (Option-cases (bulk_role c.role)) [
        | inl e ↦ never (rw (identify, e1, e2, e) at h)
        | inr (r, e3) ↦ elim (Option-cases (normalize_indian_phone u c.phone)) [
          | inl e ↦ never (rw (identify, e1, e2, e3, e) at h)
          | inr (p, e4) ↦ elim (Bool-cases (member p existing)) [
            | inl e ↦ never (rw (identify, e1, e2, e3, e4, e) at h)
            | inr e5 ↦ elim (Bool-cases (member p seen)) [
              | inl e ↦ never (rw (identify, e1, e2, e3, e4, e5, e) at h)
              | inr e6 ↦
                  all_passed r p e1 e2 e3 e4 e5 e6 (rw (identify, e1, e2, e3, e4, e5, e6) at h)
            ]
          ]
        ]
      ]
    ]
  ]
    where
      all_passed :
          (r : StaffRole) (p : Text)
          → is_empty c.full_name ≡ false
          → text_eq c.role (value StaffRole.admin) ≡ false
          → bulk_role c.role ≡ some r
          → normalize_indian_phone u c.phone ≡ some p
          → member p existing ≡ false
          → member p seen ≡ false
          → identified p r ≡ identified phone role
          → IsIdentified u existing seen c phone role
      all_passed r p e1 e2 e3 e4 e5 e6 k =
          let same_phone : p ≡ phone = cc in
          let same_role : r ≡ role = cc in
          record {
            named = e1;
            unprivileged = e2;
            listed = rw same_role at e3;
            no_admin = bulk_role-admin c.role (rw same_role at e3);
            normal = rw same_phone at e4;
            unregistered = rw same_phone at e5;
            unseen = rw same_phone at e6;
          }

  pub IsIdentified-identify :
      IsIdentified u existing seen c phone role → identify u existing seen c ≡ identified phone role
  unfolding identify
  IsIdentified-identify h =
      rw (identify, h.named, h.unprivileged, h.listed, h.normal, h.unregistered, h.unseen) refl
