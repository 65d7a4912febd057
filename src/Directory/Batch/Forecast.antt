-- ===== src/Directory/Batch/Forecast.antt =====
-- About a dry run and a real run of the loop of bulk_import_users, civicbrain/api/v1/hierarchy.py,
-- over the same rows.
use civicbrain_v.Base.{
  ℕ, suc, List, [], ◌∷◌, ◌++◌, true, false, ◌||◌, ◌==◌, subst, not, Option, none, some, ◌≡◌, refl,
  sym, ◌∙◌, any, ◌≤◌, arith,
}
use civicbrain_v.Text.{Text}
use civicbrain_v.Directory.Models.{done-injective, StaffRole, done}
use civicbrain_v.Text.Members.{member}
use civicbrain_v.Directory.Rows.{
  Row, Cells, read_cells, Metadata, out_of_scope, scoped, identify, identified,
}
use civicbrain_v.Directory.Batch.{
  Platform, Batch, BulkImportRowResult, skip, plan, invite, represented, process_row, process_rows,
}
use civicbrain_v.Directory.Batch.Step.{Step, with_entry, person, process_row-Step, and_then-done}
use civicbrain_v.Directory.Batch.Audit.{is_skipped}
use civicbrain_v.Directory.Rows.Agreement.{identify-agrees, settle-fewer}

-- Row by row, what the first results skip the second skip too.
abbrev pub IsForecast : List BulkImportRowResult → List BulkImportRowResult → Type 0
IsForecast [] [] = Unit
IsForecast (r ∷ rs) (s ∷ ss) = ((not (is_skipped r) || is_skipped s) ≡ true) × IsForecast rs ss
IsForecast _ _ = ⊥

IsForecast-append :
    (rs ss : List BulkImportRowResult) (r s : BulkImportRowResult)
    → IsForecast rs ss
    → (not (is_skipped r) || is_skipped s) ≡ true
    → IsForecast (rs ++ r ∷ []) (ss ++ s ∷ [])
IsForecast-append [] [] r s h f = (f, tt)
IsForecast-append [] (y ∷ ss) r s h f = elim h [ ]
IsForecast-append (x ∷ rs) [] r s h f = elim h [ ]
IsForecast-append (x ∷ rs) (y ∷ ss) r s (g, h) f = (g, IsForecast-append rs ss r s h f)

-- The variables of a dry run and of a real run after the same rows: the real run has registered
-- some of the phones that both have seen, and more wards have a representative.
pub record IsAhead (dry real : Batch) : Type 0 where
  pub seen : real.seen_phones ≡ dry.seen_phones
  pub registered :
      (p : Text)
      → (member p real.existing_phones || member p real.seen_phones)
        ≡ (member p dry.existing_phones || member p dry.seen_phones)
  pub represented :
      (w : ℕ)
      → any (λ v. v == w) dry.corporator_wards ≡ true
      → any (λ v. v == w) real.corporator_wards ≡ true
  pub created : real.created_count ≤ dry.created_count
  pub forecast : IsForecast dry.results real.results

identified-injective :
    {p q : Text} {r s : StaffRole} → identified p r ≡ identified q s → (p ≡ q) × (r ≡ s)
identified-injective h = (cc, cc)

-- One row of a dry run and of a real run.
module _ (pf : Platform) (org : ℕ) (m : Metadata) (n : ℕ) (c : Cells) (b1 b2 : Batch)
    (ahead : IsAhead b1 b2) where
  real_identified :
      {phone : Text} {role : StaffRole}
      → identify pf.unicode b2.existing_phones b2.seen_phones c ≡ identified phone role
      → identify pf.unicode b1.existing_phones b1.seen_phones c ≡ identified phone role
  real_identified =
      identify-agrees pf.unicode b2.existing_phones b2.seen_phones b1.existing_phones b1.seen_phones
        ahead.registered c

  dry_identified :
      {phone : Text} {role : StaffRole}
      → identify pf.unicode b1.existing_phones b1.seen_phones c ≡ identified phone role
      → identify pf.unicode b2.existing_phones b2.seen_phones c ≡ identified phone role
  dry_identified =
      identify-agrees pf.unicode b1.existing_phones b1.seen_phones b2.existing_phones b2.seen_phones
        (λ p. sym (ahead.registered p)) c

  one_phone :
      {p q : Text} {r s : StaffRole}
      → identify pf.unicode b1.existing_phones b1.seen_phones c ≡ identified p r
      → identify pf.unicode b2.existing_phones b2.seen_phones c ≡ identified q s
      → (p ≡ q) × (r ≡ s)
  one_phone h k = identified-injective (sym h ∙ real_identified k)

  both_seen :
      (e1 s1 e2 s2 : List Text) (phone p : Text)
      → (member p e2 || member p s2) ≡ (member p e1 || member p s1)
      → (member p e2 || member p (phone ∷ s2)) ≡ (member p e1 || member p (phone ∷ s1))
  unfolding member
  both_seen e1 s1 e2 s2 phone p h = ground arith

  registers :
      (e1 s1 e2 s2 : List Text) (phone p : Text)
      → (member p e2 || member p s2) ≡ (member p e1 || member p s1)
      → (member p (phone ∷ e2) || member p (phone ∷ s2)) ≡ (member p e1 || member p (phone ∷ s1))
  unfolding member
  registers e1 s1 e2 s2 phone p h = ground arith

  any-with_entry :
      (o : Option ℕ) (w : ℕ) (ws : List ℕ)
      → any (λ v. v == w) ws ≡ true
      → any (λ v. v == w) (with_entry pf org o ws) ≡ true
  any-with_entry none w ws h = h
  any-with_entry (some v) w ws h = ground arith

  Step-IsAhead :
      (b1' b2' : Batch)
      → Step pf org m true n c b1 b1'
      → Step pf org m false n c b2 b2'
      → IsAhead b1' b2'
  unfolding skip plan invite
  Step-IsAhead b1' b2' (Step.halts e) (Step.halts q) = record {
    seen = ahead.seen;
    registered = ahead.registered;
    represented = ahead.represented;
    created = ahead.created;
    forecast = IsForecast-append b1.results b2.results _ _ ahead.forecast refl;
  }
  Step-IsAhead b1' b2' (Step.refuses {phone} e1 q1) (Step.refuses {phone = phone2} e2 q2) =
      let (same, _) = one_phone e1 e2 in
      record {
        seen = rw (same, ahead.seen) refl;
        registered = λ p. rw same (
            both_seen b1.existing_phones b1.seen_phones b2.existing_phones b2.seen_phones phone2 p
              (ahead.registered p));
        represented = ahead.represented;
        created = ahead.created;
        forecast = IsForecast-append b1.results b2.results _ _ ahead.forecast refl;
      }
  Step-IsAhead b1' b2' (Step.plans {phone} e1 q1 d1) (Step.refuses {phone = phone2} e2 q2) =
      let (same, _) = one_phone e1 e2 in
      record {
        seen = rw (same, ahead.seen) refl;
        registered = λ p. rw same (
            both_seen b1.existing_phones b1.seen_phones b2.existing_phones b2.seen_phones phone2 p
              (ahead.registered p));
        represented = ahead.represented;
        created = omega (arith, ahead.created);
        forecast = IsForecast-append b1.results b2.results _ _ ahead.forecast refl;
      }
  Step-IsAhead b1' b2' (Step.plans {phone} e1 q1 d1)
        (Step.creates {phone = phone2} {role} {scope} e2 q2 d2 u2) =
      let (same, _) = one_phone e1 e2 in
      record {
        seen = rw (same, ahead.seen) refl;
        registered = λ p. rw same (
            registers b1.existing_phones b1.seen_phones b2.existing_phones b2.seen_phones phone2 p
              (ahead.registered p));
        represented = λ w h.
            any-with_entry (represented (person c phone2 role scope)) w b2.corporator_wards
              (ahead.represented w h);
        created = omega (arith, ahead.created);
        forecast = IsForecast-append b1.results b2.results _ _ ahead.forecast refl;
      }
  Step-IsAhead b1' b2' (Step.refuses {role} {reason} e1 q1)
        (Step.creates {role = role2} {scope} e2 q2 d2 u2) =
      let (_, same) = one_phone e1 e2 in
      let fewer =
        settle-fewer pf.unicode m b1.corporator_wards b2.corporator_wards ahead.represented c role2
          q2 in
      let never : done (out_of_scope reason) ≡ done (scoped scope) = sym (rw same at q1) ∙ fewer in
      cc
  Step-IsAhead b1' b2' (Step.halts e) (Step.refuses q _) = let k = sym e ∙ real_identified q in cc
  Step-IsAhead b1' b2' (Step.halts e) (Step.plans q _ d) = cc
  Step-IsAhead b1' b2' (Step.halts e) (Step.creates q _ _ _) =
      let k = sym e ∙ real_identified q in cc
  Step-IsAhead b1' b2' (Step.refuses q _) (Step.halts e) = let k = sym e ∙ dry_identified q in cc
  Step-IsAhead b1' b2' (Step.plans q _ _) (Step.halts e) = let k = sym e ∙ dry_identified q in cc
  Step-IsAhead b1' b2' (Step.refuses q _) (Step.plans _ _ d) = cc
  Step-IsAhead b1' b2' (Step.plans q _ _) (Step.plans _ _ d) = cc
  Step-IsAhead b1' b2' (Step.creates _ _ d _) s = cc

-- What holds of the two runs before the rows holds after them.
pub process_rows-IsAhead :
    (pf : Platform) (org : ℕ) (m : Metadata) (n : ℕ) (rows : List Row) (b1 b2 : Batch)
    {b1' b2' : Batch}
    → IsAhead b1 b2
    → process_rows pf org m true n rows b1 ≡ done b1'
    → process_rows pf org m false n rows b2 ≡ done b2'
    → IsAhead b1' b2'
unfolding process_rows
process_rows-IsAhead pf org m n [] b1 b2 {b1'} {b2'} h k1 k2 =
    subst (λ b. IsAhead b b2') (done-injective k1) (subst (λ b. IsAhead b1 b) (done-injective k2) h)
process_rows-IsAhead pf org m n (row ∷ rows) b1 b2 h k1 k2 =
    let (c1, e1, f1) = and_then-done (process_row pf org m true n row b1) _ k1 in
    let (c2, e2, f2) = and_then-done (process_row pf org m false n row b2) _ k2 in
    let s1 = process_row-Step pf org m true n row b1 e1 in
    let s2 = process_row-Step pf org m false n row b2 e2 in
    process_rows-IsAhead pf org m (suc n) rows c1 c2
      (Step-IsAhead pf org m n (read_cells pf.unicode row) b1 b2 h c1 c2 s1 s2) f1 f2
