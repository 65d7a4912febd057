-- ===== src/Intake/Photo/Collected.antt =====
-- About the statuses that the loop of process_photo_intake, civicbrain/domain/intake/services.py,
-- collects.
use mathlib.Core.List.{append_assoc, append-nil}
use civicbrain_v.Base.{
  ℕ, List, [], ◌∷◌, ◌++◌, true, ◌==◌, if◌then◌else◌, ◌≡◌, refl, sym, ◌∙◌, arith, Bool-cases, inl,
  inr,
}
use civicbrain_v.Intake.Models.{IncidentStatus}
use civicbrain_v.Intake.Recompute.{child_statuses}
use civicbrain_v.Store.{Db}
use civicbrain_v.Intake.Routing.{IntakeDb}
use civicbrain_v.Intake.Photo.{
  PhotoCall, Reference, Drawn, PhotoOutcome, processed, failed, ◌>>=◌, process_defect,
  process_defects,
}
use civicbrain_v.Intake.Photo.Step.{Effect, unused, process_defect-Effect}
use civicbrain_v.Intake.Photo.Keys.{IsReady, unused-all, Effect-unique, Effect-children}

-- What the loop does: it collects statuses, by which those of the report grow, and touches no report.
pub record Collected (call : PhotoCall) (db : Db) (statuses statuses' : List IncidentStatus)
    (db' : Db) : Type 0 where
  pub more : List IncidentStatus
  pub collected : statuses' ≡ statuses ++ more
  pub children :
      (r : ℕ)
      → child_statuses r db'.incidents db'.observations
        ≡ child_statuses r db.incidents db.observations
          ++ (if call.report_id == r then more else [])
  pub kept : db'.reports ≡ db.reports

module _ (call : PhotoCall) (tables : Reference) where
  nothing_more :
      (s : IntakeDb) (r : ℕ)
      → child_statuses r s.db.incidents s.db.observations
        ≡ child_statuses r s.db.incidents s.db.observations
          ++ (if call.report_id == r then [] else [])
  nothing_more s r = elim (Bool-cases (call.report_id == r)) [
    | inl e ↦ rw (e, append-nil (child_statuses r s.db.incidents s.db.observations)) refl
    | inr e ↦ rw (e, append-nil (child_statuses r s.db.incidents s.db.observations)) refl
  ]

  Collected-step :
      {d : Drawn} {db db1 db2 : Db} {xs ys zs : List IncidentStatus}
      → unused db d ≡ true
      → Effect call d db xs ys db1
      → Collected call db1 ys zs db2
      → Collected call db xs zs db2
  Collected-step {d} {db} {db1} {db2} {xs} {ys} {zs} new effect later = record {
    more = effect.more ++ later.more;
    collected = later.collected ∙ rw effect.collected (append_assoc xs effect.more later.more);
    children = λ r. later.children r ∙ rw (Effect-children effect new r) (both r);
    kept = later.kept ∙ rw effect.changed refl;
  }
    where
      both :
          (r : ℕ)
          → (child_statuses r db.incidents db.observations
                ++ (if call.report_id == r then effect.more else []))
              ++ (if call.report_id == r then later.more else [])
            ≡ child_statuses r db.incidents db.observations
              ++ (if call.report_id == r then effect.more ++ later.more else [])
      both r = elim (Bool-cases (call.report_id == r)) [
        | inl e ↦
            rw e
              (append_assoc (child_statuses r db.incidents db.observations) effect.more later.more)
        | inr e ↦ rw (e, append-nil (child_statuses r db.incidents db.observations)) (append-nil _)
      ]

  pub process_defects-Collected :
      (ds : List Drawn) (statuses : List IncidentStatus) (s : IntakeDb)
      → IsReady s.db ds
      → {statuses' : List IncidentStatus} {s' : IntakeDb}
      → process_defects call tables ds statuses s ≡ processed (statuses', s')
      → Collected call s.db statuses statuses' s'.db
  unfolding process_defects
  process_defects-Collected [] statuses s ready {statuses'} {s'} h =
      let first : statuses ≡ statuses' = cc in
      let second : s ≡ s' = cc in
      record {
        more = [];
        collected = sym first ∙ sym (append-nil statuses);
        children = λ r. rw (← second) (nothing_more s r);
        kept = rw (← second) refl;
      }
  process_defects-Collected (d ∷ ds) statuses s ready h =
      given (process_defect call tables d statuses s) refl h
        (λ xs t r e. process_defects-Collected ds xs t r e)
    where
      given :
          (o : PhotoOutcome (List IncidentStatus × IntakeDb))
          → process_defect call tables d statuses s ≡ o
          → {statuses' : List IncidentStatus} {s' : IntakeDb}
          → (o >>= λ r. process_defects call tables ds r.0 r.1) ≡ processed (statuses', s')
          → ((xs : List IncidentStatus) (t : IntakeDb)
              → IsReady t.db ds
              → process_defects call tables ds xs t ≡ processed (statuses', s')
              → Collected call t.db xs statuses' s'.db)
          → Collected call s.db statuses statuses' s'.db
      given (failed e) run h later = cc
      given (processed (xs, t)) run h later =
          let new : unused s.db d ≡ true = ground (arith, ready.fresh) in
          let effect = process_defect-Effect call d s statuses new ready.unique tables run in
          Collected-step new effect (
            later xs t
              (record {
                unique = Effect-unique effect new ready.unique;
                fresh =
                    unused-all effect new ds (ground (arith, ready.apart))
                      (ground (arith, ready.fresh));
                apart = ground (arith, ready.apart);
              })
              h)
