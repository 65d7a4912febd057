-- ===== src/Dispatch/WorkOrders/Refusals.antt =====
-- About the refusals of resolve_work_order of civicbrain/domain/dispatch/services.py.
use civicbrain_v.Base.{
  ℕ, true, false, some, none, ◌≡◌, refl, ◌⊎◌, inl, inr, not, arith, Option-cases, Bool-cases, ◌||◌,
}
use civicbrain_v.Text.{is_blank}
use civicbrain_v.Geo.{Within}
use civicbrain_v.Dispatch.Models.{WorkOrder, is_completed}
use civicbrain_v.Dispatch.WorkOrders.{
  Evidence, assigned_to_other, is_empty, near_incident, resolve_work_order,
}
use civicbrain_v.Store.{Db, Error, err, status_code, Clock, find_work_order}

-- Why a resolution of this order is refused, with the status code of the answer.
pub data Refusal (within : Within) (worker : ℕ) (e : Evidence) (db : Db) (w : WorkOrder)
    : ℕ → Type 0 where
  forbidden : assigned_to_other w worker ≡ true → Refusal within worker e db w 403
  done :
      assigned_to_other w worker ≡ false
      → is_completed w.status ≡ true
      → Refusal within worker e db w 400
  unproved :
      assigned_to_other w worker ≡ false
      → is_completed w.status ≡ false
      → (is_empty e.media
          || is_blank e.notes
          || not (near_incident within w.incident_id e.place db.incidents))
        ≡ true
      → Refusal within worker e db w 422

module _ (within : Within) (clock : Clock) (id worker : ℕ) (e : Evidence) (db : Db) where
  -- A resolution that is refused is refused for one of these reasons, in this order: 404, there is no
  -- such order; 403, it is another worker's; 400, it is completed; 422, there is no photo, or the
  -- notes are blank, or the place is not within 50 m of the incident.
  pub resolve_work_order_refusal :
      {x : Error}
      → resolve_work_order within clock id worker e db ≡ err x
      → ((find_work_order id db ≡ none) × (status_code x ≡ 404))
        ⊎ ((w : WorkOrder) × (find_work_order id db ≡ some w)
            × Refusal within worker e db w (status_code x))
  unfolding resolve_work_order
  resolve_work_order_refusal {x} h = elim (Option-cases (find_work_order id db)) [
    | inl q ↦ let same : Error.work_order_not_found ≡ x = ground arith in inl (q, rw (← same) refl)
    | inr (w, q) ↦ inr (
      w,
      q,
      elim (Bool-cases (assigned_to_other w worker)) [
        | inl other ↦
            let same : Error.not_assigned ≡ x = ground arith in
            rw (← same) (Refusal.forbidden other)
        | inr mine ↦ elim (Bool-cases (is_completed w.status)) [
          | inl over ↦
              let same : Error.already_completed ≡ x = ground arith in
              rw (← same) (Refusal.done mine over)
          | inr open_order ↦
              let code : status_code x ≡ 422 = ground arith in
              let bad : (is_empty e.media
                    || is_blank e.notes
                    || not (near_incident within w.incident_id e.place db.incidents))
                  ≡ true =
                ground arith in
              rw code (Refusal.unproved mine open_order bad)
        ]
      ],
    )
  ]
