-- ===== src/Dispatch/Sync/Submitted.antt =====
-- About the evidence in the payload of a mutation, process_field_sync of
-- civicbrain/domain/dispatch/services.py.
use civicbrain_v.Base.{
  List, true, false, ◌||◌, Option, some, none, ◌≡◌, arith, Option-cases, Bool-cases, inl, inr,
}
use civicbrain_v.Text.{Text, is_blank}
use civicbrain_v.Geo.{Within, Point, make_point}
use civicbrain_v.Dispatch.Models.{WorkOrder, Payload}
use civicbrain_v.Dispatch.WorkOrders.{Evidence, is_empty, near_incident}
use civicbrain_v.Dispatch.Sync.{submitted_evidence, submitted_place}
use civicbrain_v.Store.{Db}

-- Notes that are not blank, and photos.
abbrev pub HasEvidence : Payload → Text → List Text → Type 0
HasEvidence p notes media =
    (p.resolution_notes ≡ some notes)
    × (p.resolution_media_urls ≡ some media)
    × (is_blank notes ≡ false)
    × (is_empty media ≡ false)

-- This evidence is that of the payload.
abbrev pub IsSubmitted : Payload → Evidence → Type 0
IsSubmitted p e =
    (p.resolution_notes ≡ some e.notes)
    × (p.resolution_media_urls ≡ some e.media)
    × (make_point p.longitude p.latitude ≡ some e.place)

pub submitted_evidence-eq-some :
    (p : Payload) {notes : Text} {media : List Text}
    → submitted_evidence p ≡ some (notes, media)
    → HasEvidence p notes media
unfolding submitted_evidence
submitted_evidence-eq-some p {notes} {media} h = elim (Option-cases p.resolution_notes) [
  | inl e ↦ ground arith
  | inr (x, e) ↦ elim (Option-cases p.resolution_media_urls) [
    | inl f ↦ ground arith
    | inr (xs, f) ↦ elim (Bool-cases (is_blank x || is_empty xs)) [
      | inl b ↦ ground arith
      | inr b ↦
          let both : ◌≡◌ {A = Option (Text × List Text)} (some (x, xs)) (some (notes, media)) =
            rw (submitted_evidence, e, f, b) at h in
          let first : x ≡ notes = cc in
          let second : xs ≡ media = cc in rw (← first, ← second) (e, f, ground arith, ground arith)
    ]
  ]
]

pub submitted_evidence-eq-none :
    (p : Payload) (notes : Text) (media : List Text)
    → submitted_evidence p ≡ none
    → ¬ HasEvidence p notes media
unfolding submitted_evidence
submitted_evidence-eq-none p notes media h (a, b, c, d) =
    let never : ◌≡◌ {A = Option (Text × List Text)} (some (notes, media)) none =
      rw (submitted_evidence, a, b, c, d) at h in
    cc

module _ (within : Within) (w : WorkOrder) (p : Payload) (db : Db) where
  pub submitted_place-eq-some :
      {place : Point}
      → submitted_place within w p db ≡ some place
      → (make_point p.longitude p.latitude ≡ some place)
        × (near_incident within w.incident_id place db.incidents ≡ true)
  unfolding submitted_place
  submitted_place-eq-some {place} h = elim (Option-cases (make_point p.longitude p.latitude)) [
    | inl e ↦
        let never : ◌≡◌ {A = Option Point} none (some place) = rw (submitted_place, e) at h in cc
    | inr (q, e) ↦ elim (Bool-cases (near_incident within w.incident_id q db.incidents)) [
      | inl b ↦
          let same : ◌≡◌ {A = Option Point} (some q) (some place) =
            rw (submitted_place, e, b) at h in
          let first : q ≡ place = cc in rw (← first) (e, b)
      | inr b ↦
          let never : ◌≡◌ {A = Option Point} none (some place) = rw (submitted_place, e, b) at h in
          cc
    ]
  ]

  pub submitted_place-eq-none :
      (place : Point)
      → submitted_place within w p db ≡ none
      → make_point p.longitude p.latitude ≡ some place
      → near_incident within w.incident_id place db.incidents ≡ false
  unfolding submitted_place
  submitted_place-eq-none place h e =
      elim (Bool-cases (near_incident within w.incident_id place db.incidents)) [
        | inl b ↦
            let never : ◌≡◌ {A = Option Point} (some place) none =
              rw (submitted_place, e, b) at h in
            cc
        | inr b ↦ b
      ]
