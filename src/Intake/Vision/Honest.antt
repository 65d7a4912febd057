-- ===== src/Intake/Vision/Honest.antt =====
-- About what the detectors of civicbrain/domain/intake/vision.py claim of a photo.
use mathlib.Core.List.{Memᴰ}
use civicbrain_v.Base.{
  ℕ, List, [], ◌∷◌, map, true, false, all, All, Option, none, some, ◌≡◌, ◌≢◌, refl, ◌⊎◌, Bool-cases,
  inl, inr,
}
use civicbrain_v.Text.{Text, codes, is_empty}
use civicbrain_v.Text.Strip.{strip}
use civicbrain_v.Intake.Vision.{
  Prediction, DetectedDefect, DetectionSource, declared_defect, declared_defects, or_unclassified,
  cold_start_detect, predicted_defect, pothole_detect,
}

abbrev pub predictions_of : Option (List Prediction) → List Prediction
predictions_of none = []
predictions_of (some ps) = ps

module _ (subtract : ℕ → ℕ → ℕ) (upper : Text → Text) (citizen_categories : List Text) where
  -- No confidence, no place and no severity.
  abbrev pub ClaimsNothing : DetectedDefect → Type 0
  ClaimsNothing d = (d.confidence ≡ none) × (d.bbox ≡ none) × (d.severity_hint ≡ none)

  -- A prediction: the confidence and the box are the model's.
  abbrev pub IsPredicted : Prediction → DetectedDefect → Type 0
  IsPredicted p d =
      (d.category_code ≡ codes "POTHOLE")
      × (d.confidence ≡ some p.conf)
      × (d.bbox
          ≡ some (record {
            x = p.xmin;
            y = p.ymin;
            w = subtract p.xmax p.xmin;
            h = subtract p.ymax p.ymin;
          }))
      × (d.severity_hint ≡ some 3)
      × (d.detection_source ≡ DetectionSource.model_version)
      × (d.needs_manual_triage ≡ false)

  -- The word of a citizen.
  abbrev pub IsDeclared : Text → DetectedDefect → Type 0
  IsDeclared c d =
      (is_empty (upper (strip c)) ≡ false)
      × (d.category_code ≡ upper (strip c))
      × ClaimsNothing d
      × (d.detection_source ≡ DetectionSource.citizen_declared)
      × (d.needs_manual_triage ≡ false)

  -- A photo that waits for a person.
  abbrev pub IsUnclassified : DetectedDefect → Type 0
  IsUnclassified d =
      (d.category_code ≡ codes "UNCLASSIFIED")
      × ClaimsNothing d
      × (d.detection_source ≡ DetectionSource.unclassified)
      × (d.needs_manual_triage ≡ true)

  -- The defect is one of the model's predictions; or a category that the citizen declared; or left
  -- to a person, where nothing is predicted or declared.
  abbrev pub IsHonest : List Prediction → DetectedDefect → Type 0
  IsHonest ps d =
      ((p : Prediction) × Memᴰ p ps × IsPredicted p d)
      ⊎ (((c : Text) × Memᴰ c citizen_categories × IsDeclared c d)
          ⊎ (IsUnclassified d
              × (ps ≡ [])
              × (all (λ c. is_empty (upper (strip c))) citizen_categories ≡ true)))

  map-predicted_defect :
      (ps qs : List Prediction)
      → ((p : Prediction) → Memᴰ p qs → Memᴰ p ps)
      → All (IsHonest ps) (map (predicted_defect subtract) qs)
  map-predicted_defect ps [] h = tt
  map-predicted_defect ps (q ∷ qs) h = (
    inl (q, h q (Memᴰ.head refl), (refl, refl, refl, refl, refl, refl)),
    map-predicted_defect ps qs (λ p m. h p (Memᴰ.tail m)),
  )

declared_defects_lem :
    (subtract : ℕ → ℕ → ℕ) (upper : Text → Text) (cs all_cs : List Text)
    → ((c : Text) → Memᴰ c cs → Memᴰ c all_cs)
    → All (IsHonest subtract upper all_cs []) (declared_defects upper cs)
unfolding declared_defects
declared_defects_lem subtract upper [] all_cs h = tt
declared_defects_lem subtract upper (c ∷ cs) all_cs h =
    let rest = declared_defects_lem subtract upper cs all_cs (λ d m. h d (Memᴰ.tail m)) in
    elim (Bool-cases (is_empty (upper (strip c)))) [
      | inl e ↦ rw (declared_defects, e) rest
      | inr e ↦
          rw (declared_defects, e)
            (inr (inl (c, h c (Memᴰ.head refl), (e, refl, (refl, refl, refl), refl, refl))), rest)
    ]

declared_defects-nil :
    (upper : Text → Text) (cs : List Text)
    → declared_defects upper cs ≡ []
    → all (λ c. is_empty (upper (strip c))) cs ≡ true
unfolding declared_defects
declared_defects-nil upper [] h = refl
declared_defects-nil upper (c ∷ cs) h = elim (Bool-cases (is_empty (upper (strip c)))) [
  | inl e ↦ rw e (declared_defects-nil upper cs (rw (declared_defects, e) at h))
  | inr e ↦
      let full : declared_defect (upper (strip c)) ∷ declared_defects upper cs ≡ [] =
        rw (declared_defects, e) at h in
      cc
]

module _ (subtract : ℕ → ℕ → ℕ) (upper : Text → Text) (cs : List Text) where
  abbrev Holds : List DetectedDefect → Type 0
  Holds ds = All (IsHonest subtract upper cs []) ds × (ds ≢ [])

  cold_start_detect-Holds : Holds (cold_start_detect upper cs)
  unfolding cold_start_detect
  cold_start_detect-Holds =
      settled (declared_defects upper cs) refl
        (declared_defects_lem subtract upper cs cs (λ c m. m))
    where
      settled :
          (ds : List DetectedDefect)
          → declared_defects upper cs ≡ ds
          → All (IsHonest subtract upper cs []) ds
          → Holds (or_unclassified ds)
      settled [] e h = (
        (
          inr (inr ((refl, (refl, refl, refl), refl, refl), refl, declared_defects-nil upper cs e)),
          tt,
        ),
        (λ q. cc),
      )
      settled (d ∷ ds) e h = (h, (λ q. cc))

  -- A detector always answers with a defect, and with honest ones only: one that the model predicts
  -- has the confidence and box of the prediction and severity 3, one that the citizen declares has
  -- the stripped category in capitals and no confidence, box or severity, and a photo is left to a
  -- person, with none of these either, only where nothing is predicted or declared.
  pub pothole_detect-IsHonest :
      (predictions : Option (List Prediction))
      → All
          (IsHonest subtract upper cs (predictions_of predictions))
          (pothole_detect subtract upper predictions cs)
        × (pothole_detect subtract upper predictions cs ≢ [])
  unfolding pothole_detect
  pothole_detect-IsHonest none = cold_start_detect-Holds
  pothole_detect-IsHonest (some []) = cold_start_detect-Holds
  pothole_detect-IsHonest (some (p ∷ ps)) =
      (map-predicted_defect subtract upper cs (p ∷ ps) (p ∷ ps) (λ q m. m), (λ q. cc))
