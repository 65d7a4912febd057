-- ===== src/Intake/Vision.antt =====
-- DetectedDefect, HonestColdStartDetector and YoloV8PotholeDetector of
-- civicbrain/domain/intake/vision.py. What the model finds in an image is an argument.
pub mod Honest
use civicbrain_v.Base.{ℕ, List, [], ◌∷◌, map, Bool, true, false, if◌then◌else◌, Option, none, some}
use civicbrain_v.Text.{Text, codes, is_empty}
use civicbrain_v.Text.Strip.{strip}

-- A box as the model gives it; a float is a code.
pub record Prediction : Type 0 where
  pub xmin : ℕ
  pub ymin : ℕ
  pub xmax : ℕ
  pub ymax : ℕ
  pub conf : ℕ

pub record Bbox : Type 0 where
  pub x : ℕ
  pub y : ℕ
  pub w : ℕ
  pub h : ℕ

pub data DetectionSource : Type 0 where
  citizen_declared unclassified model_version : DetectionSource

pub record DetectedDefect : Type 0 where
  pub category_code : Text
  pub confidence : Option ℕ
  pub bbox : Option Bbox
  pub severity_hint : Option ℕ
  pub detection_source : DetectionSource
  pub needs_manual_triage : Bool

abbrev pub declared_defect : Text → DetectedDefect
declared_defect category = record {
  category_code = category;
  confidence = none;
  bbox = none;
  severity_hint = none;
  detection_source = DetectionSource.citizen_declared;
  needs_manual_triage = false;
}

abbrev pub unclassified_defect : DetectedDefect
unclassified_defect = record {
  category_code = codes "UNCLASSIFIED";
  confidence = none;
  bbox = none;
  severity_hint = none;
  detection_source = DetectionSource.unclassified;
  needs_manual_triage = true;
}

-- The loop over the declared categories; `upper` is `str.upper`.
unfoldable pub declared_defects : (Text → Text) → List Text → List DetectedDefect
declared_defects upper [] = []
declared_defects upper (c ∷ cs) =
    let rest = declared_defects upper cs in
    if is_empty (upper (strip c)) then rest else declared_defect (upper (strip c)) ∷ rest

abbrev pub or_unclassified : List DetectedDefect → List DetectedDefect
or_unclassified [] = unclassified_defect ∷ []
or_unclassified (d ∷ ds) = d ∷ ds

-- `None` is the empty list.
unfoldable pub cold_start_detect : (Text → Text) → List Text → List DetectedDefect
unfolding declared_defects strip
cold_start_detect upper citizen_categories =
    or_unclassified (declared_defects upper citizen_categories)

abbrev pub predicted_defect : (ℕ → ℕ → ℕ) → Prediction → DetectedDefect
predicted_defect subtract p = record {
  category_code = codes "POTHOLE";
  confidence = some p.conf;
  bbox =
      some
        (record { x = p.xmin; y = p.ymin; w = subtract p.xmax p.xmin; h = subtract p.ymax p.ymin });
  severity_hint = some 3;
  detection_source = DetectionSource.model_version;
  needs_manual_triage = false;
}

-- `none` where no model is loaded or the image cannot be decoded.
unfoldable pub pothole_detect :
    (ℕ → ℕ → ℕ) → (Text → Text) → Option (List Prediction) → List Text → List DetectedDefect
unfolding cold_start_detect
pothole_detect subtract upper none citizen_categories = cold_start_detect upper citizen_categories
pothole_detect subtract upper (some []) citizen_categories =
    cold_start_detect upper citizen_categories
pothole_detect subtract upper (some (p ∷ ps)) citizen_categories =
    map (predicted_defect subtract) (p ∷ ps)
