-- ===== src/Tests/Photos.antt =====
-- A photo with two defects sent from the city, as civicbrain/domain/intake/services.py handles it, and
-- what civicbrain/domain/intake/vision.py makes of photos.
use civicbrain_v.Base.{ℕ, ◌-◌, List, [], ◌∷◌, map, false, All, none, some, ◌≡◌, ◌≢◌, refl}
use civicbrain_v.Text.{Text, codes, text_eq}
use civicbrain_v.Intake.Models.{Incident}
use civicbrain_v.Intake.Status.{calculate_intake_status_from_children}
use civicbrain_v.Intake.Recompute.Consistency.{IsConsistent}
use civicbrain_v.Intake.Similarity.{calculate_jaro_winkler_similarity}
use civicbrain_v.Intake.Dedup.{evaluate_splink_record_linkage}
use civicbrain_v.Intake.Vision.{DetectedDefect, citizen_declared, pothole_detect}
use civicbrain_v.Intake.Vision.Honest.{IsHonest, predictions_of, pothole_detect-IsHonest}
use civicbrain_v.Intake.Routing.{IntakeDb, route_and_deduplicate_observation}
use civicbrain_v.Intake.Photo.{
  PhotoCall, Reference, Drawn, PhotoOutcome, processed, failed, process_photo_intake,
  process_defect,
}
use civicbrain_v.Intake.Photo.Agreed.{process_photo_intake-IsConsistent}
use civicbrain_v.Intake.Photo.Ends.{process_photo_intake-processed}
use civicbrain_v.Tests.City.{city, here, city-IsConsistent}

abbrev upper : Text → Text
upper s = s

abbrev found : List DetectedDefect
found = pothole_detect ◌-◌ upper none (codes "ROADS" ∷ codes " " ∷ codes "SWM" ∷ [])

pothole_detect-IsHonest_example :
    All
      (IsHonest ◌-◌ upper (codes "ROADS" ∷ codes " " ∷ []) (predictions_of none))
      (pothole_detect ◌-◌ upper none (codes "ROADS" ∷ codes " " ∷ []))
    × (pothole_detect ◌-◌ upper none (codes "ROADS" ∷ codes " " ∷ []) ≢ [])
pothole_detect-IsHonest_example =
    pothole_detect-IsHonest ◌-◌ upper (codes "ROADS" ∷ codes " " ∷ []) none

abbrev declared : Text → DetectedDefect
declared c = record {
  category_code = c;
  confidence = none;
  bbox = none;
  severity_hint = none;
  detection_source = citizen_declared;
  needs_manual_triage = false;
}

-- The first defect is like the incidents of the city; the second is in no category of them.
abbrev drawn : List Drawn
drawn =
    record { defect = declared []; observation_id = 60; incident_id = 61 }
    ∷ record { defect = declared (codes "SWM"); observation_id = 62; incident_id = 63 }
    ∷ []

abbrev photo : PhotoCall
photo = record {
  lower = λ s. s;
  distance = λ p q. 70000000;
  now = 160;
  organization_id = 1;
  report_id = 59;
  tracking_token = codes "T";
  ward_id = some 3;
  description = none;
  place = here;
}

abbrev tables : Reference
tables = record { organizations = 1 ∷ []; categories = [] }

abbrev before : IntakeDb
before = record { db = city; dedup_links = [] }

after : PhotoOutcome IntakeDb
unfolding process_photo_intake calculate_jaro_winkler_similarity evaluate_splink_record_linkage
    calculate_intake_status_from_children text_eq process_defect route_and_deduplicate_observation
after = process_photo_intake photo tables drawn before

incidents_after : PhotoOutcome IntakeDb → List ℕ
incidents_after (processed s) = map (λ (i : Incident). i.id) s.db.incidents
incidents_after (failed e) = []

-- 70 m away, of the same category and recent is no match: two incidents are new.
two_incidents : incidents_after after ≡ 7 ∷ 8 ∷ 61 ∷ 63 ∷ []
unfolding after incidents_after
two_incidents = refl

abbrev state_of : PhotoOutcome IntakeDb → IntakeDb
state_of (processed s) = s
state_of (failed e) = before

photo_processed : process_photo_intake photo tables drawn before ≡ processed (state_of after)
unfolding after
photo_processed = refl

process_photo_intake-IsConsistent_example : IsConsistent (state_of after).db
process_photo_intake-IsConsistent_example =
    process_photo_intake-IsConsistent photo tables drawn before
      (record { unreported = refl; unobserved = refl })
      (record { unique = refl; fresh = refl; apart = refl }) {s' = state_of after} city-IsConsistent
      photo_processed

process_photo_intake-processed_example :
    (s' : IntakeDb) × (process_photo_intake photo tables drawn before ≡ processed s')
process_photo_intake-processed_example =
    process_photo_intake-processed photo tables (λ code. refl) drawn before refl refl
