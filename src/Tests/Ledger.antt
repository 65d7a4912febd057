-- ===== src/Tests/Ledger.antt =====
-- The ledger of one incident.
use civicbrain_v.Base.{◌⊎◌, ℕ, [], ◌∷◌, ◌+◌, ◌≡◌, ◌==◌, refl, some, none, false, find}
use civicbrain_v.Text.{text_eq}
use civicbrain_v.Transparency.Ledger.Tamper.{
  Collision, SamePayloads, last_hash, verify_incident_ledger_chain_commits,
}
use civicbrain_v.Transparency.Ledger.{
  Verdict, genesis_prev_hash, compute_entry_hash, valid, Milestone, Noise, LedgerResult, recorded,
  failed, record_ledger_checkpoint, chain_of, next_position, new_entry, sort, insert, check_from,
  verify_incident_ledger_chain,
}
use civicbrain_v.Transparency.Models.{Platform, in_utc, Case, JanSunwaiLedgerEntry, LedgerDb}
use civicbrain_v.Transparency.Ledger.Chain.{IsValid, record_ledger_checkpoint-IsValid}
use civicbrain_v.Transparency.Ledger.Reuse.{record_ledger_checkpoint_reuses}

abbrev platform : Platform
platform = record {
  sha256 = λ t. t;
  show_uuid = λ n. n ∷ [];
  show_int = λ n. n ∷ [];
  show_coordinate = λ n. n ∷ [];
  isoformat = λ t. t.offset ∷ t.instant ∷ [];
  tracking_code = λ n. n ∷ [];
  stored = λ n. n;
}

abbrev pothole : Case
pothole = record {
  id = 7;
  organization_id = 1;
  category_code = [];
  department_id = 2;
  ward_id = 3;
  geom = record { lon = 77; lat = 12 };
  created_at = 1000;
}

abbrev milestone : ℕ → ℕ → Milestone
milestone status time = record {
  lifecycle_status = status ∷ [];
  sla_status = [];
  resolution_media_count = 0;
  is_appealed = false;
  predicted_eta_hours = none;
  base_time = in_utc time;
}

abbrev noise : Noise
noise = record { place = record { lon = 78; lat = 13 }; ahead = 0; back = 40 }

abbrev louder : Noise
louder = record { place = record { lon = 70; lat = 10 }; ahead = 90; back = 0 }

abbrev empty : LedgerDb
empty = record { cases = pothole ∷ []; entries = [] }

abbrev after : LedgerResult → LedgerDb
after (recorded _ db) = db
after (failed _) = empty

abbrev entry_of : JanSunwaiLedgerEntry → LedgerResult → JanSunwaiLedgerEntry
entry_of e (recorded f _) = f
entry_of e (failed _) = e

abbrev filler : JanSunwaiLedgerEntry
filler =
    new_entry platform (milestone 1 1000) pothole
      (next_position noise (milestone 1 1000) pothole []) 960

abbrev one : LedgerDb
one = after (record_ledger_checkpoint platform noise (milestone 1 1000) 7 empty)

one_recorded :
    record_ledger_checkpoint platform noise (milestone 1 1000) 7 empty ≡ recorded filler one
unfolding record_ledger_checkpoint sort insert next_position new_entry
one_recorded = refl

empty-IsValid : IsValid platform empty
unfolding verify_incident_ledger_chain sort check_from
empty-IsValid id = refl

record_ledger_checkpoint-IsValid_example : IsValid platform one
record_ledger_checkpoint-IsValid_example =
    record_ledger_checkpoint-IsValid platform noise (milestone 1 1000) 7 empty (λ x. refl) refl
      empty-IsValid one_recorded

abbrev two : LedgerResult
two = record_ledger_checkpoint platform noise (milestone 2 5000) 7 one

two_recorded :
    record_ledger_checkpoint platform noise (milestone 2 5000) 7 one
    ≡ recorded (entry_of filler two) (after two)
unfolding record_ledger_checkpoint sort insert next_position new_entry text_eq
two_recorded = refl

-- A second milestone whose time is given with an offset of 330 minutes is recorded, and verification
-- then answers that the entry was tampered with.
abbrev abroad : LedgerResult
abroad =
    record_ledger_checkpoint platform noise
      (record (milestone 2 5000) { base_time = record { instant = 5000; offset = 330 } }) 7 one

abroad_tampered :
    verify_incident_ledger_chain platform (chain_of 7 (after abroad)) ≡ Verdict.tampered 1
unfolding record_ledger_checkpoint sort insert next_position new_entry text_eq compute_entry_hash
    verify_incident_ledger_chain check_from
abroad_tampered = refl

one_chain : chain_of 7 one ≡ filler ∷ []
unfolding record_ledger_checkpoint sort insert next_position new_entry
one_chain = refl

record_ledger_checkpoint_reuses_example :
    (record_ledger_checkpoint platform louder (milestone 2 5000) 7 one
      ≡ recorded (entry_of filler two) (after two))
    × (platform.show_coordinate (entry_of filler two).dp_geom.lon
        ≡ platform.show_coordinate filler.dp_geom.lon)
    × (platform.show_coordinate (entry_of filler two).dp_geom.lat
        ≡ platform.show_coordinate filler.dp_geom.lat)
    × ((c : Case) × (find (λ c. c.id == 7) one.cases ≡ some c)
        × ((entry_of filler two).dp_timestamp + c.created_at ≡ 5000 + filler.dp_timestamp))
record_ledger_checkpoint_reuses_example =
    record_ledger_checkpoint_reuses platform noise louder (milestone 2 5000) 7 one (λ x. refl)
      one_chain two_recorded

-- A poor hash: every text has the same.
abbrev poor : Platform
poor = record platform { sha256 = λ t. genesis_prev_hash }

abbrev first_entry : ℕ → JanSunwaiLedgerEntry
first_entry status =
    new_entry poor (milestone status 1000) pothole
      (next_position noise (milestone status 1000) pothole []) 960

first_valid : (status : ℕ) → verify_incident_ledger_chain poor (first_entry status ∷ []) ≡ valid
unfolding verify_incident_ledger_chain check_from sort insert new_entry next_position
    compute_entry_hash text_eq
first_valid status = refl

first_last :
    last_hash genesis_prev_hash (sort (first_entry 1 ∷ []))
    ≡ last_hash genesis_prev_hash (sort (first_entry 2 ∷ []))
unfolding sort insert new_entry next_position compute_entry_hash
first_last = refl

verify_incident_ledger_chain_commits_example :
    Collision poor ⊎ SamePayloads poor (sort (first_entry 1 ∷ [])) (sort (first_entry 2 ∷ []))
verify_incident_ledger_chain_commits_example =
    verify_incident_ledger_chain_commits poor (first_entry 1 ∷ []) (first_entry 2 ∷ []) (λ t. refl)
      (first_valid 1) (first_valid 2) refl first_last
