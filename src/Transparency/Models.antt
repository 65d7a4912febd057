-- ===== src/Transparency/Models.antt =====
-- The rows that the ledger of civicbrain/domain/transparency/services.py reads and writes, and the
-- functions that it takes from elsewhere.
use civicbrain_v.Base.{ℕ, List, Bool, Option, ◌≡◌}
use civicbrain_v.Text.{Text}
use civicbrain_v.Geo.{Point}

-- An aware `datetime`: its instant, in microseconds since the first one in UTC, and its offset from
-- UTC, of which 0 is UTC itself.
pub record DateTime : Type 0 where
  pub instant : ℕ
  pub offset : ℕ

-- A time as the database gives it back: the column keeps the instant, and the offset is UTC.
abbrev pub in_utc : ℕ → DateTime
in_utc t = record { instant = t; offset = 0 }

-- What the program takes from elsewhere: SHA-256, the printed form of an id, of a number, of a
-- coordinate with six decimals and of a time, the tracking code that an id has, and the coordinate
-- that PostGIS gives back for the text `:.6f` of one.
pub record Platform : Type 0 where
  pub sha256 : Text → Text
  pub show_uuid : ℕ → Text
  pub show_int : ℕ → Text
  pub show_coordinate : ℕ → Text
  pub isoformat : DateTime → Text
  pub tracking_code : ℕ → Text
  pub stored : ℕ → ℕ

-- A stored coordinate prints as the one that was stored: six decimals survive the round trip.
abbrev pub IsFaithful : Platform → Type 0
IsFaithful pf = (x : ℕ) → pf.show_coordinate (pf.stored x) ≡ pf.show_coordinate x

-- The columns of `incident` that the ledger reads.
pub record Case : Type 0 where
  pub id : ℕ
  pub organization_id : ℕ
  pub category_code : Text
  pub department_id : ℕ
  pub ward_id : ℕ
  pub geom : Point
  pub created_at : ℕ

-- The row of `jan_sunwai_ledger_entry`.
pub record JanSunwaiLedgerEntry : Type 0 where
  pub organization_id : ℕ
  pub incident_id : ℕ
  pub sequence_num : ℕ
  pub public_tracking_code : Text
  pub category_code : Text
  pub department_id : ℕ
  pub ward_id : ℕ
  pub dp_geom : Point
  pub dp_timestamp : ℕ
  pub lifecycle_status : Text
  pub sla_status : Text
  pub predicted_eta_hours : Option ℕ
  pub resolution_media_count : ℕ
  pub is_appealed : Bool
  pub prev_hash : Text
  pub entry_hash : Text

-- The two tables that the ledger reads and writes.
pub record LedgerDb : Type 0 where
  pub cases : List Case
  pub entries : List JanSunwaiLedgerEntry
