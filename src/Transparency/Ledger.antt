-- ===== src/Transparency/Ledger.antt =====
-- civicbrain/domain/transparency/services.py: compute_entry_hash, record_ledger_checkpoint and
-- verify_incident_ledger_chain, with the row of civicbrain/domain/transparency/models.py.
-- A stored time is its number of microseconds since the first `datetime`, in UTC.
mod Sorting
pub mod Reuse
pub mod Chain
pub mod Tamper
use civicbrain_v.Base.{
  ℕ, zero, suc, ◌+◌, ◌-◌, List, [], ◌∷◌, ◌++◌, Bool, ◌&&◌, ◌||◌, not, Option, none, some,
  if◌then◌else◌, ◌==◌, ltb, leb, find, select, any, ◌≡◌,
}
use civicbrain_v.Text.{Text, text_eq}
use civicbrain_v.Geo.{Point}
use civicbrain_v.Transparency.Models.{
  Platform, IsFaithful, DateTime, in_utc, Case, JanSunwaiLedgerEntry, LedgerDb,
}

-- `"0" * 64`
abbrev repeat : ℕ → ℕ → Text
repeat zero c = []
repeat (suc n) c = c ∷ repeat n c

abbrev pub genesis_prev_hash : Text
genesis_prev_hash = repeat 64 48

abbrev colon : Text
colon = 58 ∷ []

-- `POINT(lon lat)` with six decimals.
abbrev wkt : Platform → Point → Text
wkt pf p =
    (80 ∷ 79 ∷ 73 ∷ 78 ∷ 84 ∷ 40 ∷ [])
    ++ (pf.show_coordinate p.lon ++ (32 ∷ []) ++ pf.show_coordinate p.lat)
    ++ (41 ∷ [])

-- What is hashed behind the previous hash.
abbrev pub fields : Platform → ℕ → ℕ → Text → Point → DateTime → Text → Text
fields pf incident_id sequence_num lifecycle_status place timestamp code =
    colon
    ++ pf.show_uuid incident_id
    ++ colon
    ++ pf.show_int sequence_num
    ++ colon
    ++ lifecycle_status
    ++ colon
    ++ wkt pf place
    ++ colon
    ++ pf.isoformat timestamp
    ++ colon
    ++ code

unfoldable pub compute_entry_hash : Platform → Text → ℕ → ℕ → Text → Point → DateTime → Text → Text
compute_entry_hash pf prev_hash incident_id sequence_num lifecycle_status place timestamp code =
    pf.sha256
      (prev_hash ++ fields pf incident_id sequence_num lifecycle_status place timestamp code)

-- `sorted(entries, key=lambda e: e.sequence_num)`, and `ORDER BY sequence_num`: stable.
unfoldable pub insert : JanSunwaiLedgerEntry → List JanSunwaiLedgerEntry → List JanSunwaiLedgerEntry
insert e [] = e ∷ []
insert e (f ∷ es) =
    let rest = insert e es in if leb e.sequence_num f.sequence_num then e ∷ f ∷ es else f ∷ rest

unfoldable pub sort : List JanSunwaiLedgerEntry → List JanSunwaiLedgerEntry
sort [] = []
sort (e ∷ es) = insert e (sort es)

-- What the caller says of a milestone.
pub record Milestone : Type 0 where
  pub lifecycle_status : Text
  pub sla_status : Text
  pub resolution_media_count : ℕ
  pub is_appealed : Bool
  pub predicted_eta_hours : Option ℕ
  -- `milestone_time or datetime.now(UTC)`: the offset of the former is the caller's.
  pub base_time : DateTime

-- What `generate_laplace_dp_perturbation` draws: a place, and a time offset ahead or back.
pub record Noise : Type 0 where
  pub place : Point
  pub ahead : ℕ
  pub back : ℕ

-- The first three raise; a `datetime` before year 1 is an `OverflowError`, and a row that a
-- constraint forbids is an `IntegrityError`.
pub data LedgerError : Type 0 where
  incident_not_found overflow integrity_error : LedgerError

pub data LedgerResult : Type 0 where
  recorded : JanSunwaiLedgerEntry → LedgerDb → LedgerResult
  failed : LedgerError → LedgerResult

-- `existing_entries[-1]`
abbrev pub last_of : JanSunwaiLedgerEntry → List JanSunwaiLedgerEntry → JanSunwaiLedgerEntry
last_of e [] = e
last_of e (f ∷ es) = last_of f es

-- `t + a - b` on times.
abbrev shift : ℕ → ℕ → ℕ → Option ℕ
shift t a b = if ltb (t + a) b then none else some (t + a - b)

-- The sequence number, the previous hash, the published place and time of the next checkpoint: new
-- noise for the first, the place and the time offset of the first for each later one.
pub record Position : Type 0 where
  pub sequence_num : ℕ
  pub prev_hash : Text
  pub place : Point
  pub timestamp : Option ℕ
  -- The offset of the `datetime` that is hashed: a sum has that of its first operand.
  pub offset : ℕ

unfoldable pub next_position : Noise → Milestone → Case → List JanSunwaiLedgerEntry → Position
next_position noise m c [] = record {
  sequence_num = 0;
  prev_hash = genesis_prev_hash;
  place = noise.place;
  timestamp = shift c.created_at noise.ahead noise.back;
  offset = (in_utc c.created_at).offset;
}
next_position noise m c (e ∷ es) = record {
  sequence_num = (last_of e es).sequence_num + 1;
  prev_hash = (last_of e es).entry_hash;
  place = e.dp_geom;
  timestamp = shift m.base_time.instant e.dp_timestamp c.created_at;
  offset = m.base_time.offset;
}

-- The row as the database has it.
unfoldable pub new_entry : Platform → Milestone → Case → Position → ℕ → JanSunwaiLedgerEntry
new_entry pf m c p timestamp = record {
  organization_id = c.organization_id;
  incident_id = c.id;
  sequence_num = p.sequence_num;
  public_tracking_code = pf.tracking_code c.id;
  category_code = c.category_code;
  department_id = c.department_id;
  ward_id = c.ward_id;
  dp_geom = record { lon = pf.stored p.place.lon; lat = pf.stored p.place.lat };
  dp_timestamp = timestamp;
  lifecycle_status = m.lifecycle_status;
  sla_status = m.sla_status;
  predicted_eta_hours = m.predicted_eta_hours;
  resolution_media_count = m.resolution_media_count;
  is_appealed = m.is_appealed;
  prev_hash = p.prev_hash;
  entry_hash =
      compute_entry_hash pf p.prev_hash c.id p.sequence_num m.lifecycle_status p.place
        (record { instant = timestamp; offset = p.offset }) (pf.tracking_code c.id);
}

-- `uq_ledger_incident_seq` and `uq_ledger_incident_status`
abbrev pub clashes : JanSunwaiLedgerEntry → JanSunwaiLedgerEntry → Bool
clashes e f =
    e.incident_id == f.incident_id
    && (e.sequence_num == f.sequence_num || text_eq e.lifecycle_status f.lifecycle_status)

-- The entries of an incident in their order.
abbrev pub chain_of : ℕ → LedgerDb → List JanSunwaiLedgerEntry
chain_of id db = sort (select (λ e. e.incident_id == id) db.entries)

abbrev pub add_entry : JanSunwaiLedgerEntry → LedgerDb → LedgerResult
add_entry e db =
    if any (clashes e) db.entries
    then failed LedgerError.integrity_error
    else recorded e (record db { entries = db.entries ++ e ∷ [] })

-- The checkpoint at this position, if its time is one.
abbrev pub record_at : Platform → Milestone → Case → LedgerDb → Position → LedgerResult
record_at pf m c db p = elim p.timestamp [
  | none ↦ failed LedgerError.overflow
  | some timestamp ↦ add_entry (new_entry pf m c p timestamp) db
]

unfoldable pub record_ledger_checkpoint : Platform → Noise → Milestone → ℕ → LedgerDb → LedgerResult
record_ledger_checkpoint pf noise m id db = elim (find (λ c. c.id == id) db.cases) [
  | none ↦ failed LedgerError.incident_not_found
  | some c ↦ record_at pf m c db (next_position noise m c (chain_of id db))
]

-- The answer of `verify_incident_ledger_chain`.
pub data Verdict : Type 0 where
  valid : Verdict
  sequence_gap : ℕ → ℕ → Verdict
  prev_mismatch : ℕ → Verdict
  tampered : ℕ → Verdict

abbrev pub recompute : Platform → JanSunwaiLedgerEntry → Text
recompute pf e =
    compute_entry_hash pf e.prev_hash e.incident_id e.sequence_num e.lifecycle_status e.dp_geom
      (in_utc e.dp_timestamp) e.public_tracking_code

-- The loop, from index `i` with the hash that the entry there should follow.
unfoldable pub check_from : Platform → ℕ → Text → List JanSunwaiLedgerEntry → Verdict
check_from pf i expected_prev [] = valid
check_from pf i expected_prev (e ∷ es) =
    let rest = check_from pf (suc i) e.entry_hash es in
    if not (e.sequence_num == i)
    then sequence_gap i e.sequence_num
    else if not (text_eq e.prev_hash expected_prev)
    then prev_mismatch i
    else if not (text_eq e.entry_hash (recompute pf e))
    then tampered i
    else rest

unfoldable pub verify_incident_ledger_chain : Platform → List JanSunwaiLedgerEntry → Verdict
verify_incident_ledger_chain pf entries = check_from pf 0 genesis_prev_hash (sort entries)
