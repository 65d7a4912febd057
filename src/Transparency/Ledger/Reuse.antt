-- ===== src/Transparency/Ledger/Reuse.antt =====
-- About the noise of the checkpoints of civicbrain/domain/transparency/services.py.
use civicbrain_v.Base.{
  ℕ, ◌+◌, List, ◌∷◌, some, ◌==◌, ◌≡◌, refl, sym, ◌∙◌, ap, arith, find, Option-cases, inl, inr,
}
use civicbrain_v.Geo.{Point}
use civicbrain_v.Transparency.Ledger.{
  Milestone, Noise, recorded, Position, next_position, new_entry, chain_of, record_at,
  record_ledger_checkpoint, shift,
}
use civicbrain_v.Transparency.Models.{Platform, IsFaithful, Case, JanSunwaiLedgerEntry, LedgerDb}
use civicbrain_v.Transparency.Ledger.Chain.{record_ledger_checkpoint-eq-recorded}

module _ (m : Milestone) (c : Case) (first : JanSunwaiLedgerEntry)
    (rest : List JanSunwaiLedgerEntry) (chain : List JanSunwaiLedgerEntry)
    (starts : chain ≡ first ∷ rest) where
  later_position :
      (noise fresh : Noise) → next_position noise m c chain ≡ next_position fresh m c chain
  unfolding next_position
  later_position noise fresh = rw starts refl

  later_place : (noise : Noise) → (next_position noise m c chain).place ≡ first.dp_geom
  unfolding next_position
  later_place noise = rw starts refl

  later_timestamp :
      (noise : Noise)
      → (next_position noise m c chain).timestamp
        ≡ shift m.base_time.instant first.dp_timestamp c.created_at
  unfolding next_position
  later_timestamp noise = rw starts refl

shift-eq-some : (t a b : ℕ) {u : ℕ} → shift t a b ≡ some u → u + b ≡ t + a
shift-eq-some t a b h = grind arith

record-noise :
    (pf : Platform) (noise fresh : Noise) (m : Milestone) (id : ℕ) (db : LedgerDb)
    → ((c : Case)
        → next_position noise m c (chain_of id db) ≡ next_position fresh m c (chain_of id db))
    → record_ledger_checkpoint pf fresh m id db ≡ record_ledger_checkpoint pf noise m id db
unfolding record_ledger_checkpoint
record-noise pf noise fresh m id db same = elim (Option-cases (find (λ c. c.id == id) db.cases)) [
  | inl q ↦ rw (q, record_ledger_checkpoint) refl
  | inr (c, q) ↦ rw (q, record_ledger_checkpoint) (ap (record_at pf m c db) (sym (same c)))
]

new_entry-lon :
    (pf : Platform) (m : Milestone) (c : Case) (p : Position) (t : ℕ)
    → ((new_entry pf m c p t).dp_geom.lon ≡ pf.stored p.place.lon)
      × ((new_entry pf m c p t).dp_geom.lat ≡ pf.stored p.place.lat)
      × ((new_entry pf m c p t).dp_timestamp ≡ t)
unfolding new_entry
new_entry-lon pf m c p t = (refl, refl, refl)

-- After its first checkpoint an incident draws no more noise: a checkpoint that is recorded does
-- not depend on it, the published place prints as that of the first checkpoint, and the published
-- time is as far from the milestone's as the first one's from the incident's creation, provided
-- that a coordinate with six decimals prints the same when it is read back.
pub record_ledger_checkpoint_reuses :
    (pf : Platform) (noise fresh : Noise) (m : Milestone) (id : ℕ) (db : LedgerDb)
    {e first : JanSunwaiLedgerEntry} {rest : List JanSunwaiLedgerEntry} {db' : LedgerDb}
    → IsFaithful pf
    → chain_of id db ≡ first ∷ rest
    → record_ledger_checkpoint pf noise m id db ≡ recorded e db'
    → (record_ledger_checkpoint pf fresh m id db ≡ recorded e db')
      × (pf.show_coordinate e.dp_geom.lon ≡ pf.show_coordinate first.dp_geom.lon)
      × (pf.show_coordinate e.dp_geom.lat ≡ pf.show_coordinate first.dp_geom.lat)
      × ((c : Case) × (find (λ c. c.id == id) db.cases ≡ some c)
          × (e.dp_timestamp + c.created_at ≡ m.base_time.instant + first.dp_timestamp))
record_ledger_checkpoint_reuses pf noise fresh m id db {e} {first} {rest} faithful chain q =
    let (c, t, found, r, made, eq) = record_ledger_checkpoint-eq-recorded pf noise m id db q in
    let all = chain_of id db in
    let p = next_position noise m c all in
    let (lon, lat, time) = new_entry-lon pf m c p t in
    let place = later_place m c first rest all chain noise in
    let gap =
      shift-eq-some m.base_time.instant first.dp_timestamp c.created_at
        (sym (later_timestamp m c first rest all chain noise) ∙ r) in
    (
      record-noise pf noise fresh m id db (λ d. later_position m d first rest all chain noise fresh)
          ∙ q,
      rw (made, lon) (faithful p.place.lon ∙ ap (λ (x : Point). pf.show_coordinate x.lon) place),
      rw (made, lat) (faithful p.place.lat ∙ ap (λ (x : Point). pf.show_coordinate x.lat) place),
      (c, found, rw (made, time) gap),
    )
