-- ===== src/Transparency/Ledger/Chain.antt =====
-- About the chain of checkpoints of civicbrain/domain/transparency/services.py.
use civicbrain_v.Base.{
  ℕ, suc, ◌+◌, ◌≤◌, ◌<◌, List, [], ◌∷◌, ◌++◌, true, false, some, ◌==◌, ◌≡◌, refl, sym, ◌∙◌, ap,
  subst, arith, All, All-map, find, select, select-append, Bool-cases, Option-cases, inl, inr,
  find-key, ==_iff,
}
use civicbrain_v.Text.{Text, text_eq, text_eq_refl}
use civicbrain_v.Geo.{Point}
use civicbrain_v.Transparency.Ledger.{
  genesis_prev_hash, compute_entry_hash, sort, Milestone, Noise, recorded, last_of, Position,
  next_position, new_entry, chain_of, record_ledger_checkpoint, valid, recompute, check_from,
  verify_incident_ledger_chain,
}
use civicbrain_v.Transparency.Models.{
  Platform, IsFaithful, DateTime, Case, JanSunwaiLedgerEntry, LedgerDb,
}
use civicbrain_v.Transparency.Ledger.Sorting.{sort-All, sort-append}

-- An entry that passes the three tests.
abbrev pub IsLinked : Platform → ℕ → Text → JanSunwaiLedgerEntry → Type 0
IsLinked pf i prev e =
    (e.sequence_num ≡ i)
    × (text_eq e.prev_hash prev ≡ true)
    × (text_eq e.entry_hash (recompute pf e) ≡ true)

pub check-cons :
    (pf : Platform) (i : ℕ) (prev : Text) (e : JanSunwaiLedgerEntry)
    (es : List JanSunwaiLedgerEntry)
    → check_from pf i prev (e ∷ es) ≡ valid
    → IsLinked pf i prev e × (check_from pf (suc i) e.entry_hash es ≡ valid)
unfolding check_from
check-cons pf i prev e es h = ground arith

check-build :
    (pf : Platform) (i : ℕ) (prev : Text) (e : JanSunwaiLedgerEntry)
    (es : List JanSunwaiLedgerEntry)
    → IsLinked pf i prev e
    → check_from pf (suc i) e.entry_hash es ≡ valid
    → check_from pf i prev (e ∷ es) ≡ valid
unfolding check_from
check-build pf i prev e es (a, b, c) h = ground arith

-- The entries of a chain that verifies are numbered from the start.
check-below :
    (pf : Platform) (i : ℕ) (prev : Text) (e : JanSunwaiLedgerEntry)
    (es : List JanSunwaiLedgerEntry)
    → check_from pf i prev (e ∷ es) ≡ valid
    → All (λ f. f.sequence_num ≤ (last_of e es).sequence_num) (e ∷ es)
      × (i ≤ (last_of e es).sequence_num)
check-below pf i prev e [] h =
    let ((a, _, _), _) = check-cons pf i prev e [] h in ((omega arith, tt), omega arith)
check-below pf i prev e (f ∷ es) h =
    let ((a, _, _), rest) = check-cons pf i prev e (f ∷ es) h in
    let (below, above) = check-below pf (suc i) e.entry_hash f es rest in
    ((omega arith, below), omega arith)

check-append :
    (pf : Platform) (i : ℕ) (prev : Text) (e : JanSunwaiLedgerEntry)
    (es : List JanSunwaiLedgerEntry) (n : JanSunwaiLedgerEntry)
    → check_from pf i prev (e ∷ es) ≡ valid
    → IsLinked pf ((last_of e es).sequence_num + 1) (last_of e es).entry_hash n
    → check_from pf i prev ((e ∷ es) ++ n ∷ []) ≡ valid
unfolding check_from
check-append pf i prev e [] n h (seq, link, hash) =
    let (good, _) = check-cons pf i prev e [] h in
    check-build pf i prev e (n ∷ []) good
      (check-build pf (suc i) e.entry_hash n [] (omega (arith, good.0), link, hash) refl)
check-append pf i prev e (f ∷ es) n h good_n =
    let (good, rest) = check-cons pf i prev e (f ∷ es) h in
    check-build pf i prev e (f ∷ es ++ n ∷ []) good
      (check-append pf (suc i) e.entry_hash f es n rest good_n)

module _ (pf : Platform) (faithful : IsFaithful pf) (m : Milestone) (c : Case) where
  hash-stored :
      (prev : Text) (id seq : ℕ) (status : Text) (q : Point) (t : DateTime) (code : Text)
      → compute_entry_hash pf prev id seq status q t code
        ≡ compute_entry_hash pf prev id seq status
            (record { lon = pf.stored q.lon; lat = pf.stored q.lat })
            t
            code
  unfolding compute_entry_hash
  hash-stored prev id seq status q t code =
      rw (faithful q.lon, faithful q.lat, compute_entry_hash) refl

  -- The stored entry hashes to what was computed before it was stored.
  new_entry-recompute :
      (p : Position) (t : ℕ)
      → p.offset ≡ 0
      → (new_entry pf m c p t).entry_hash ≡ recompute pf (new_entry pf m c p t)
  unfolding new_entry
  new_entry-recompute p t utc =
      hash-stored p.prev_hash c.id p.sequence_num m.lifecycle_status p.place
        (record { instant = t; offset = p.offset }) (pf.tracking_code c.id)
      ∙ ap
          (λ (o : ℕ).
            compute_entry_hash pf p.prev_hash c.id p.sequence_num m.lifecycle_status
              (record { lon = pf.stored p.place.lon; lat = pf.stored p.place.lat })
              (record { instant = t; offset = o }) (pf.tracking_code c.id))
          utc

  new-IsLinked :
      (p : Position) (t : ℕ)
      → p.offset ≡ 0
      → IsLinked pf p.sequence_num p.prev_hash (new_entry pf m c p t)
  unfolding new_entry
  new-IsLinked p t utc = (
    refl,
    text_eq_refl p.prev_hash,
    subst (λ h. text_eq (new_entry pf m c p t).entry_hash h ≡ true) (new_entry-recompute p t utc)
        (text_eq_refl (new_entry pf m c p t).entry_hash),
  )

  -- The next entry of a chain that verifies, put behind it.
  next-valid :
      (noise : Noise) (t : ℕ) (chain : List JanSunwaiLedgerEntry)
      → m.base_time.offset ≡ 0
      → check_from pf 0 genesis_prev_hash chain ≡ valid
      → (check_from pf 0 genesis_prev_hash
            (chain ++ new_entry pf m c (next_position noise m c chain) t ∷ [])
          ≡ valid)
        × All (λ e. e.sequence_num < (next_position noise m c chain).sequence_num) chain
  unfolding next_position check_from
  next-valid noise t [] utc h =
      let p = next_position noise m c [] in
      let n = new_entry pf m c p t in
      (check-build pf 0 genesis_prev_hash n [] (new-IsLinked p t refl) refl, tt)
  next-valid noise t (e ∷ es) utc h =
      let p = next_position noise m c (e ∷ es) in
      (
        check-append pf 0 genesis_prev_hash e es (new_entry pf m c p t) h (new-IsLinked p t utc),
        All-map (λ f. f.sequence_num ≤ (last_of e es).sequence_num)
            (λ f. f.sequence_num < (last_of e es).sequence_num + 1) (λ f q. omega arith) (e ∷ es)
            (check-below pf 0 genesis_prev_hash e es h).0,
      )

-- A checkpoint that is recorded.
pub record_ledger_checkpoint-eq-recorded :
    (pf : Platform) (noise : Noise) (m : Milestone) (id : ℕ) (db : LedgerDb)
    {e : JanSunwaiLedgerEntry} {db' : LedgerDb}
    → record_ledger_checkpoint pf noise m id db ≡ recorded e db'
    → (c : Case) × (t : ℕ) × (find (λ c. c.id == id) db.cases ≡ some c)
      × ((next_position noise m c (chain_of id db)).timestamp ≡ some t)
      × (e ≡ new_entry pf m c (next_position noise m c (chain_of id db)) t)
      × (db' ≡ record db { entries = db.entries ++ e ∷ [] })
unfolding record_ledger_checkpoint
record_ledger_checkpoint-eq-recorded pf noise m id db {e} {db'} h =
    elim (Option-cases (find (λ c. c.id == id) db.cases)) [
      | inl q ↦ ground arith
      | inr (c, q) ↦ elim (Option-cases (next_position noise m c (chain_of id db)).timestamp) [
        | inl r ↦ ground arith
        | inr (t, r) ↦ (c, t, q, r, ground arith, ground arith)
      ]
    ]

-- Every incident's chain verifies.
abbrev pub IsValid : Platform → LedgerDb → Type 0
IsValid pf db =
    (id : ℕ)
    → verify_incident_ledger_chain pf (select (λ e. e.incident_id == id) db.entries) ≡ valid

add-own :
    (e : JanSunwaiLedgerEntry) (id : ℕ) (es : List JanSunwaiLedgerEntry)
    → e.incident_id ≡ id
    → All (λ f. f.sequence_num < e.sequence_num) (sort (select (λ f. f.incident_id == id) es))
    → sort (select (λ f. f.incident_id == id) (es ++ e ∷ []))
      ≡ sort (select (λ f. f.incident_id == id) es) ++ e ∷ []
add-own e id es own below =
    let mine : (e.incident_id == id) ≡ true = ground arith in
    ap sort (select-append (λ f. f.incident_id == id) es (e ∷ []) ∙ rw mine refl)
    ∙ sort-append e (select (λ f. f.incident_id == id) es) (
        sort-All (λ f. f.sequence_num < e.sequence_num) (select (λ f. f.incident_id == id) es)
          below)

append-nil : (es : List JanSunwaiLedgerEntry) → es ++ [] ≡ es
append-nil [] = refl
append-nil (e ∷ es) = ap (λ (l : List JanSunwaiLedgerEntry). e ∷ l) (append-nil es)

add-other :
    (e : JanSunwaiLedgerEntry) (k : ℕ) (es : List JanSunwaiLedgerEntry)
    → (e.incident_id == k) ≡ false
    → select (λ f. f.incident_id == k) (es ++ e ∷ []) ≡ select (λ f. f.incident_id == k) es
add-other e k es h = select-append (λ f. f.incident_id == k) es (e ∷ []) ∙ rw h (append-nil _)

-- If the chain of every incident verifies, it still does after a checkpoint has been recorded for
-- any of them, provided that the milestone's time is given in UTC and that a coordinate with six
-- decimals prints the same when it is read back.
pub record_ledger_checkpoint-IsValid :
    (pf : Platform) (noise : Noise) (m : Milestone) (id : ℕ) (db : LedgerDb)
    {e : JanSunwaiLedgerEntry} {db' : LedgerDb}
    → IsFaithful pf
    → m.base_time.offset ≡ 0
    → IsValid pf db
    → record_ledger_checkpoint pf noise m id db ≡ recorded e db'
    → IsValid pf db'
unfolding verify_incident_ledger_chain new_entry
record_ledger_checkpoint-IsValid pf noise m id db {e} {db'} faithful utc h q k =
    let (c, t, found, _, made, eq) = record_ledger_checkpoint-eq-recorded pf noise m id db q in
    let key = find-key (λ (c : Case). c.id == id) db.cases found in
    let own : e.incident_id ≡ id =
      ap (λ (f : JanSunwaiLedgerEntry). f.incident_id) made ∙ (==_iff c.id id).0 key in
    let (good, below) = next-valid pf faithful m c noise t (chain_of id db) utc (h id) in
    let last : All (λ f. f.sequence_num < e.sequence_num) (chain_of id db) =
      rw (ap (λ (f : JanSunwaiLedgerEntry). f.sequence_num) made) below in
    elim (Bool-cases (e.incident_id == k)) [
      | inl mine ↦
          subst
            (λ j.
              verify_incident_ledger_chain pf (select (λ f. f.incident_id == j) db'.entries)
              ≡ valid)
            (sym own ∙ (==_iff e.incident_id k).0 mine)
            (rw (eq, add-own e id db.entries own last, made) good)
      | inr other ↦ rw (eq, add-other e k db.entries other) (h k)
    ]
