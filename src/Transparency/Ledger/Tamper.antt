-- ===== src/Transparency/Ledger/Tamper.antt =====
-- About verify_incident_ledger_chain of civicbrain/domain/transparency/services.py and two chains
-- that end in one hash.
use civicbrain_v.Base.{
  ℕ, suc, List, [], ◌∷◌, ◌++◌, true, ◌≡◌, ◌≢◌, refl, sym, ◌∙◌, ap, subst, ◌⊎◌, inl, inr, arith,
  Bool-cases, length,
}
use civicbrain_v.Text.{Text, text_eq, text_eq_refl, eq_of_text_eq}
use civicbrain_v.Transparency.Models.{Platform, in_utc, JanSunwaiLedgerEntry}
use civicbrain_v.Transparency.Ledger.{
  genesis_prev_hash, fields, compute_entry_hash, insert, sort, valid, recompute, check_from,
  verify_incident_ledger_chain,
}
use civicbrain_v.Transparency.Ledger.Chain.{IsLinked, check-cons}

abbrev fields_of : Platform → JanSunwaiLedgerEntry → Text
fields_of pf e =
    fields pf e.incident_id e.sequence_num e.lifecycle_status e.dp_geom (in_utc e.dp_timestamp)
      e.public_tracking_code

-- What is hashed of an entry.
abbrev pub payload_of : Platform → JanSunwaiLedgerEntry → Text
payload_of pf e = e.prev_hash ++ fields_of pf e

-- Two texts with one hash.
abbrev pub Collision : Platform → Type 0
Collision pf = (a : Text) × (b : Text) × (a ≢ b) × (pf.sha256 a ≡ pf.sha256 b)

-- The two lists have one length, and what is hashed is the same at each place.
abbrev pub SamePayloads : Platform → List JanSunwaiLedgerEntry → List JanSunwaiLedgerEntry → Type 0
SamePayloads pf [] [] = Unit
SamePayloads pf [] (_ ∷ _) = ⊥
SamePayloads pf (_ ∷ _) [] = ⊥
SamePayloads pf (e ∷ es) (f ∷ fs) = (payload_of pf e ≡ payload_of pf f) × SamePayloads pf es fs

-- The hash that a chain ends in.
abbrev pub last_hash : Text → List JanSunwaiLedgerEntry → Text
last_hash h [] = h
last_hash h (e ∷ es) = last_hash e.entry_hash es

append-prefix : (a b c d : Text) → length a ≡ length b → a ++ c ≡ b ++ d → a ≡ b
append-prefix [] [] c d h e = refl
append-prefix [] (y ∷ b) c d h e = absurd (omega arith)
append-prefix (x ∷ a) [] c d h e = absurd (omega arith)
append-prefix (x ∷ a) (y ∷ b) c d h e =
    let heads : x ≡ y = cc in
    let tails = append-prefix a b c d (omega arith) cc in rw (heads, tails) refl

entry_hash-sha :
    (pf : Platform) (i : ℕ) (prev : Text) (e : JanSunwaiLedgerEntry)
    → IsLinked pf i prev e
    → e.entry_hash ≡ pf.sha256 (payload_of pf e)
unfolding compute_entry_hash
entry_hash-sha pf i prev e (_, _, h) = eq_of_text_eq e.entry_hash (recompute pf e) h

module _ (pf : Platform) (sized : (t : Text) → length (pf.sha256 t) ≡ 64) where
  check-commits :
      (i : ℕ) (p q : Text) (xs ys : List JanSunwaiLedgerEntry)
      → length p ≡ 64
      → length q ≡ 64
      → check_from pf i p xs ≡ valid
      → check_from pf i q ys ≡ valid
      → length xs ≡ length ys
      → last_hash p xs ≡ last_hash q ys
      → Collision pf ⊎ ((p ≡ q) × SamePayloads pf xs ys)
  check-commits i p q [] [] lp lq gx gy n e = inr (e, tt)
  check-commits i p q [] (y ∷ ys) lp lq gx gy n e = absurd (omega arith)
  check-commits i p q (x ∷ xs) [] lp lq gx gy n e = absurd (omega arith)
  check-commits i p q (x ∷ xs) (y ∷ ys) lp lq gx gy n e =
      let (lx, rest_x) = check-cons pf i p x xs gx in
      let (ly, rest_y) = check-cons pf i q y ys gy in
      let hx = entry_hash-sha pf i p x lx in
      let hy = entry_hash-sha pf i q y ly in
      let px = eq_of_text_eq x.prev_hash p lx.1 in
      let py = eq_of_text_eq y.prev_hash q ly.1 in
      elim (check-commits (suc i) x.entry_hash y.entry_hash xs ys (rw hx (sized (payload_of pf x)))
        (rw hy (sized (payload_of pf y))) rest_x rest_y (omega arith) e) [
          | inl c ↦ inl c
          | inr (same, rest) ↦ elim (Bool-cases (text_eq (payload_of pf x) (payload_of pf y))) [
            | inl t ↦
                let one = eq_of_text_eq (payload_of pf x) (payload_of pf y) t in
                inr (
                  sym px
                      ∙ append-prefix x.prev_hash y.prev_hash (fields_of pf x) (fields_of pf y)
                          (rw (px, py) (lp ∙ sym lq)) one
                      ∙ py,
                  (one, rest),
                )
            | inr t ↦ inl (
              payload_of pf x,
              payload_of pf y,
              (λ one.
                  let u =
                    subst (λ z. text_eq (payload_of pf x) z ≡ true) one
                      (text_eq_refl (payload_of pf x)) in
                  cc),
              sym hx ∙ same ∙ hy,
            )
          ]
        ]

length-insert :
    (e : JanSunwaiLedgerEntry) (es : List JanSunwaiLedgerEntry)
    → length (insert e es) ≡ suc (length es)
unfolding insert
length-insert e [] = refl
length-insert e (f ∷ es) = ground (arith, length-insert e es)

length-sort : (es : List JanSunwaiLedgerEntry) → length (sort es) ≡ length es
unfolding sort
length-sort [] = refl
length-sort (e ∷ es) = length-insert e (sort es) ∙ ap suc (length-sort es)

-- Where a hash has 64 characters, two lists of entries of one length that both verify and end in
-- the same hash have hashed the same text at every place, or else SHA-256 has a collision, which
-- is given: the last hash commits to the whole chain.
pub verify_incident_ledger_chain_commits :
    (pf : Platform) (xs ys : List JanSunwaiLedgerEntry)
    → ((t : Text) → length (pf.sha256 t) ≡ 64)
    → verify_incident_ledger_chain pf xs ≡ valid
    → verify_incident_ledger_chain pf ys ≡ valid
    → length xs ≡ length ys
    → last_hash genesis_prev_hash (sort xs) ≡ last_hash genesis_prev_hash (sort ys)
    → Collision pf ⊎ SamePayloads pf (sort xs) (sort ys)
unfolding verify_incident_ledger_chain
verify_incident_ledger_chain_commits pf xs ys sized gx gy n e =
    elim (check-commits pf sized 0 genesis_prev_hash genesis_prev_hash (sort xs) (sort ys) refl refl
      gx gy (length-sort xs ∙ n ∙ sym (length-sort ys)) e) [
        | inl c ↦ inl c
        | inr (_, same) ↦ inr same
      ]
