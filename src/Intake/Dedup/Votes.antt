-- ===== src/Intake/Dedup/Votes.antt =====
-- What evaluate_splink_record_linkage of civicbrain/domain/intake/dedup.py decides, counted in
-- agreements.
use civicbrain_v.Base.{ℕ, ◌+◌, Bool, ◌&&◌, ◌||◌, leb, if◌then◌else◌, ◌≡◌, arith}
use civicbrain_v.Intake.Models.{DedupDecision}
use civicbrain_v.Intake.Fractions.{Fraction, times}
use civicbrain_v.Intake.Dedup.{
  decision_of, posterior, prior_odds, total_odds_of, is_close, is_near, is_recent, is_similar,
  evaluate_splink_record_linkage,
}

abbrev vote : Bool → ℕ
vote b = if b then 1 else 0

-- Place, time, category and text: where at least three agree, a place within 50 m, and where the
-- category agrees and the place is within 15 m.
abbrev pub verdict : Bool → Bool → Bool → Bool → Bool → DedupDecision
verdict close near recent same similar =
    if leb 3 (vote (close || near) + vote recent + vote same + vote similar)
    then DedupDecision.exact_match
    else if same && close
    then DedupDecision.probable_match
    else DedupDecision.distinct

decision_of-verdict :
    (close near recent same similar : Bool)
    → decision_of (posterior (times prior_odds (total_odds_of close near recent same similar)))
      ≡ verdict close near recent same similar
decision_of-verdict close near recent same similar = ground arith

-- Two reports are an exact match where at least three of the four agree: a distance of at most 50 m,
-- a difference of at most 72 hours, the category, and a text similarity of at least 0.80. They are a
-- probable match where fewer agree, but the category does and they are within 15 m. Otherwise they
-- are distinct; no score leads to a manual review.
pub evaluate_splink_record_linkage-verdict :
    (distance diff : ℕ) (same : Bool) (similarity : Fraction)
    → (evaluate_splink_record_linkage distance diff same similarity).decision
      ≡ verdict (is_close distance) (is_near distance) (is_recent diff) same (is_similar similarity)
unfolding evaluate_splink_record_linkage
evaluate_splink_record_linkage-verdict distance diff same similarity =
    decision_of-verdict (is_close distance) (is_near distance) (is_recent diff) same
      (is_similar similarity)
