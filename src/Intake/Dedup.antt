-- ===== src/Intake/Dedup.antt =====
-- evaluate_splink_record_linkage of civicbrain/domain/intake/dedup.py. The code adds logarithms to
-- base 2 of odds and raises 2.0 to the sum; here the odds are multiplied as exact fractions. A
-- length or a time is in millionths, of a metre or a second.
pub mod Votes
use civicbrain_v.Base.{ℕ, ◌+◌, ◌*◌, Bool, leb, arith, if◌then◌else◌}
use civicbrain_v.Intake.Models.{DedupDecision}
use civicbrain_v.Intake.Fractions.{Fraction, times, at_least_percent, IsPositive}

abbrev million : ℕ
million = 1000000

-- `COLD_START_PARAMS`
abbrev pub is_close : ℕ → Bool
is_close distance = leb distance (15 * million)

abbrev pub is_near : ℕ → Bool
is_near distance = leb distance (50 * million)

abbrev pub is_recent : ℕ → Bool
is_recent diff = leb diff (72 * (3600 * million))

abbrev pub is_similar : Fraction → Bool
is_similar = at_least_percent 80

abbrev pub spatial_odds : Bool → Bool → Fraction
spatial_odds close near =
    if close
    then record { num = 85; den = 1 }
    else if near
    then record { num = 60; den = 5 }
    else record { num = 5; den = 94 }

abbrev pub time_odds : Bool → Fraction
time_odds recent = if recent then record { num = 90; den = 10 } else record { num = 10; den = 90 }

abbrev pub category_odds : Bool → Fraction
category_odds same = if same then record { num = 95; den = 5 } else record { num = 5; den = 95 }

abbrev pub text_odds : Bool → Fraction
text_odds similar = if similar then record { num = 70; den = 2 } else record { num = 30; den = 98 }

abbrev pub prior_odds : Fraction
prior_odds = record { num = 5; den = 95 }

-- `odds / (1.0 + odds)`, which clamping to 0 and 1 leaves as it is.
abbrev pub posterior : Fraction → Fraction
posterior odds = record { num = odds.num; den = odds.den + odds.num }

abbrev pub decision_of : Fraction → DedupDecision
decision_of p =
    if at_least_percent 85 p
    then DedupDecision.exact_match
    else if at_least_percent 50 p
    then DedupDecision.probable_match
    else DedupDecision.distinct

-- What the code returns, the total weight as the odds of which it is the logarithm.
pub record Evaluation : Type 0 where
  pub total_odds : Fraction
  pub posterior_prob : Fraction
  pub decision : DedupDecision

abbrev pub total_odds_of : Bool → Bool → Bool → Bool → Bool → Fraction
total_odds_of close near recent same similar =
    times (times (times (spatial_odds close near) (time_odds recent)) (category_odds same))
      (text_odds similar)

unfoldable pub evaluate_splink_record_linkage : ℕ → ℕ → Bool → Fraction → Evaluation
evaluate_splink_record_linkage distance diff category_match similarity =
    let total =
      total_odds_of (is_close distance) (is_near distance) (is_recent diff) category_match
        (is_similar similarity) in
    let p = posterior (times prior_odds total) in
    record { total_odds = total; posterior_prob = p; decision = decision_of p }

posterior-IsPositive :
    (close near recent same similar : Bool)
    → IsPositive (posterior (times prior_odds (total_odds_of close near recent same similar)))
posterior-IsPositive close near recent same similar = ground arith

pub evaluate_splink_record_linkage-IsPositive :
    (distance diff : ℕ) (same : Bool) (similarity : Fraction)
    → IsPositive (evaluate_splink_record_linkage distance diff same similarity).posterior_prob
unfolding evaluate_splink_record_linkage
evaluate_splink_record_linkage-IsPositive distance diff same similarity =
    posterior-IsPositive (is_close distance) (is_near distance) (is_recent diff) same
      (is_similar similarity)
