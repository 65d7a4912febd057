-- ===== src/Intake/Fractions.antt =====
-- Exact fractions, which stand for the floats of civicbrain/domain/intake/dedup.py.
use native.Mathlib.Nat.{mul-le-mul_left, mul-lt-mul_of_pos_left, lt_of_mul-lt-mul_left}
use civicbrain_v.Base.{
  ℕ, ◌*◌, ◌≤◌, ◌<◌, Bool, true, false, ltb, leb, ◌≡◌, arith, Bool-cases, inl, inr,
}

pub record Fraction : Type 0 where
  pub num : ℕ
  pub den : ℕ

abbrev pub times : Fraction → Fraction → Fraction
times p q = record { num = p.num * q.num; den = p.den * q.den }

-- `p >= n / 100`
abbrev pub at_least_percent : ℕ → Fraction → Bool
at_least_percent n p = leb (n * p.den) (100 * p.num)

-- `p > q`
abbrev pub exceeds : Fraction → Fraction → Bool
exceeds p q = ltb (q.num * p.den) (p.num * q.den)

-- a / b < c / d and c / d ≤ e / f give a / b < e / f.
cross_lt : (a b c d e f : ℕ) → 0 < d → 0 < f → a * d < c * b → c * f ≤ e * d → a * f < e * b
cross_lt a b c d e f pd pf h k =
    let left : f * (a * d) < f * (c * b) = mul-lt-mul_of_pos_left h pf in
    let right : b * (c * f) ≤ b * (e * d) = mul-le-mul_left b k in
    lt_of_mul-lt-mul_left d (omega arith)

abbrev pub IsPositive : Fraction → Type 0
IsPositive p = 0 < p.den

module _ (p q r : Fraction) where
  pub exceeds_trans :
      IsPositive q → IsPositive r → exceeds r q ≡ true → exceeds q p ≡ true → exceeds r p ≡ true
  exceeds_trans q_pos r_pos h k =
      let chained =
        cross_lt p.num p.den q.num q.den r.num r.den q_pos r_pos (ground arith) (ground arith) in
      ground arith

  -- What does not exceed p does not exceed a fraction that exceeds p.
  pub exceeds_above :
      IsPositive q → IsPositive r → exceeds q p ≡ true → exceeds r p ≡ false → exceeds r q ≡ false
  exceeds_above q_pos r_pos h k = elim (Bool-cases (exceeds r q)) [
    | inl e ↦ let above = exceeds_trans q_pos r_pos e h in cc
    | inr e ↦ e
  ]

pub exceeds_asym : (p q : Fraction) → exceeds q p ≡ true → exceeds p q ≡ false
exceeds_asym p q h = ground arith
