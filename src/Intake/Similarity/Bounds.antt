-- ===== src/Intake/Similarity/Bounds.antt =====
-- About calculate_jaro_winkler_similarity of civicbrain/domain/intake/dedup.py: it ends with a number
-- from 0 to 1.
use native.Mathlib.Nat.{mul-le-mul_left, mul-pos}
use civicbrain_v.Base.{
  ℕ, zero, suc, [], ◌∷◌, ◌+◌, ◌-◌, ◌*◌, ◌/◌, ◌≤◌, ◌<◌, Bool, true, false, ◌&&◌, ◌||◌, not, ◌==◌,
  if◌then◌else◌, length, some, ◌≡◌, refl, arith, Bool-cases, inl, inr, ◌⊎◌, leb, subst, sym,
}
use civicbrain_v.Text.{Text, is_empty, text_eq}
use civicbrain_v.Text.Strip.{strip}
use civicbrain_v.Intake.Fractions.{Fraction}
use civicbrain_v.Intake.Similarity.{
  Flagged, Claim, unclaimed, claimed, keep, claim, window_start, window_width, match_from, matches,
  next_match, transpositions, prefix_len, min, jaro, winkler, unflagged, max, compare_texts,
  calculate_jaro_winkler_similarity, zero_fraction, one_fraction,
}

-- A search that stays within the text: it finds nothing, or flags one character more and keeps the
-- number of characters.
abbrev InRange : Claim → Flagged → Type 0
InRange o s =
    (o ≡ unclaimed)
    ⊎ ((s' : Flagged) × (o ≡ claimed s') × (matches s' ≡ matches s + 1) × (length s' ≡ length s))

InRange-keep :
    (d : ℕ) (used : Bool) (o : Claim) (s : Flagged)
    → InRange o s
    → InRange (keep (d, used) o) ((d, used) ∷ s)
unfolding matches
InRange-keep d used o s (inl e) = inl (rw e refl)
InRange-keep d used o s (inr (s', e, more, long)) =
    inr ((d, used) ∷ s', rw e refl, omega arith, omega arith)

InRange-flag :
    (c d : ℕ) (used : Bool) (s : Flagged)
    → (not used && c == d) ≡ true
    → InRange (claimed ((d, true) ∷ s)) ((d, used) ∷ s)
unfolding matches
InRange-flag c d used s e = inr ((d, true) ∷ s, refl, ground arith, refl)

-- An empty window, or one that ends at the end of the text at the latest.
abbrev Fits : ℕ → ℕ → ℕ → Type 0
Fits skip width n = (width ≡ 0) ⊎ (skip + width ≤ n)

claim-InRange :
    (c skip width : ℕ) (s : Flagged) → Fits skip width (length s) → InRange (claim c skip width s) s
unfolding claim
claim-InRange c skip zero s h = inl refl
claim-InRange c skip (suc width) [] (inl e) = absurd (omega arith)
claim-InRange c skip (suc width) [] (inr le) = absurd (omega arith)
claim-InRange c (suc skip) (suc width) ((d, used) ∷ s) (inl e) = absurd (omega arith)
claim-InRange c (suc skip) (suc width) ((d, used) ∷ s) (inr le) =
    InRange-keep d used (claim c skip (suc width) s) s
      (claim-InRange c skip (suc width) s (inr (omega arith)))
claim-InRange c zero (suc width) ((d, used) ∷ s) (inl e) = absurd (omega arith)
claim-InRange c zero (suc width) ((d, used) ∷ s) (inr le) =
    let later = claim-InRange c zero width s (inr (omega arith)) in
    elim (Bool-cases (not used && c == d)) [
      | inl e ↦ rw (claim, e) (InRange-flag c d used s e)
      | inr e ↦ rw (claim, e) (InRange-keep d used (claim c zero width s) s later)
    ]

window-Fits : (md n i : ℕ) → Fits (window_start md i) (window_width md n i) n
window-Fits md n i = elim (Bool-cases (leb (window_start md i) n)) [
  | inl e ↦ inr (ground arith)
  | inr e ↦ inl (ground arith)
]

-- The outer loop ends, and both texts have as many flags, but for those that the second has before.
match_from_lem :
    (md i : ℕ) (s1 : Text) (s2 : Flagged) (n : ℕ)
    → length s2 ≡ n
    → (r : Flagged × Flagged) × (match_from md n i s1 s2 ≡ some r)
      × (matches r.1 ≡ matches r.0 + matches s2)
      × (length r.1 ≡ length s2)
      × (length r.0 ≡ length s1)
unfolding match_from matches
match_from_lem md i [] s2 n h = (([], s2), refl, omega arith, refl, refl)
match_from_lem md i (c ∷ s1) s2 n h =
    elim (claim-InRange c (window_start md i) (window_width md n i) s2 (
      subst (λ l. Fits (window_start md i) (window_width md n i) l) (sym h) (window-Fits md n i))) [
        | inl e ↦
            let ((f, s), q, even, long, short) = match_from_lem md (i + 1) s1 s2 n h in
            (((c, false) ∷ f, s), rw (match_from, e, q) refl, omega arith, long, omega arith)
        | inr (s2', e, more, same) ↦
            let ((f, s), q, even, long, short) = match_from_lem md (i + 1) s1 s2' n (omega arith) in
            (((c, true) ∷ f, s), rw (match_from, e, q) refl, omega arith, omega arith, omega arith)
      ]

matches-le-length : (s : Flagged) → matches s ≤ length s
unfolding matches
matches-le-length [] = omega arith
matches-le-length ((_, hit) ∷ s) = ground (arith, matches-le-length s)

matches-unflagged : (s : Text) → matches (unflagged s) ≡ 0
unfolding matches
matches-unflagged [] = refl
matches-unflagged (c ∷ s) = omega (arith, matches-unflagged s)

length-unflagged : (s : Text) → length (unflagged s) ≡ length s
length-unflagged [] = refl
length-unflagged (c ∷ s) = omega (arith, length-unflagged s)

next_match_lem :
    (s : Flagged)
    → 0 < matches s
    → (d : ℕ) × (rest : Flagged) × (next_match s ≡ some (d, rest)) × (matches s ≡ matches rest + 1)
unfolding next_match matches
next_match_lem [] h = absurd (omega arith)
next_match_lem ((d, true) ∷ s) h = (d, s, refl, omega arith)
next_match_lem ((d, false) ∷ s) h =
    let (e, rest, q, k) = next_match_lem s (omega arith) in (e, rest, q, omega arith)

transpositions-some :
    (s1 s2 : Flagged)
    → matches s1 ≤ matches s2
    → (t : ℕ) × (transpositions s1 s2 ≡ some t) × (t ≤ matches s1)
unfolding transpositions matches
transpositions-some [] s2 h = (0, refl, omega arith)
transpositions-some ((c, false) ∷ s1) s2 h =
    let (t, e, le) = transpositions-some s1 s2 (omega arith) in (t, e, omega arith)
transpositions-some ((c, true) ∷ s1) s2 h =
    let (d, rest, q, k) = next_match_lem s2 (omega arith) in
    let (t, e, le) = transpositions-some s1 rest (omega arith) in
    (if c == d then t else t + 1, rw (transpositions, q, e) refl, ground arith)

prefix_len-some :
    (n : ℕ) (s t : Text)
    → n ≤ length s
    → n ≤ length t
    → (p : ℕ) × (prefix_len n s t ≡ some p) × (p ≤ n)
unfolding prefix_len
prefix_len-some zero s t h k = (0, refl, omega arith)
prefix_len-some (suc n) [] t h k = absurd (omega arith)
prefix_len-some (suc n) (c ∷ s) [] h k = absurd (omega arith)
prefix_len-some (suc n) (c ∷ s) (d ∷ t) h k =
    let (p, e, le) = prefix_len-some n s t (omega arith) (omega arith) in
    elim (Bool-cases (c == d)) [
      | inl q ↦ (1 + p, rw (prefix_len, q, e) refl, omega arith)
      | inr q ↦ (0, rw (prefix_len, q) refl, omega arith)
    ]

-- A fraction from 0 to 1.
abbrev pub IsUnit : Fraction → Type 0
IsUnit p = (0 < p.den) × (p.num ≤ p.den)

jaro-IsUnit : (m t k l : ℕ) → 0 < m → m ≤ k → m ≤ l → IsUnit (jaro m t k l)
jaro-IsUnit m t k l pos mk ml =
    let k_pos : 0 < k = omega arith in
    let l_pos : 0 < l = omega arith in
    let all : 0 < m * k * l = mul-pos (mul-pos pos k_pos) l_pos in
    let first : m * l * m ≤ m * l * k = mul-le-mul_left (m * l) mk in
    let second : m * k * m ≤ m * k * l = mul-le-mul_left (m * k) ml in
    let third : k * l * (m - t) ≤ k * l * m = mul-le-mul_left (k * l) (omega arith) in
    (omega arith, omega arith)

winkler-IsUnit : (j : Fraction) (p : ℕ) → p ≤ 10 → IsUnit j → IsUnit (winkler j p)
winkler-IsUnit j p h (pos, le) =
    let part : (j.den - j.num) * p ≤ (j.den - j.num) * 10 = mul-le-mul_left (j.den - j.num) h in
    (omega arith, omega arith)

min-le : (m n : ℕ) → (min 4 (min m n) ≤ 4) × (min 4 (min m n) ≤ m) × (min 4 (min m n) ≤ n)
min-le m n = (ground arith, ground arith, ground arith)

compare_texts-IsUnit : (s t : Text) → (f : Fraction) × (compare_texts s t ≡ some f) × IsUnit f
compare_texts-IsUnit s t =
    let md = max (length s) (length t) / 2 - 1 in
    let full = length-unflagged t in
    let (r, ran, even, long, short) = match_from_lem md 0 s (unflagged t) (length t) full in
    let none_before = matches-unflagged t in
    let fits = matches-le-length r.0 in
    let fits' = matches-le-length r.1 in
    let (n, e, le) = transpositions-some r.0 r.1 (omega arith) in
    elim (Bool-cases (matches r.0 == 0)) [
      | inl z ↦ (zero_fraction, rw (ran, z) refl, (omega arith, omega arith))
      | inr z ↦
          let j = jaro (matches r.0) (n / 2) (length s) (length t) in
          let k = min 4 (min (length s) (length t)) in
          let (few, short_s, short_t) = min-le (length s) (length t) in
          let (p, first, at_most) = prefix_len-some k s t short_s short_t in
          (
            winkler j p,
            rw (ran, z, e, first) refl,
            winkler-IsUnit j p (omega arith) (
                jaro-IsUnit (matches r.0) (n / 2) (length s) (length t) (ground arith) (omega arith)
                  (omega arith)),
          )
    ]

-- The similarity of any two texts is a fraction from 0 to 1: in none of the loops an index runs past
-- the end of a text, and no divisor is 0.
pub calculate_jaro_winkler_similarity-some :
    (lower : Text → Text) (s t : Text)
    → (f : Fraction) × (calculate_jaro_winkler_similarity lower s t ≡ some f) × IsUnit f
unfolding calculate_jaro_winkler_similarity
calculate_jaro_winkler_similarity-some lower s t = elim (Bool-cases (is_empty s || is_empty t)) [
  | inl e ↦ (zero_fraction, rw e refl, (omega arith, omega arith))
  | inr e ↦ elim (Bool-cases (text_eq (strip (lower s)) (strip (lower t)))) [
    | inl q ↦ (one_fraction, rw (e, q) refl, (omega arith, omega arith))
    | inr q ↦
        let (f, r, u) = compare_texts-IsUnit (strip (lower s)) (strip (lower t)) in
        (f, rw (e, q) r, u)
  ]
]
