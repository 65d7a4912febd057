-- ===== src/Intake/Similarity.antt =====
-- calculate_jaro_winkler_similarity of civicbrain/domain/intake/dedup.py, over exact fractions.
-- `none` stands for the IndexError of an index past the end.
pub mod Bounds
use civicbrain_v.Base.{
  ℕ, zero, suc, List, [], ◌∷◌, ◌+◌, ◌-◌, ◌*◌, ◌/◌, Bool, true, false, ◌&&◌, ◌||◌, not, leb, ◌==◌,
  if◌then◌else◌, length, Option, none, some,
}
use civicbrain_v.Text.{Text, is_empty, text_eq}
use civicbrain_v.Text.Strip.{strip}
use civicbrain_v.Intake.Fractions.{Fraction}

-- The characters of a text with the flags of `s1_matches` or `s2_matches`.
abbrev pub Flagged : Type 0
Flagged = List (ℕ × Bool)

-- How the inner loop ends: at an index past the end of `s2`, at the end of the window, or with a
-- character that is flagged.
pub data Claim : Type 0 where
  index_error unclaimed : Claim
  claimed : Flagged → Claim

abbrev pub keep : ℕ × Bool → Claim → Claim
keep x index_error = index_error
keep x unclaimed = unclaimed
keep x (claimed s) = claimed (x ∷ s)

-- The inner loop, for a character of `s1`: `skip` characters of `s2` stand before the window of
-- `width` indices, whose first free one that is equal is flagged.
unfoldable pub claim : ℕ → ℕ → ℕ → Flagged → Claim
claim c skip zero s = unclaimed
claim c skip (suc width) [] = index_error
claim c (suc skip) (suc width) (x ∷ s) = keep x (claim c skip (suc width) s)
claim c zero (suc width) ((d, used) ∷ s) =
    let later = keep (d, used) (claim c zero width s) in
    if not used && c == d then claimed ((d, true) ∷ s) else later

-- `range(max(0, i - max_dist), min(i + max_dist + 1, len2))`: its start and its length.
abbrev pub window_start : ℕ → ℕ → ℕ
window_start max_dist i = i - max_dist

abbrev pub window_width : ℕ → ℕ → ℕ → ℕ
window_width max_dist len2 i =
    (if leb (i + max_dist + 1) len2 then i + max_dist + 1 else len2) - window_start max_dist i

abbrev pub flag : ℕ → Bool → Option (Flagged × Flagged) → Option (Flagged × Flagged)
flag c hit none = none
flag c hit (some (flags, s2)) = some ((c, hit) ∷ flags, s2)

-- One round of the outer loop, and the rounds that follow it.
abbrev pub go_on :
    ℕ → Claim → Flagged → (Flagged → Option (Flagged × Flagged)) → Option (Flagged × Flagged)
go_on c index_error s2 later = none
go_on c unclaimed s2 later = flag c false (later s2)
go_on c (claimed s2') s2 later = flag c true (later s2')

-- The outer loop from `i` on: the flags of both texts.
unfoldable pub match_from : ℕ → ℕ → ℕ → Text → Flagged → Option (Flagged × Flagged)
match_from max_dist len2 i [] s2 = some ([], s2)
match_from max_dist len2 i (c ∷ s1) s2 =
    go_on c (claim c (window_start max_dist i) (window_width max_dist len2 i) s2) s2
      (λ later. match_from max_dist len2 (i + 1) s1 later)

-- `matches`
unfoldable pub matches : Flagged → ℕ
matches [] = 0
matches ((_, hit) ∷ s) = (if hit then 1 else 0) + matches s

-- `while not s2_matches[k]: k += 1`, then `s2[k]` and what is left from `k + 1` on.
unfoldable pub next_match : Flagged → Option (ℕ × Flagged)
next_match [] = none
next_match ((d, hit) ∷ s) = let rest = next_match s in if hit then some (d, s) else rest

abbrev pub count_up : Bool → Option ℕ → Option ℕ
count_up same none = none
count_up same (some n) = some (if same then n else n + 1)

-- The loop that counts the transpositions.
unfoldable pub transpositions : Flagged → Flagged → Option ℕ
transpositions [] s2 = some 0
transpositions ((c, false) ∷ s1) s2 = transpositions s1 s2
transpositions ((c, true) ∷ s1) s2 = elim (next_match s2) [
  | none ↦ none
  | some (d, rest) ↦ count_up (c == d) (transpositions s1 rest)
]

abbrev pub one_more : Option ℕ → Option ℕ
one_more none = none
one_more (some n) = some (1 + n)

-- The loop over the first `n` characters.
unfoldable pub prefix_len : ℕ → Text → Text → Option ℕ
prefix_len zero s1 s2 = some 0
prefix_len (suc n) [] s2 = none
prefix_len (suc n) (c ∷ s1) [] = none
prefix_len (suc n) (c ∷ s1) (d ∷ s2) =
    let rest = prefix_len n s1 s2 in if c == d then one_more rest else some 0

-- `(matches / len1 + matches / len2 + (matches - t) / matches) / 3.0`
abbrev pub jaro : ℕ → ℕ → ℕ → ℕ → Fraction
jaro m t len1 len2 = record {
  num = m * m * len2 + m * m * len1 + (m - t) * len1 * len2;
  den = 3 * (m * len1 * len2);
}

-- `jaro + prefix_len * 0.1 * (1.0 - jaro)`
abbrev pub winkler : Fraction → ℕ → Fraction
winkler j p = record { num = 10 * j.num + p * (j.den - j.num); den = 10 * j.den }

abbrev pub zero_fraction : Fraction
zero_fraction = record { num = 0; den = 1 }

abbrev pub one_fraction : Fraction
one_fraction = record { num = 1; den = 1 }

abbrev pub unflagged : Text → Flagged
unflagged [] = []
unflagged (c ∷ s) = (c, false) ∷ unflagged s

abbrev pub max : ℕ → ℕ → ℕ
max m n = if leb m n then n else m

abbrev pub min : ℕ → ℕ → ℕ
min m n = if leb m n then m else n

-- The last line, with what the loop over the first characters gives.
abbrev pub with_prefix : Fraction → Option ℕ → Option Fraction
with_prefix j none = none
with_prefix j (some p) = some (winkler j p)

-- From `if matches == 0` on, with the flags that the loops have set.
abbrev pub score_matches : Text → Text → Flagged → Flagged → Option Fraction
score_matches s1 s2 flags1 flags2 =
    let m = matches flags1 in
    if m == 0 then some zero_fraction else elim (transpositions flags1 flags2) [
      | none ↦ none
      | some t ↦
          with_prefix (jaro m (t / 2) (length s1) (length s2))
            (prefix_len (min 4 (min (length s1) (length s2))) s1 s2)
    ]

abbrev pub score_flags : Text → Text → Option (Flagged × Flagged) → Option Fraction
score_flags s1 s2 none = none
score_flags s1 s2 (some (flags1, flags2)) = score_matches s1 s2 flags1 flags2

-- The part after the two texts are found to be different.
abbrev pub compare_texts : Text → Text → Option Fraction
compare_texts s1 s2 =
    score_flags s1 s2
      (match_from (max (length s1) (length s2) / 2 - 1) (length s2) 0 s1 (unflagged s2))

-- `lower` is `str.lower`; `None` and an empty text are alike.
unfoldable pub calculate_jaro_winkler_similarity : (Text → Text) → Text → Text → Option Fraction
unfolding match_from claim matches transpositions next_match prefix_len strip text_eq
calculate_jaro_winkler_similarity lower s1 s2 =
    if is_empty s1 || is_empty s2
    then some zero_fraction
    else if text_eq (strip (lower s1)) (strip (lower s2))
    then some one_fraction
    else compare_texts (strip (lower s1)) (strip (lower s2))
