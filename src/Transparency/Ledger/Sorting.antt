-- ===== src/Transparency/Ledger/Sorting.antt =====
-- About sorting by sequence number in civicbrain/domain/transparency/services.py.
use civicbrain_v.Base.{
  ◌<◌, List, [], ◌∷◌, ◌++◌, leb, ◌≡◌, refl, ap, arith, All, Bool-cases, inl, inr, true, ◌∙◌,
}
use civicbrain_v.Transparency.Ledger.{insert, sort}
use civicbrain_v.Transparency.Models.{JanSunwaiLedgerEntry}

insert-All :
    (P : JanSunwaiLedgerEntry → Type 0) (e : JanSunwaiLedgerEntry) (es : List JanSunwaiLedgerEntry)
    → All P (insert e es)
    → P e × All P es
unfolding insert
insert-All P e [] = λ h. h
insert-All P e (f ∷ es) = elim (Bool-cases (leb e.sequence_num f.sequence_num)) [
  | inl q ↦ rw q (λ h. h)
  | inr q ↦ rw q (λ (pf, h). let (pe, rest) = insert-All P e es h in (pe, (pf, rest)))
]

-- What holds of each sorted entry holds of each entry.
pub sort-All :
    (P : JanSunwaiLedgerEntry → Type 0) (es : List JanSunwaiLedgerEntry)
    → All P (sort es)
    → All P es
unfolding sort
sort-All P [] h = tt
sort-All P (e ∷ es) h = let (pe, rest) = insert-All P e (sort es) h in (pe, sort-All P es rest)

insert-append :
    (e n : JanSunwaiLedgerEntry) (es : List JanSunwaiLedgerEntry)
    → e.sequence_num < n.sequence_num
    → insert e (es ++ n ∷ []) ≡ insert e es ++ n ∷ []
unfolding insert
insert-append e n [] h =
    let q : leb e.sequence_num n.sequence_num ≡ true = ground arith in rw q refl
insert-append e n (f ∷ es) h = elim (Bool-cases (leb e.sequence_num f.sequence_num)) [
  | inl q ↦ rw q refl
  | inr q ↦ rw q (ap (λ (l : List JanSunwaiLedgerEntry). f ∷ l) (insert-append e n es h))
]

-- An entry that comes after all others is sorted to the end.
pub sort-append :
    (n : JanSunwaiLedgerEntry) (es : List JanSunwaiLedgerEntry)
    → All (λ e. e.sequence_num < n.sequence_num) es
    → sort (es ++ n ∷ []) ≡ sort es ++ n ∷ []
unfolding sort insert
sort-append n [] h = refl
sort-append n (e ∷ es) (h, hs) = ap (insert e) (sort-append n es hs) ∙ insert-append e n (sort es) h
