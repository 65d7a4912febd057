-- ===== src/Directory/Batch/Audit.antt =====
-- About the counts and the results of the loop of bulk_import_users, civicbrain/api/v1/hierarchy.py.
use mathlib.Core.List.{append-nil}
use civicbrain_v.Base.{
  ℕ, suc, List, [], ◌∷◌, ◌++◌, ◌+◌, Bool, true, false, ◌≡◌, refl, ◌∙◌, length, select,
  select-append, arith,
}
use civicbrain_v.Directory.Rows.{Cells, Metadata}
use civicbrain_v.Directory.Batch.{
  Platform, Batch, BulkImportRowResult, RowStatus, skip, plan, invite,
}
use civicbrain_v.Directory.Batch.Step.{Step}

abbrev pub is_skipped : BulkImportRowResult → Bool
is_skipped r = elim r.status [ RowStatus.skipped ↦ true | _ ↦ false ]

-- The results have consecutive row numbers from this one on.
abbrev pub IsNumbered : ℕ → List BulkImportRowResult → Type 0
IsNumbered k [] = Unit
IsNumbered k (r ∷ rs) = (r.row_number ≡ k) × IsNumbered (suc k) rs

length-append_one : {A : Type 0} (xs : List A) (x : A) → length (xs ++ x ∷ []) ≡ suc (length xs)
length-append_one [] x = refl
length-append_one (y ∷ xs) x = rw (length-append_one xs x) refl

IsNumbered-append :
    (k : ℕ) (rs : List BulkImportRowResult) (r : BulkImportRowResult)
    → IsNumbered k rs
    → r.row_number ≡ k + length rs
    → IsNumbered k (rs ++ r ∷ [])
IsNumbered-append k [] r h e = (e ∙ omega arith, tt)
IsNumbered-append k (s ∷ rs) r (h, hs) e = (h, IsNumbered-append (suc k) rs r hs (e ∙ omega arith))

-- The counts before the row with this number agree with the results.
pub record IsAudited (n : ℕ) (b : Batch) : Type 0 where
  pub numbers : IsNumbered 2 b.results
  pub next : n ≡ 2 + length b.results
  pub total : b.created_count + b.skipped_count ≡ length b.results
  pub skipped : length (select is_skipped b.results) ≡ b.skipped_count

module _ (n : ℕ) (b : Batch) (r : BulkImportRowResult) (numbered : r.row_number ≡ n) where
  count_skipped :
      is_skipped r ≡ true
      → length (select is_skipped (b.results ++ r ∷ []))
        ≡ suc (length (select is_skipped b.results))
  count_skipped e =
      rw (select-append is_skipped b.results (r ∷ []), e)
        (length-append_one (select is_skipped b.results) r)

  count_other :
      is_skipped r ≡ false
      → length (select is_skipped (b.results ++ r ∷ [])) ≡ length (select is_skipped b.results)
  count_other e =
      rw (select-append is_skipped b.results (r ∷ []), e, append-nil (select is_skipped b.results))
        refl

module _ (n : ℕ) (b : Batch) (audited : IsAudited n b) (r : BulkImportRowResult)
    (numbered : r.row_number ≡ n) (b' : Batch) (recorded : b'.results ≡ b.results ++ r ∷ []) where
  numbers_after : IsNumbered 2 b'.results
  numbers_after =
      rw recorded (IsNumbered-append 2 b.results r audited.numbers (numbered ∙ audited.next))

  length_after : length b'.results ≡ suc (length b.results)
  length_after = rw recorded (length-append_one b.results r)

  IsAudited-skip :
      is_skipped r ≡ true
      → b'.created_count ≡ b.created_count
      → b'.skipped_count ≡ b.skipped_count + 1
      → IsAudited (suc n) b'
  IsAudited-skip e c s = record {
    numbers = numbers_after;
    next = omega (arith, audited.next, length_after);
    total = omega (arith, audited.total, length_after, c, s);
    skipped =
        let more = count_skipped n b r numbered e in
        rw recorded (omega (arith, more, audited.skipped, s));
  }

  IsAudited-add :
      is_skipped r ≡ false
      → b'.created_count ≡ b.created_count + 1
      → b'.skipped_count ≡ b.skipped_count
      → IsAudited (suc n) b'
  IsAudited-add e c s = record {
    numbers = numbers_after;
    next = omega (arith, audited.next, length_after);
    total = omega (arith, audited.total, length_after, c, s);
    skipped =
        let same = count_other n b r numbered e in
        rw recorded (omega (arith, same, audited.skipped, s));
  }

pub Step-IsAudited :
    (pf : Platform) (org : ℕ) (m : Metadata) (dry_run : Bool) (n : ℕ) (c : Cells) (b b' : Batch)
    → Step pf org m dry_run n c b b'
    → IsAudited n b
    → IsAudited (suc n) b'
unfolding skip plan invite
Step-IsAudited pf org m dry n c b b' (Step.halts e) h =
    IsAudited-skip n b h _ refl b' refl refl refl refl
Step-IsAudited pf org m dry n c b b' (Step.refuses e q) h =
    IsAudited-skip n b h _ refl b' refl refl refl refl
Step-IsAudited pf org m dry n c b b' (Step.plans e q d) h =
    IsAudited-add n b h _ refl b' refl refl refl refl
Step-IsAudited pf org m dry n c b b' (Step.creates e q d k) h =
    IsAudited-add n b h _ refl b' refl refl refl refl
