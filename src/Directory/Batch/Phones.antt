-- ===== src/Directory/Batch/Phones.antt =====
-- About the phones of the accounts that bulk_import_users, civicbrain/api/v1/hierarchy.py, creates.
use civicbrain_v.Base.{
  ℕ, List, [], ◌∷◌, ◌++◌, map, Bool, true, false, ◌||◌, ◌≡◌, refl, sym, ◌∙◌, map-append, arith,
  Bool-cases, inl, inr,
}
use civicbrain_v.Text.Members.{all_distinct, member-append_one, text_eq_sym}
use civicbrain_v.Text.{Text, text_eq, is_empty}
use civicbrain_v.Directory.Models.{UserAccount, Directory}
use civicbrain_v.Directory.Phone.Normal.{normalize_indian_phone-is_empty}
use civicbrain_v.Text.Members.{member}
use civicbrain_v.Directory.Rows.{Cells, Metadata}
use civicbrain_v.Directory.Rows.Identity.{identify-IsIdentified}
use civicbrain_v.Directory.Batch.{Platform, Batch, skip, plan, invite}
use civicbrain_v.Directory.Batch.Step.{Step}

abbrev pub phones : Directory → List Text
phones db = map (λ (a : UserAccount). a.phone) db.accounts

all_distinct-append_one :
    (p : Text) (ps : List Text)
    → all_distinct ps ≡ true
    → member p ps ≡ false
    → all_distinct (ps ++ p ∷ []) ≡ true
unfolding all_distinct member
all_distinct-append_one p [] h k = refl
all_distinct-append_one p (q ∷ ps) h k =
    ground (arith, all_distinct-append_one p ps, member-append_one q p ps, text_eq_sym p q)

-- The phones of the accounts are distinct, and those that are not empty are known to the loop.
pub record IsDistinct (b : Batch) : Type 0 where
  pub distinct : all_distinct (phones b.db) ≡ true
  pub known :
      (p : Text)
      → is_empty p ≡ false
      → member p (phones b.db) ≡ true
      → member p b.existing_phones ≡ true

not_known :
    (b : Batch) (p : Text)
    → IsDistinct b
    → is_empty p ≡ false
    → member p b.existing_phones ≡ false
    → member p (phones b.db) ≡ false
not_known b p h e k = elim (Bool-cases (member p (phones b.db))) [
  | inl m ↦ let q = h.known p e m in cc
  | inr m ↦ m
]

module _ (b b' : Batch) (p : Text) (h : IsDistinct b) (full : is_empty p ≡ false)
    (new : member p b.existing_phones ≡ false) (grown : phones b'.db ≡ phones b.db ++ p ∷ [])
    (registered : b'.existing_phones ≡ p ∷ b.existing_phones) where
  IsDistinct-register : IsDistinct b'
  unfolding member
  IsDistinct-register = record {
    distinct =
        rw grown (all_distinct-append_one p (phones b.db) h.distinct (not_known b p h full new));
    known = λ q e m.
        rw registered
          (extend q (h.known q e) (sym (member-append_one q p (phones b.db)) ∙ (rw grown at m)));
  }
    where
      extend :
          (q : Text)
          → (member q (phones b.db) ≡ true → member q b.existing_phones ≡ true)
          → (member q (phones b.db) || text_eq p q) ≡ true
          → (text_eq p q || member q b.existing_phones) ≡ true
      extend q f m = ground (arith, f)

pub Step-IsDistinct :
    (pf : Platform) (org : ℕ) (m : Metadata) (dry_run : Bool) (n : ℕ) (c : Cells) (b b' : Batch)
    → Step pf org m dry_run n c b b'
    → IsDistinct b
    → IsDistinct b'
unfolding skip plan invite
Step-IsDistinct pf org m dry n c b b' (Step.halts e) h = record {
  distinct = h.distinct;
  known = h.known;
}
Step-IsDistinct pf org m dry n c b b' (Step.refuses e q) h = record {
  distinct = h.distinct;
  known = h.known;
}
Step-IsDistinct pf org m dry n c b b' (Step.plans e q d) h = record {
  distinct = h.distinct;
  known = h.known;
}
Step-IsDistinct pf org m dry n c b b' (Step.creates {phone} {role} {scope} e q d k) h =
    let known = identify-IsIdentified pf.unicode b.existing_phones b.seen_phones c e in
    let full = normalize_indian_phone-is_empty pf.unicode c.phone known.normal in
    IsDistinct-register b b' phone h full known.unregistered
      (map-append (λ (a : UserAccount). a.phone) b.db.accounts (_ ∷ [])) refl
