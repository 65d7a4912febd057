-- ===== src/Text/Members.antt =====
-- Lists of texts as the sets and lists that the services look texts up in.
use civicbrain_v.Base.{
  List, [], ◌∷◌, ◌++◌, Bool, true, ◌&&◌, ◌||◌, not, any, any-append, ◌≡◌, refl, ◌∙◌, arith,
}
use civicbrain_v.Text.{Text, text_eq}

-- `p in texts`
unfoldable pub member : Text → List Text → Bool
unfolding text_eq
member p = any (λ q. text_eq q p)

-- No text stands twice in the list.
unfoldable pub all_distinct : List Text → Bool
unfolding member
all_distinct [] = true
all_distinct (p ∷ ps) = not (member p ps) && all_distinct ps

pub member-append_one :
    (p q : Text) (ps : List Text) → member p (ps ++ q ∷ []) ≡ (member p ps || text_eq q p)
unfolding member
member-append_one p q ps = any-append (λ r. text_eq r p) ps (q ∷ []) ∙ ground arith

pub text_eq_sym : (s t : Text) → text_eq s t ≡ text_eq t s
unfolding text_eq
text_eq_sym [] [] = refl
text_eq_sym [] (d ∷ t) = refl
text_eq_sym (c ∷ s) [] = refl
text_eq_sym (c ∷ s) (d ∷ t) = ground (arith, text_eq_sym s t)
