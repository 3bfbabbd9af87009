-- ===== src/Pake/Encoding/Order.antt =====
-- `oCat` of pake.go: both roles build one transcript, and only from one pair of shares.
use tp.Prelude.{ℕ, ◌≡◌, refl, List, [], ◌∷◌, ◌++◌, true, false, arith, ◌∙◌, sym, ◌⊎◌}
use tp.Pake.Encoding.{lex_greater, o_cat, lv_cat}
use tp.Pake.Encoding.Lengths.{lv_cat-injective, lv_cat-append}

-- Of two strings that differ exactly one is greater, and no string is greater than itself.
pub lex_greater_antisym : (a b : List ℕ) → (lex_greater a b ≡ true) → (lex_greater b a ≡ false)
unfolding lex_greater
lex_greater_antisym [] [] h = refl
lex_greater_antisym [] (y ∷ b) h = cc
lex_greater_antisym (x ∷ a) [] h = refl
lex_greater_antisym (x ∷ a) (y ∷ b) h = ground (arith, lex_greater_antisym a b)

pub lex_greater_total : (a b : List ℕ) → lex_greater a b ≡ false → lex_greater b a ≡ false → a ≡ b
unfolding lex_greater
lex_greater_total [] [] h k = refl
lex_greater_total [] (y ∷ b) h k = cc
lex_greater_total (x ∷ a) [] h k = cc
lex_greater_total (x ∷ a) (y ∷ b) h k = ground (arith, lex_greater_total a b)

-- The transcript does not depend on the role.
pub o_cat_comm : (a b : List ℕ) → o_cat a b ≡ o_cat b a
unfolding o_cat
o_cat_comm a b =
    ground (arith, lex_greater_antisym a b, lex_greater_antisym b a, lex_greater_total a b)

-- A share as it enters the transcript: `lvCat(ya, nil)`.
abbrev pub item : List ℕ → List ℕ
item y = lv_cat (y ∷ [] ∷ [])

items-injective : (a b c d : List ℕ) → item a ++ item b ≡ item c ++ item d → (a ≡ c) × (b ≡ d)
items-injective a b c d e =
    let same : a ∷ [] ∷ b ∷ [] ∷ [] ≡ c ∷ [] ∷ d ∷ [] ∷ [] =
      lv_cat-injective (a ∷ [] ∷ b ∷ [] ∷ []) (c ∷ [] ∷ d ∷ [] ∷ []) (
        lv_cat-append (a ∷ [] ∷ []) (b ∷ [] ∷ [])
        ∙ e
        ∙ sym (lv_cat-append (c ∷ [] ∷ []) (d ∷ [] ∷ []))) in
    ground arith

-- Equal transcripts come from the same two shares, in either order.
pub o_cat_pair :
    (a b c d : List ℕ)
    → o_cat (item a) (item b) ≡ o_cat (item c) (item d)
    → (a ≡ c) × (b ≡ d) ⊎ (a ≡ d) × (b ≡ c)
unfolding o_cat
o_cat_pair a b c d e = ground (
  arith,
  items-injective a b c d,
  items-injective a b d c,
  items-injective b a c d,
  items-injective b a d c,
)
