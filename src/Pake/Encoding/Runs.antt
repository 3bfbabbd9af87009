-- ===== src/Pake/Encoding/Runs.antt =====
-- The encodings of pake.go on short strings.
use tp.Prelude.{ℕ, ◌≡◌, refl, List, [], ◌∷◌}
use tp.Pake.Encoding.{lv_cat, prepend_len, leb128}
use tp.Pake.Encoding.Lengths.{lv_cat-injective}

two_parts : lv_cat ((1 ∷ 2 ∷ []) ∷ [] ∷ []) ≡ 2 ∷ 1 ∷ 2 ∷ 0 ∷ []
unfolding lv_cat prepend_len leb128
two_parts = refl

abbrev one : List ℕ
one = 1 ∷ []

abbrev two : List ℕ
two = 2 ∷ []

abbrev parts : List (List ℕ)
parts = one ∷ two ∷ []

lv_cat-injective_example : parts ≡ parts
lv_cat-injective_example = lv_cat-injective parts parts refl
