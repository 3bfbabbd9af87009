-- ===== src/Code/Runs.antt =====
-- Codes of code.go over a list of four words.
use tp.Prelude.{ℕ, ◌≡◌, refl, List, [], ◌∷◌, false, arith, All, if◌then◌else◌}
use tp.Prelude.Text.{Text, codes, text_eq, has_prefix}
use tp.Code.{
  Unicode, ok, err, ambiguous, canonical, expand, expand_loop, new_code, has_word, trim_space,
  trim_left, trim_right, is_space, lower, digit_code, scan_digits, split, join, group_digits,
}
use tp.Code.Words.{expand_lem, matching, answer}
use tp.Code.Canonical.{canonical_prefixes, canonical-new_code, canonical_idem, IsWord, code_of}

abbrev ascii : Unicode
ascii = record { lower_rune = λ r. r; is_space_rune = λ r. false }

abbrev words : List Text
words = codes "apple" ∷ codes "bear" ∷ codes "beard" ∷ codes "cat" ∷ []

typed : canonical ascii words (codes " APP-bear-c\n") ≡ ok (codes "apple-bear-cat")
unfolding canonical trim_space trim_left trim_right is_space lower digit_code scan_digits split
    expand expand_loop text_eq has_prefix join
typed = refl

nine_digits : canonical ascii words (codes "123456-789") ≡ ok (codes "123-456-789")
unfolding canonical trim_space trim_left trim_right is_space lower digit_code scan_digits
    group_digits
nine_digits = refl

app_expands : expand words (codes "app") ≡ ok (codes "apple")
unfolding expand expand_loop text_eq has_prefix
app_expands = refl

bear_expands : expand words (codes "bear") ≡ ok (codes "bear")
unfolding expand expand_loop text_eq has_prefix
bear_expands = refl

cat_expands : expand words (codes "c") ≡ ok (codes "cat")
unfolding expand expand_loop text_eq has_prefix
cat_expands = refl

two_match : expand words (codes "be") ≡ err (ambiguous 2)
unfolding expand expand_loop text_eq has_prefix
two_match = refl

expand_lem_example : expand words (codes "be") ≡ (
    if has_word (codes "be") words then ok (codes "be") else answer (matching words (codes "be")))
expand_lem_example = expand_lem words (codes "be")

words-IsWord : All IsWord words
words-IsWord = ground arith

canonical_prefixes_example :
    canonical ascii words (code_of (codes "app") (codes "bear") (codes "c"))
    ≡ ok (code_of (codes "apple") (codes "bear") (codes "cat"))
canonical_prefixes_example =
    canonical_prefixes ascii words (codes "app") (codes "bear") (codes "c") (codes "apple")
      (codes "bear") (codes "cat") (ground arith) (ground arith) (ground arith) app_expands
      bear_expands cat_expands

canonical-new_code_example :
    canonical ascii words (new_code words 0 3 1) ≡ ok (new_code words 0 3 1)
canonical-new_code_example =
    canonical-new_code ascii words 0 3 1 words-IsWord (omega arith) (omega arith) (omega arith)

abbrev draws : List ℕ
draws = 0 ∷ 1 ∷ 2 ∷ 3 ∷ 4 ∷ 5 ∷ 6 ∷ 7 ∷ 9 ∷ []

canonical_idem_example :
    canonical ascii words (codes "apple-bear-cat") ≡ ok (codes "apple-bear-cat")
canonical_idem_example =
    canonical_idem ascii words (codes " APP-bear-c\n") (codes "apple-bear-cat") words-IsWord typed
