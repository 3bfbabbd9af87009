-- ===== src/Code/Canonical.antt =====
-- `canonical` of code.go: what the user may type, and what stays as it is.
use tp.Prelude.{
  ℕ, zero, suc, ◌+◌, ◌<◌, ◌≡◌, refl, List, [], ◌∷◌, ◌++◌, map, true, none, some, arith, length,
  Bool-cases, Option-cases, inl, inr, ap, ◌∙◌, All, All-append, subst,
}
use tp.Prelude.Text.{Text, text_eq, text_eq_iff}
use tp.Code.{
  Unicode, ok, >>=-eq-ok, ok-injective, canonical, canonical_trimmed, expand_three, expand,
  has_word, digit_code, scan_digits, group_digits, split, join, new_code, new_digit_code, lower,
  trim_space, word_at,
}
use tp.Code.Words.{expand_lem, matching, answer}
use tp.Code.Digits.{
  IsDigit, IsLetter, IsPlain, IsPart, normal_plain, scan_digits-group_digits, group_digits-IsPlain,
  digit_code_sound, split-join,
}

-- Words are not empty and in lower case letters, as in the file.
abbrev pub IsWord : Text → Type 0
IsWord [] = ⊥
IsWord (c ∷ w) = IsLetter c × All IsLetter w

letters-IsPart : (w : Text) → All IsLetter w → IsPart w
letters-IsPart [] h = tt
letters-IsPart (c ∷ w) h = (ground arith, letters-IsPart w h.1)

letters-IsPlain : (w : Text) → All IsLetter w → All IsPlain w
letters-IsPlain [] h = tt
letters-IsPlain (c ∷ w) h = (inr (inr h.0), letters-IsPlain w h.1)

IsWord-letters : (w : Text) → IsWord w → All IsLetter w
IsWord-letters [] h = absurd h
IsWord-letters (c ∷ w) h = h

-- The code of three words.
abbrev pub code_of : Text → Text → Text → Text
code_of p q r = join (p ∷ q ∷ r ∷ [])

code_of-IsPlain :
    (p q r : Text) → All IsPlain p → All IsPlain q → All IsPlain r → All IsPlain (code_of p q r)
unfolding join
code_of-IsPlain p q r hp hq hr =
    All-append IsPlain p _ hp (inr (inl refl), All-append IsPlain q _ hq (inr (inl refl), hr))

-- A letter rules a digit code out.
no_digit_code : (p s : Text) → IsWord p → digit_code (p ++ s) ≡ none
unfolding digit_code scan_digits
no_digit_code [] s h = absurd h
no_digit_code (c ∷ p) s h = ground arith

-- Any prefixes that `expand` resolves may be typed for the words: three parts in lower case letters
-- that expand to three words give the code of those words.
pub canonical_prefixes :
    (u : Unicode) (words : List Text) (p q r p' q' r' : Text)
    → IsWord p
    → IsWord q
    → IsWord r
    → expand words p ≡ ok p'
    → expand words q ≡ ok q'
    → expand words r ≡ ok r'
    → canonical u words (code_of p q r) ≡ ok (code_of p' q' r')
unfolding canonical
canonical_prefixes u words p q r p' q' r' hp hq hr ep eq er =
    ap (λ s. canonical_trimmed words s (digit_code s)) (normal_plain u (code_of p q r) plain)
    ∙ ap (canonical_trimmed words (code_of p q r)) no_digits
    ∙ ap (expand_three words) (split-join p q r (part p hp) (part q hq) (part r hr))
    ∙ rw (ep, eq, er) refl
  where
    plain : All IsPlain (code_of p q r)
    plain =
        code_of-IsPlain p q r (letters-IsPlain p (IsWord-letters p hp))
          (letters-IsPlain q (IsWord-letters q hq)) (letters-IsPlain r (IsWord-letters r hr))

    part : (w : Text) → IsWord w → IsPart w
    part w h = letters-IsPart w (IsWord-letters w h)

    no_digits : digit_code (code_of p q r) ≡ none
    no_digits = unfold join in no_digit_code p (b'-' ∷ (q ++ (b'-' ∷ r))) hp

canonical_words :
    (u : Unicode) (words : List Text) (p q r : Text)
    → IsWord p × (has_word p words ≡ true)
    → IsWord q × (has_word q words ≡ true)
    → IsWord r × (has_word r words ≡ true)
    → canonical u words (code_of p q r) ≡ ok (code_of p q r)
canonical_words u words p q r hp hq hr =
    canonical_prefixes u words p q r p q r hp.0 hq.0 hr.0 (expand_lem words p ∙ rw hp.1)
      (expand_lem words q ∙ rw hq.1) (expand_lem words r ∙ rw hr.1)

canonical_digits :
    (u : Unicode) (words : List Text) (d : Text)
    → length d ≡ 9
    → All IsDigit d
    → canonical u words (group_digits d) ≡ ok (group_digits d)
unfolding canonical
canonical_digits u words d n h =
    ap (λ s. canonical_trimmed words s (digit_code s))
      (normal_plain u (group_digits d) (group_digits-IsPlain d n h))
    ∙ ap (canonical_trimmed words (group_digits d)) recognised
  where
    recognised : digit_code (group_digits d) ≡ some d
    recognised = unfold digit_code in rw (scan_digits-group_digits d n h) (ground arith)

word_at-IsWord :
    (words : List Text) (i : ℕ)
    → All IsWord words
    → i < length words
    → IsWord (word_at words i) × (has_word (word_at words i) words ≡ true)
unfolding has_word
word_at-IsWord [] i h k = absurd (omega arith)
word_at-IsWord (w ∷ words) zero h k = (h.0, ground (arith, text_eq_iff w w))
word_at-IsWord (w ∷ words) (suc i) h k =
    let (a, b) = word_at-IsWord words i h.1 (omega arith) in (a, rw b (ground arith))

-- Every code that `newCode` can print is its own canonical form, with draws in range and a list of
-- words in lower case letters.
pub canonical-new_code :
    (u : Unicode) (words : List Text) (a b c : ℕ)
    → All IsWord words
    → a < length words
    → b < length words
    → c < length words
    → canonical u words (new_code words a b c) ≡ ok (new_code words a b c)
unfolding new_code
canonical-new_code u words a b c h ha hb hc =
    canonical_words u words (word_at words a) (word_at words b) (word_at words c)
      (word_at-IsWord words a h ha) (word_at-IsWord words b h hb) (word_at-IsWord words c h hc)

length-map : (f : ℕ → ℕ) (xs : List ℕ) → length (map f xs) ≡ length xs
length-map f [] = refl
length-map f (x ∷ xs) = omega (arith, length-map f xs)

digits_of_draws :
    (draws : List ℕ) → All (λ n. n < 10) draws → All IsDigit (map (λ n. b'0' + n) draws)
digits_of_draws [] h = tt
digits_of_draws (n ∷ draws) h = (omega arith, digits_of_draws draws h.1)

-- Every code that `newDigitCode` can print is its own canonical form.
pub canonical-new_digit_code :
    (u : Unicode) (words : List Text) (draws : List ℕ)
    → length draws ≡ 9
    → All (λ n. n < 10) draws
    → canonical u words (new_digit_code draws) ≡ ok (new_digit_code draws)
unfolding new_digit_code
canonical-new_digit_code u words draws n h =
    canonical_digits u words (map (λ n. b'0' + n) draws) (length-map (λ n. b'0' + n) draws ∙ n)
      (digits_of_draws draws h)

has_word-matching :
    (w p : Text) (words : List Text)
    → has_word w (matching words p) ≡ true
    → has_word w words ≡ true
unfolding matching has_word
has_word-matching w p [] h = h
has_word-matching w p (v ∷ words) h = ground (arith, has_word-matching w p words)

has_word-answer : (w : Text) (ws : List Text) → answer ws ≡ ok w → has_word w ws ≡ true
unfolding has_word
has_word-answer w [] e = cc
has_word-answer w (v ∷ []) e = ground (arith, text_eq_iff w v)
has_word-answer w (v ∷ x ∷ ws) e = cc

-- `expand` returns words of the list only.
pub has_word-expand :
    (words : List Text) (p w : Text) → expand words p ≡ ok w → has_word w words ≡ true
has_word-expand words p w e = elim (Bool-cases (has_word p words)) [
  | inl known ↦ ground (arith, expand_lem words p, text_eq_iff w p)
  | inr new ↦
      has_word-matching w p words
        (has_word-answer w (matching words p) (ground (arith, expand_lem words p)))
]

has_word-IsWord :
    (w : Text) (words : List Text) → All IsWord words → has_word w words ≡ true → IsWord w
unfolding has_word
has_word-IsWord w [] h e = cc
has_word-IsWord w (v ∷ words) h e = elim (Bool-cases (text_eq v w)) [
  | inl same ↦ subst IsWord ((text_eq_iff v w).0 same) h.0
  | inr other ↦ has_word-IsWord w words h.1 (ground arith)
]

three_words :
    (u : Unicode) (words : List Text) (parts : List Text) (c : Text)
    → All IsWord words
    → expand_three words parts ≡ ok c
    → canonical u words c ≡ ok c
three_words u words [] c h e = cc
three_words u words (p ∷ []) c h e = cc
three_words u words (p ∷ q ∷ []) c h e = cc
three_words u words (p ∷ q ∷ r ∷ s ∷ rest) c h e = cc
three_words u words (p ∷ q ∷ r ∷ []) c h e =
    let (p', ep, e₁) = >>=-eq-ok (expand words p) _ e in
    let (q', eq, e₂) = >>=-eq-ok (expand words q) _ e₁ in
    let (r', er, e₃) = >>=-eq-ok (expand words r) _ e₂ in
    let code : code_of p' q' r' ≡ c = ground arith in
    subst (λ c. canonical u words c ≡ ok c) code
      (canonical_words u words p' q' r' (known p p' ep) (known q q' eq) (known r r' er))
  where
    known : (p p' : Text) → expand words p ≡ ok p' → IsWord p' × (has_word p' words ≡ true)
    known p p' e =
        let there = has_word-expand words p p' e in (has_word-IsWord p' words h there, there)

-- Whatever the user typed, the canonical form of a code is its own canonical form: the sender's and
-- the receiver's PAKE passwords do not depend on which form was typed.
pub canonical_idem :
    (u : Unicode) (words : List Text) (s c : Text)
    → All IsWord words
    → canonical u words s ≡ ok c
    → canonical u words c ≡ ok c
unfolding canonical
canonical_idem u words s c h e = trimmed (map (lower u) (trim_space u s)) e
  where
    trimmed :
        (t : Text) → canonical_trimmed words t (digit_code t) ≡ ok c → canonical u words c ≡ ok c
    trimmed t e = elim (Option-cases (digit_code t)) [
      | inl none_found ↦ three_words u words (split t) c h (rw none_found at e)
      | inr (d, found) ↦
          let grouped : group_digits d ≡ c = ok-injective (rw found at e) in
          let (n, digits) = digit_code_sound t d found in
          subst (λ c. canonical u words c ≡ ok c) grouped (canonical_digits u words d n digits)
    ]
