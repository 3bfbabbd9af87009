-- ===== src/Code/Words.antt =====
-- `expand` and `init` of code.go against what they are to compute.
use tp.Prelude.{
  ℕ, ◌+◌, ◌≡◌, refl, List, [], ◌∷◌, ◌++◌, true, false, ◌||◌, Option, none, some, arith,
  if◌then◌else◌, length, Bool-cases, inl, inr, ap, ◌∙◌, sym, subst,
}
use tp.Prelude.Text.{Text, text_eq_iff, has_prefix}
use mathlib.Core.List.{append-nil, append_assoc}
use tp.Code.{
  word_count, Outcome, ok, err, not_in_wordlist, ambiguous, has_word, load_words, expand,
  expand_loop, resolve,
}

-- The words that begin with the prefix, in the order of the list.
unfoldable pub matching : List Text → Text → List Text
matching [] prefix = []
matching (w ∷ words) prefix =
    if has_prefix w prefix then w ∷ matching words prefix else matching words prefix

-- The answer that the matches call for.
abbrev pub answer : List Text → Outcome Text
answer [] = err not_in_wordlist
answer (w ∷ []) = ok w
answer (w ∷ v ∷ ws) = err (ambiguous (length (w ∷ v ∷ ws)))

-- The last element of a list, or `d`.
abbrev last : Text → List Text → Text
last d [] = d
last d (w ∷ ws) = last w ws

expand_loop_prefix :
    (words : List Text) (p found : Text) (n : ℕ)
    → has_word p words ≡ false
    → expand_loop words p found n
      ≡ resolve (last found (matching words p)) (n + length (matching words p))
unfolding expand_loop has_word matching
expand_loop_prefix [] p found n h = ground arith
expand_loop_prefix (w ∷ words) p found n h = ground (
  arith,
  text_eq_iff w p,
  text_eq_iff p w,
  expand_loop_prefix words p w (n + 1),
  expand_loop_prefix words p found n,
)

expand_loop_exact :
    (words : List Text) (p found : Text) (n : ℕ)
    → has_word p words ≡ true
    → expand_loop words p found n ≡ ok p
unfolding expand_loop has_word
expand_loop_exact [] p found n h = cc
expand_loop_exact (w ∷ words) p found n h = ground (
  arith,
  text_eq_iff w p,
  text_eq_iff p w,
  expand_loop_exact words p w (n + 1),
  expand_loop_exact words p found n,
)

resolve-answer : (ws : List Text) → resolve (last [] ws) (length ws) ≡ answer ws
resolve-answer [] = refl
resolve-answer (w ∷ []) = refl
resolve-answer (w ∷ v ∷ ws) = ground arith

-- `expand` returns a word of the list as it is; otherwise it returns the only word with the given
-- prefix, or reports that there is none, or how many there are.
pub expand_lem :
    (words : List Text) (p : Text)
    → expand words p ≡ (if has_word p words then ok p else answer (matching words p))
unfolding expand
expand_lem words p = elim (Bool-cases (has_word p words)) [
  | inl known ↦ rw known (expand_loop_exact words p [] 0 known)
  | inr new ↦ rw new (
      expand_loop_prefix words p [] 0 new
      ∙ ap (resolve (last [] (matching words p))) {x = 0 + length (matching words p)}
          {y = length (matching words p)} (omega arith)
      ∙ resolve-answer (matching words p))
]

-- No word occurs twice.
abbrev pub NoRepeat : List Text → Type 0
NoRepeat [] = Unit {0}
NoRepeat (w ∷ ws) = (has_word w ws ≡ false) × NoRepeat ws

has_word-append :
    (w : Text) (xs ys : List Text) → has_word w (xs ++ ys) ≡ has_word w xs || has_word w ys
unfolding has_word
has_word-append w [] ys = refl
has_word-append w (x ∷ xs) ys = ground (arith, has_word-append w xs ys)

NoRepeat-snoc :
    (ws : List Text) (w : Text) → NoRepeat ws → has_word w ws ≡ false → NoRepeat (ws ++ (w ∷ []))
unfolding has_word
NoRepeat-snoc [] w n h = (refl, tt)
NoRepeat-snoc (v ∷ ws) w n h = (
  ground (arith, has_word-append v ws (w ∷ []), text_eq_iff v w, text_eq_iff w v),
  NoRepeat-snoc ws w n.1 (ground arith),
)

load_words_sound :
    (fields words loaded : List Text)
    → NoRepeat words
    → load_words words fields ≡ some loaded
    → NoRepeat loaded × (length loaded ≡ word_count) × (loaded ≡ words ++ fields)
unfolding load_words
load_words_sound [] words loaded n e =
    let eq : words ≡ loaded = ground arith in
    subst (λ l. NoRepeat l × (length l ≡ word_count) × (l ≡ words ++ [])) eq
      (n, ground arith, sym (append-nil words))
load_words_sound (w ∷ fields) words loaded n e = elim (Bool-cases (has_word w words)) [
  | inl twice ↦ absurd (clash (rw twice at e))
  | inr new ↦
      let (a, b, c) =
        load_words_sound fields (words ++ (w ∷ [])) loaded (NoRepeat-snoc words w n new)
          (rw new at e) in
      (a, b, c ∙ append_assoc words (w ∷ []) fields)
]
  where
    clash : ◌≡◌ {A = Option (List Text)} none (some loaded) → ⊥
    clash e = cc

-- When `init` does not panic, the words are the fields of the file in their order, there are 1295 of
-- them and none is there twice.
pub load_words_lem :
    (fields words : List Text)
    → load_words [] fields ≡ some words
    → NoRepeat words × (length words ≡ word_count) × (words ≡ fields)
load_words_lem fields words e = load_words_sound fields [] words tt e
