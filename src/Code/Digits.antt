-- ===== src/Code/Digits.antt =====
-- Digit codes and the parts of a code (code.go).
use tp.Prelude.{
  ℕ, ◌≤◌, ◌≡◌, refl, ◌≢◌, [], ◌∷◌, ◌++◌, map, false, Option, none, some, arith, ◌==◌, length,
  Bool-cases, inl, inr, ap, ◌∙◌, All, ◌⊎◌, subst,
}
use tp.Prelude.Text.{Text}
use tp.Code.{
  Unicode, lower, is_space, trim_left, trim_right, trim_space, scan_digits, digit_code, nine,
  group_digits, split, join, keep, is_digit,
}

abbrev pub IsDigit : ℕ → Type 0
IsDigit c = (b'0' ≤ c) × (c ≤ b'9')

abbrev pub IsLetter : ℕ → Type 0
IsLetter c = (b'a' ≤ c) × (c ≤ b'z')

-- The characters of a code.
abbrev pub IsPlain : ℕ → Type 0
IsPlain c = IsDigit c ⊎ (c ≡ b'-') ⊎ IsLetter c

lower_plain : (u : Unicode) (c : ℕ) → IsPlain c → lower u c ≡ c
unfolding lower
lower_plain u c h = ground arith

is_space_plain : (u : Unicode) (c : ℕ) → IsPlain c → is_space u c ≡ false
unfolding is_space
is_space_plain u c h = ground arith

trim_right_plain : (u : Unicode) (s : Text) → All IsPlain s → trim_right u s ≡ s
unfolding trim_right
trim_right_plain u [] h = refl
trim_right_plain u (c ∷ []) h = rw (is_space_plain u c h.0)
trim_right_plain u (c ∷ d ∷ s) h = rw (trim_right_plain u (d ∷ s) h.1)

trim_left_plain : (u : Unicode) (s : Text) → All IsPlain s → trim_left u s ≡ s
unfolding trim_left
trim_left_plain u [] h = refl
trim_left_plain u (c ∷ s) h = rw (is_space_plain u c h.0)

map-lower_plain : (u : Unicode) (s : Text) → All IsPlain s → map (lower u) s ≡ s
map-lower_plain u [] h = refl
map-lower_plain u (c ∷ s) h = λ i. lower_plain u c h.0 i ∷ map-lower_plain u s h.1 i

-- Trimming and lowering leave a text in code characters as it is.
pub normal_plain : (u : Unicode) (s : Text) → All IsPlain s → map (lower u) (trim_space u s) ≡ s
unfolding trim_space
normal_plain u s h =
    ap (λ t. map (lower u) (trim_right u t)) (trim_left_plain u s h)
    ∙ ap (map (lower u)) (trim_right_plain u s h)
    ∙ map-lower_plain u s h

-- The digits of nine grouped digits are those digits.
pub scan_digits-group_digits :
    (d : Text) → length d ≡ 9 → All IsDigit d → scan_digits (group_digits d) ≡ some d
unfolding scan_digits group_digits
scan_digits-group_digits (a ∷ b ∷ c ∷ e ∷ f ∷ g ∷ k ∷ i ∷ j ∷ []) n h = ground arith
scan_digits-group_digits d n h = absurd (omega arith)

pub group_digits-IsPlain : (d : Text) → length d ≡ 9 → All IsDigit d → All IsPlain (group_digits d)
unfolding group_digits
group_digits-IsPlain (a ∷ b ∷ c ∷ e ∷ f ∷ g ∷ k ∷ i ∷ j ∷ []) n h = ground arith
group_digits-IsPlain d n h = absurd (omega arith)

abbrev AllDigits : Option Text → Type 0
AllDigits none = Unit {0}
AllDigits (some d) = All IsDigit d

keep-AllDigits : (c : ℕ) (o : Option Text) → IsDigit c → AllDigits o → AllDigits (keep c o)
keep-AllDigits c none h k = tt
keep-AllDigits c (some d) h k = (h, k)

scan_digits-AllDigits : (s : Text) → AllDigits (scan_digits s)
unfolding scan_digits
scan_digits-AllDigits [] = tt
scan_digits-AllDigits (c ∷ s) = elim (Bool-cases (is_digit c)) [
  | inl digit ↦ rw digit (keep-AllDigits c (scan_digits s) (ground arith) (scan_digits-AllDigits s))
  | inr other ↦ elim (Bool-cases (c == b'-')) [
    | inl dash ↦ rw (other, dash) (scan_digits-AllDigits s)
    | inr bad ↦ rw (other, bad) tt
  ]
]

nine_sound :
    (o : Option Text) (d : Text) → nine o ≡ some d → AllDigits o → (length d ≡ 9) × All IsDigit d
nine_sound none d e h = cc
nine_sound (some x) d e h =
    let eq : x ≡ d = ground arith in (ground arith, subst (All IsDigit) eq h)

-- What `digitCode` accepts are nine digits.
pub digit_code_sound : (s d : Text) → digit_code s ≡ some d → (length d ≡ 9) × All IsDigit d
unfolding digit_code
digit_code_sound s d e = nine_sound (scan_digits s) d e (scan_digits-AllDigits s)

-- The parts of a code of words: no part has a dash.
abbrev pub IsPart : Text → Type 0
IsPart = All (λ c. c ≢ b'-')

split_part : (p : Text) → IsPart p → split p ≡ p ∷ []
unfolding split
split_part [] h = refl
split_part (c ∷ p) h = ground (arith, split_part p h.1)

split-append : (p s : Text) → IsPart p → split (p ++ (b'-' ∷ s)) ≡ p ∷ split s
unfolding split
split-append [] s h = refl
split-append (c ∷ p) s h = ground (arith, split-append p s h.1)

pub split-join :
    (p q r : Text) → IsPart p → IsPart q → IsPart r → split (join (p ∷ q ∷ r ∷ [])) ≡ p ∷ q ∷ r ∷ []
unfolding join
split-join p q r hp hq hr =
    split-append p (q ++ (b'-' ∷ r)) hp
    ∙ ap (λ t. p ∷ t) (split-append q r hq ∙ ap (λ t. q ∷ t) (split_part r hr))
