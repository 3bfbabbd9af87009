-- ===== src/Code.antt =====
-- code.go: the codes that a user types. A text is a list of code points. The word list is a
-- parameter: the repository reads it from the file wordlist. Above ASCII, the case mapping and the
-- spaces of package unicode are a parameter too.
use tp.Prelude.{
  ℕ, zero, suc, ◌+◌, ◌-◌, ◌<◌, List, [], ◌∷◌, ◌++◌, map, Bool, true, false, not, ◌&&◌, ◌||◌, Option,
  none, some, ltb, leb, ◌==◌, if◌then◌else◌, length, take, drop, get_elem?, ◌≡◌, refl,
}
use tp.Prelude.Text.{Text, codes, text_eq, has_prefix}
pub mod Words
pub mod Digits
pub mod Canonical
mod Runs

abbrev pub word_count : ℕ
word_count = 1295

pub record Unicode : Type 0 where
  pub lower_rune : ℕ → ℕ
  pub is_space_rune : ℕ → Bool

-- What `canonical` and `expand` return with an error, by its message.
pub data CodeError : Type 0 where
  not_three_words : CodeError
  not_in_wordlist : CodeError
  ambiguous : ℕ → CodeError

pub data Outcome {ℓ} (R : Type ℓ) : Type ℓ where
  err : CodeError → Outcome R
  ok : R → Outcome R

infixl 5 ◌>>=◌
abbrev pub ◌>>=◌ {ℓ κ} : {R : Type ℓ} {S : Type κ} → Outcome R → (R → Outcome S) → Outcome S
err why >>= use_it = err why
ok r >>= use_it = use_it r

pub >>=-eq-ok {ℓ κ} :
    {R : Type ℓ} {S : Type κ} (tried : Outcome R) (use_it : R → Outcome S) {s : S}
    → (tried >>= use_it) ≡ ok s
    → (r : R) × (tried ≡ ok r) × (use_it r ≡ ok s)
>>=-eq-ok (err why) use_it won = cc
>>=-eq-ok (ok r) use_it won = (r, refl, won)

pub ok-injective {ℓ} : {R : Type ℓ} {r s : R} → ok r ≡ ok s → r ≡ s
ok-injective same = cc

-- `init`: panics on a repeated word and on a wrong count; the fields of the file are the argument.
unfoldable pub has_word : Text → List Text → Bool
has_word w [] = false
has_word w (v ∷ vs) = text_eq v w || has_word w vs

unfoldable pub load_words : List Text → List Text → Option (List Text)
unfolding has_word
load_words words [] = if length words == word_count then some words else none
load_words words (w ∷ fields) =
    let rest = load_words (words ++ w ∷ []) fields in if has_word w words then none else rest

-- `strings.ToLower` on one code point.
unfoldable pub lower : Unicode → ℕ → ℕ
lower u r = if ltb r 128 then (if leb b'A' r && leb r b'Z' then r + 32 else r) else u.lower_rune r

-- The spaces of `strings.TrimSpace`.
unfoldable pub is_space : Unicode → ℕ → Bool
is_space u r = if ltb r 128 then r == 32 || (leb 9 r && leb r 13) else u.is_space_rune r

unfoldable pub trim_left : Unicode → Text → Text
unfolding is_space
trim_left u [] = []
trim_left u (r ∷ s) = if is_space u r then trim_left u s else r ∷ s

abbrev cut : Unicode → ℕ → Text → Text
cut u r [] = if is_space u r then [] else r ∷ []
cut u r (x ∷ t) = r ∷ x ∷ t

-- Drops the spaces at the end.
unfoldable pub trim_right : Unicode → Text → Text
unfolding is_space
trim_right u [] = []
trim_right u (r ∷ s) = cut u r (trim_right u s)

unfoldable pub trim_space : Unicode → Text → Text
unfolding trim_left trim_right
trim_space u s = trim_right u (trim_left u s)

abbrev is_digit : ℕ → Bool
is_digit c = leb b'0' c && leb c b'9'

abbrev keep : ℕ → Option Text → Option Text
keep c none = none
keep c (some ds) = some (c ∷ ds)

-- The loop of `digitCode`: the digits, or none at another character than a digit or a dash.
unfoldable pub scan_digits : Text → Option Text
scan_digits [] = some []
scan_digits (c ∷ s) =
    if is_digit c then keep c (scan_digits s) else if c == b'-' then scan_digits s else none

abbrev nine : Option Text → Option Text
nine none = none
nine (some ds) = if length ds == 9 then some ds else none

unfoldable pub digit_code : Text → Option Text
unfolding scan_digits
digit_code code = nine (scan_digits code)

-- On nine digits.
unfoldable pub group_digits : Text → Text
group_digits d = take 3 d ++ (b'-' ∷ (take 3 (drop 3 d) ++ (b'-' ∷ take 3 (drop 6 d))))

-- `strings.Split(s, "-")`: never empty.
abbrev cons_part : ℕ → List Text → List Text
cons_part c [] = (c ∷ []) ∷ []
cons_part c (p ∷ ps) = (c ∷ p) ∷ ps

unfoldable pub split : Text → List Text
split [] = [] ∷ []
split (c ∷ s) = let rest = split s in if c == b'-' then [] ∷ rest else cons_part c rest

-- `strings.Join(parts, "-")`
unfoldable pub join : List Text → Text
join [] = []
join (p ∷ []) = p
join (p ∷ q ∷ ps) = p ++ (b'-' ∷ join (q ∷ ps))

-- The switch on the number of matches.
abbrev resolve : Text → ℕ → Outcome Text
resolve found n =
    if n == 0 then err not_in_wordlist else if n == 1 then ok found else err (ambiguous n)

-- The loop of `expand`, with `match` and `n` so far.
unfoldable pub expand_loop : List Text → Text → Text → ℕ → Outcome Text
expand_loop [] prefix found n = resolve found n
expand_loop (w ∷ words) prefix found n =
    let hit = expand_loop words prefix w (n + 1) in
    let miss = expand_loop words prefix found n in
    if text_eq w prefix then ok w else if has_prefix w prefix then hit else miss

unfoldable pub expand : List Text → Text → Outcome Text
unfolding expand_loop
expand words prefix = expand_loop words prefix [] 0

abbrev expand_three : List Text → List Text → Outcome Text
expand_three words (p ∷ q ∷ r ∷ []) = expand words p >>= λ p'.
    expand words q >>= λ q'. expand words r >>= λ r'. ok (join (p' ∷ q' ∷ r' ∷ []))
expand_three words parts = err not_three_words

abbrev canonical_trimmed : List Text → Text → Option Text → Outcome Text
canonical_trimmed words code (some digits) = ok (group_digits digits)
canonical_trimmed words code none = expand_three words (split code)

unfoldable pub canonical : Unicode → List Text → Text → Outcome Text
unfolding trim_space lower digit_code group_digits split expand join
canonical u words code =
    let code' : Text = map (lower u) (trim_space u code) in
    canonical_trimmed words code' (digit_code code')

-- `words[i]` for an index in range.
abbrev word_at : List Text → ℕ → Text
word_at words i = elim (get_elem? words i) [ none ↦ [] | some w ↦ w ]

-- `a`, `b` and `c` are what `randIndex(len(words))` returned.
unfoldable pub new_code : List Text → ℕ → ℕ → ℕ → Text
unfolding join
new_code words a b c = join (word_at words a ∷ word_at words b ∷ word_at words c ∷ [])

-- The draws are what `randIndex(10)` returned, nine of them.
unfoldable pub new_digit_code : List ℕ → Text
unfolding group_digits
new_digit_code draws = group_digits (map (λ n. b'0' + n) draws)
