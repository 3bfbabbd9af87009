-- ===== src/Pake/Encoding.antt =====
-- The encodings of pake.go: LEB128 lengths, length-value concatenation and the role independent
-- order. Lengths are Go's int and never negative.
use tp.Prelude.{
  ℕ, zero, suc, ◌+◌, ◌/◌, ◌%◌, List, [], ◌∷◌, ◌++◌, Bool, true, false, ltb, ◌==◌, if◌then◌else◌,
  length,
}
use tp.Prelude.Text.{codes}
pub mod Lengths
pub mod Order
mod Runs

-- One byte of the loop: `byte(n)`, or `byte(n&0x7f)+0x80`, where `n & 0x7f` is `n % 128`.
abbrev pub group : ℕ → ℕ
group n = if ltb n 128 then n else n % 128 + 0x80

-- The loop of `prependLen`, with fuel for its rounds; `n >>= 7` is `n / 128`.
unfoldable pub leb128 : ℕ → ℕ → List ℕ
leb128 zero n = []
leb128 (suc fuel) n =
    let rest = leb128 fuel (n / 128) in if n / 128 == 0 then group n ∷ [] else group n ∷ rest

-- Each round makes `n` smaller, so `n + 1` rounds are enough.
unfoldable pub prepend_len : List ℕ → List ℕ
unfolding leb128
prepend_len b = leb128 (suc (length b)) (length b) ++ b

unfoldable pub lv_cat : List (List ℕ) → List ℕ
unfolding prepend_len
lv_cat [] = []
lv_cat (p ∷ ps) = prepend_len p ++ lv_cat ps

unfoldable pub lex_greater : List ℕ → List ℕ → Bool
lex_greater [] b = false
lex_greater (x ∷ a) [] = true
lex_greater (x ∷ a) (y ∷ b) = if x == y then lex_greater a b else ltb y x

unfoldable pub o_cat : List ℕ → List ℕ → List ℕ
unfolding lex_greater
o_cat a b = if lex_greater a b then codes "oc" ++ (a ++ b) else codes "oc" ++ (b ++ a)
