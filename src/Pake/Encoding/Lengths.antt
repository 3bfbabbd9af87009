-- ===== src/Pake/Encoding/Lengths.antt =====
-- The length-value encoding of pake.go can be read back, so different inputs to the hash are
-- different byte strings.
use tp.Prelude.{
  ℕ, zero, suc, ◌+◌, ◌-◌, ◌*◌, ◌/◌, ◌<◌, ◌≡◌, refl, List, [], ◌∷◌, ◌++◌, Option, none, some, arith,
  ltb, ◌==◌, if◌then◌else◌, length, take, drop, take-append, drop-append, ap, ◌∙◌, sym, ◌≢◌,
  Bool-cases, inl, inr,
}
use tp.Pake.Encoding.{leb128, prepend_len, lv_cat}
use mathlib.Core.List.{append_assoc}

-- Reads a LEB128 number: the specification that `prependLen` is held to.
abbrev more : ℕ → Option (ℕ × List ℕ) → Option (ℕ × List ℕ)
more g none = none
more g (some (n, s)) = some (g + 128 * n, s)

unfoldable pub read_leb128 : List ℕ → Option (ℕ × List ℕ)
read_leb128 [] = none
read_leb128 (b ∷ s) = if ltb b 128 then some (b, s) else more (b - 128) (read_leb128 s)

-- With fuel above `n` the loop ends by its test, and the number is read back in front of any bytes.
pub read_leb128-leb128 :
    (fuel n : ℕ) (s : List ℕ) → n < fuel → read_leb128 (leb128 fuel n ++ s) ≡ some (n, s)
unfolding read_leb128 leb128
read_leb128-leb128 zero n s h = absurd (omega arith)
read_leb128-leb128 (suc fuel) n s h = elim (Bool-cases (n / 128 == 0)) [
  | inl last ↦ rw last (ground arith)
  | inr more_groups ↦
      rw more_groups (ground (arith, read_leb128-leb128 fuel (n / 128) s (ground arith)))
]

-- Splits off one encoded part: the specification of `prependLen`.
abbrev split_at : Option (ℕ × List ℕ) → Option (List ℕ × List ℕ)
split_at none = none
split_at (some (n, s)) = some (take n s, drop n s)

unfoldable pub read_part : List ℕ → Option (List ℕ × List ℕ)
read_part s = split_at (read_leb128 s)

pub read_part-prepend_len : (b s : List ℕ) → read_part (prepend_len b ++ s) ≡ some (b, s)
unfolding read_part prepend_len
read_part-prepend_len b s =
    ap (λ t. split_at (read_leb128 t)) (append_assoc (leb128 (suc (length b)) (length b)) b s)
    ∙ ap split_at (read_leb128-leb128 (suc (length b)) (length b) (b ++ s) (omega arith))
    ∙ ap some (λ i. (take-append b s i, drop-append b s i))

-- No encoded part is a proper prefix of another.
pub prepend_len-prefix_free :
    (a b r s : List ℕ) → prepend_len a ++ r ≡ prepend_len b ++ s → (a ≡ b) × (r ≡ s)
prepend_len-prefix_free a b r s e =
    let same : ◌≡◌ {A = Option (List ℕ × List ℕ)} (some (a, r)) (some (b, s)) =
      sym (read_part-prepend_len a r) ∙ ap read_part e ∙ read_part-prepend_len b s in
    ground arith

prepend_len-ne-nil : (b s : List ℕ) → prepend_len b ++ s ≢ []
unfolding prepend_len leb128
prepend_len-ne-nil b s e = ground arith

pub lv_cat-append : (ps qs : List (List ℕ)) → lv_cat (ps ++ qs) ≡ lv_cat ps ++ lv_cat qs
unfolding lv_cat
lv_cat-append [] qs = refl
lv_cat-append (p ∷ ps) qs =
    ap (λ s. prepend_len p ++ s) (lv_cat-append ps qs)
    ∙ sym (append_assoc (prepend_len p) (lv_cat ps) (lv_cat qs))

-- `lvCat` is injective on lists of parts of any length: where the parts end can be read off the
-- bytes.
pub lv_cat-injective : (ps qs : List (List ℕ)) → lv_cat ps ≡ lv_cat qs → ps ≡ qs
unfolding lv_cat
lv_cat-injective [] [] e = refl
lv_cat-injective [] (q ∷ qs) e = absurd (prepend_len-ne-nil q (lv_cat qs) (sym e))
lv_cat-injective (p ∷ ps) [] e = absurd (prepend_len-ne-nil p (lv_cat ps) e)
lv_cat-injective (p ∷ ps) (q ∷ qs) e =
    let (same, rest) = prepend_len-prefix_free p q (lv_cat ps) (lv_cat qs) e in
    let tails = lv_cat-injective ps qs rest in λ i. same i ∷ tails i
