-- ===== src/Random/Counts.antt =====
-- The shuffle moves elements and keeps how often each occurs.
use tp.Prelude.{
  ℕ, zero, suc, ◌+◌, ◌<◌, ◌≡◌, refl, ◌≢◌, List, [], ◌∷◌, ◌++◌, arith, if◌then◌else◌, length, get_or,
  set, length-set, Bool, replicate, ◌∙◌, ap, subst,
}
use native.Mathlib.Decide.{ℕ_discrete}
use tp.Random.{rand_index, swap, shuffle_loop, shuffle}

-- Each draw lies below its bound, as rand.Int promises.
abbrev pub IsFair : (ℕ → ℕ) → Type 0
IsFair pick = (i : ℕ) → pick i < i + 1

-- How many elements satisfy the test.
module _ {ℓ} {A : Type ℓ} (test : A → Bool) where
  unfoldable pub count : List A → ℕ
  count [] = 0
  count (x ∷ xs) = (if test x then 1 else 0) + count xs

  pub count-append : (xs ys : List A) → count (xs ++ ys) ≡ count xs + count ys
  unfolding count
  count-append [] ys = omega arith
  count-append (x ∷ xs) ys = omega (arith, count-append xs ys)

  pub count-replicate : (n : ℕ) (a : A) → count (replicate n a) ≡ (if test a then n else 0)
  unfolding count
  count-replicate zero a = ground arith
  count-replicate (suc n) a = ground (arith, count-replicate n a)

  one : A → ℕ
  one a = if test a then 1 else 0

  count-set :
      (xs : List A) (i : ℕ) (v d : A)
      → i < length xs
      → count (set xs i v) + one (get_or xs i d) ≡ count xs + one v
  unfolding count one
  count-set [] i v d h = absurd (omega arith)
  count-set (x ∷ xs) zero v d h = omega arith
  count-set (x ∷ xs) (suc i) v d h = omega (arith, count-set xs i v d (omega arith))

  get_or-set_self : (xs : List A) (i : ℕ) (v d : A) → i < length xs → get_or (set xs i v) i d ≡ v
  get_or-set_self [] i v d h = absurd (omega arith)
  get_or-set_self (x ∷ xs) zero v d h = refl
  get_or-set_self (x ∷ xs) (suc i) v d h = get_or-set_self xs i v d (omega arith)

  get_or-set_ne :
      (xs : List A) (i j : ℕ) (v d : A) → i ≢ j → get_or (set xs i v) j d ≡ get_or xs j d
  get_or-set_ne [] i j v d h = refl
  get_or-set_ne (x ∷ xs) zero zero v d h = absurd (h refl)
  get_or-set_ne (x ∷ xs) zero (suc j) v d h = refl
  get_or-set_ne (x ∷ xs) (suc i) zero v d h = refl
  get_or-set_ne (x ∷ xs) (suc i) (suc j) v d h = get_or-set_ne xs i j v d (omega arith)

  count-swap :
      (d : A) (i j : ℕ) (xs : List A)
      → i < length xs
      → j < length xs
      → count (swap d i j xs) ≡ count xs
  unfolding swap
  count-swap d i j xs hi hj = elim (ℕ_discrete i j) [
    | yes e ↦ omega (
      arith,
      first,
      second,
      ap one (
          subst (λ k. get_or (set xs i (get_or xs j d)) k d ≡ get_or xs j d) e
            (get_or-set_self xs i (get_or xs j d) d hi)),
      ap (λ (k : ℕ). one (get_or xs k d)) e,
    )
    | no ne ↦ omega (arith, first, second, ap one (get_or-set_ne xs i j (get_or xs j d) d ne))
  ]
    where
      first :
          count (set xs i (get_or xs j d)) + one (get_or xs i d) ≡ count xs + one (get_or xs j d)
      first = count-set xs i (get_or xs j d) d hi

      second :
          count (set (set xs i (get_or xs j d)) j (get_or xs i d))
            + one (get_or (set xs i (get_or xs j d)) j d)
          ≡ count (set xs i (get_or xs j d)) + one (get_or xs i d)
      second =
          count-set (set xs i (get_or xs j d)) j (get_or xs i d) d
            (omega (arith, length-set xs i (get_or xs j d)))

  length-swap : (d : A) (i j : ℕ) (xs : List A) → length (swap d i j xs) ≡ length xs
  unfolding swap
  length-swap d i j xs =
      length-set (set xs i (get_or xs j d)) j (get_or xs i d) ∙ length-set xs i (get_or xs j d)

  count-shuffle_loop :
      (d : A) (pick : ℕ → ℕ) (i : ℕ) (xs : List A)
      → IsFair pick
      → i < length xs
      → (count (shuffle_loop d pick i xs) ≡ count xs)
        × (length (shuffle_loop d pick i xs) ≡ length xs)
  unfolding shuffle_loop
  count-shuffle_loop d pick zero xs f h = (refl, refl)
  count-shuffle_loop d pick (suc i) xs f h =
      let j : ℕ = rand_index (i + 2) (pick (suc i)) in
      let low : j < i + 2 = unfold rand_index in ground (arith, f (suc i)) in
      let ih =
        count-shuffle_loop d pick i (swap d (suc i) j xs) f
          (omega (arith, length-swap d (suc i) j xs)) in
      (ih.0 ∙ count-swap d (suc i) j xs h (omega (arith, low)), ih.1 ∙ length-swap d (suc i) j xs)

  pub count-shuffle :
      (pick : ℕ → ℕ) (xs : List A)
      → IsFair pick
      → (count (shuffle pick xs) ≡ count xs) × (length (shuffle pick xs) ≡ length xs)
  unfolding shuffle
  count-shuffle pick [] f = (refl, refl)
  count-shuffle pick (x ∷ xs) f = count-shuffle_loop x pick (length xs) (x ∷ xs) f (omega arith)
