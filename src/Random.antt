-- ===== src/Random.antt =====
-- code.go (`randIndex`) and the shuffle of store.go (`candidates`). crypto/rand is an oracle: a
-- function, or the value that a draw returned.
pub mod Counts
use tp.Prelude.{
  ℕ, zero, suc, ◌+◌, ◌-◌, ◌≤◌, ◌<◌, ◌≡◌, refl, ◌≢◌, List, [], ◌∷◌, arith, leb, if◌then◌else◌,
  length, get_or, set, ◌==◌, length-set,
}

-- `randIndex`: `draw` is what rand.Int returned for the bound `n`.
unfoldable pub rand_index : ℕ → ℕ → ℕ
rand_index n draw = if leb n 1 then 0 else draw

module _ {ℓ} {A : Type ℓ} where
  -- `out[i], out[j] = out[j], out[i]`; `d` is never read in range.
  unfoldable pub swap : A → ℕ → ℕ → List A → List A
  swap d i j xs = set (set xs i (get_or xs j d)) j (get_or xs i d)

  -- for i := n; i > 0; i-- { j := randIndex(i + 1); swap i and j }
  unfoldable pub shuffle_loop : A → (ℕ → ℕ) → ℕ → List A → List A
  unfolding swap rand_index
  shuffle_loop d pick zero xs = xs
  shuffle_loop d pick (suc i) xs =
      shuffle_loop d pick i (swap d (suc i) (rand_index (i + 2) (pick (suc i))) xs)

  -- `pick i` is the draw of the round `i`.
  unfoldable pub shuffle : (ℕ → ℕ) → List A → List A
  unfolding shuffle_loop
  shuffle pick [] = []
  shuffle pick (x ∷ xs) = shuffle_loop x pick (length xs) (x ∷ xs)
