-- ===== src/Store/Padding.antt =====
-- `paddedCount` of store.go: the number of candidates in an offer.
use tp.Prelude.{
  ℕ, zero, suc, ◌+◌, ◌*◌, ◌^◌, ◌≤◌, ◌<◌, ◌≡◌, ◌⊎◌, inl, inr, arith, ltb, Bool-cases, ◌&&◌, refl,
  subst, ap,
}
use native.Mathlib.Nat.{pow-suc}
use tp.Store.{padded_loop, padded_count, min_candidates, max_candidates}

-- One bucket of the loop: a power of two from 4 to 512.
abbrev pub IsBucket : ℕ → Type 0
IsBucket n = (k : ℕ) × (k ≤ 7) × (n ≡ 4 * 2 ^ k)

loop-IsBucket : (fuel live k : ℕ) → fuel + k ≤ 7 → IsBucket (padded_loop fuel live (4 * 2 ^ k))
unfolding padded_loop
loop-IsBucket zero live k h = (k, omega arith, refl)
loop-IsBucket (suc fuel) live k h =
    elim (Bool-cases (ltb (4 * 2 ^ k) (live + 1) && ltb (4 * 2 ^ k) max_candidates)) [
      | inl more ↦ rw more (
          subst (λ n. IsBucket (padded_loop fuel live n)) (double k)
            (loop-IsBucket fuel live (suc k) (omega arith)))
      | inr done ↦ rw done (k, omega arith, refl)
    ]
  where
    double : (k : ℕ) → 4 * 2 ^ suc k ≡ 4 * 2 ^ k * 2
    double k = omega (arith, pow-suc 2 k)

-- With fuel for every doubling below 512 the loop ends by its test.
loop_end :
    (fuel live n : ℕ)
    → max_candidates ≤ n * 2 ^ fuel
    → live < max_candidates
    → live < padded_loop fuel live n
unfolding padded_loop
loop_end zero live n h l = omega arith
loop_end (suc fuel) live n h l = ground (arith, loop_end fuel live (n * 2), pow-suc 2 fuel, scaled)
  where
    scaled : n * 2 * 2 ^ fuel ≡ n * 2 ^ suc fuel
    scaled = omega (arith, ap (λ (t : ℕ). n * t) (pow-suc 2 fuel))

-- Every bucket but the first is at most twice the number of live pastes.
loop_tight :
    (fuel live n : ℕ)
    → (n ≡ 4) ⊎ (n ≤ live * 2)
    → (padded_loop fuel live n ≡ 4) ⊎ (padded_loop fuel live n ≤ live * 2)
unfolding padded_loop
loop_tight zero live n h = h
loop_tight (suc fuel) live n h = ground (arith, loop_tight fuel live (n * 2))

-- The size of an offer is one of the powers of two from 4 to 512; below 512 live pastes it has room
-- for a decoy, and it is the smallest such bucket: 4, or at most twice the number of live pastes.
pub padded_count_lem :
    (live : ℕ)
    → live < max_candidates
    → IsBucket (padded_count live)
      × (live < padded_count live)
      × ((padded_count live ≡ min_candidates) ⊎ (padded_count live ≤ live * 2))
unfolding padded_count
padded_count_lem live h = (
  loop-IsBucket 7 live 0 (omega arith),
  loop_end 7 live 4 (omega arith) h,
  loop_tight 7 live 4 (inl refl),
)
