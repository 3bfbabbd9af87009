-- ===== src/Limiter/Runs.antt =====
-- The limiter of limits.go on short histories of one address.
use tp.Prelude.{ℕ, zero, suc, ◌+◌, ◌-◌, ◌*◌, ◌≤◌, ◌≡◌, refl, List, [], ◌∷◌, some, arith, All}
use tp.Prelude.Text.{Text, text_eq}
use tp.Prelude.Maps.{lookup}
use tp.Store.{second}
use tp.Limiter.{
  limit_run, time, Limiter, Op, peers, exchanges, fails, sweeps, fresh_state, new_limiter, fail,
}
use tp.Limiter.Rate.{exchanges_granted, exchanges_granted_bound}
use tp.Limiter.Sources.{peers_granted, peers_granted_bound}
use tp.Limiter.Counting.{InWindow}
use tp.Limiter.Blocking.{fifty_failures_block}

abbrev addr : Text
addr = b'1' ∷ []

abbrev some_exchanges : List Op
some_exchanges = exchanges 1_000 ∷ peers addr 2_000 ∷ exchanges 1_500 ∷ fails addr 2_500 ∷ []

abbrev ordered_ops : List Op
ordered_ops = peers addr 1_000 ∷ fails addr 1_500 ∷ peers addr 2_000 ∷ sweeps 3_000 ∷ []

exchanges_granted_bound_example :
    exchanges_granted new_limiter some_exchanges * second ≤ 60 * second + 10 * (3_000 - 1_000)
exchanges_granted_bound_example =
    exchanges_granted_bound 1_000 3_000 some_exchanges (omega arith) (omega arith) (
      (omega arith, omega arith),
      ((omega arith, omega arith), ((omega arith, omega arith), ((omega arith, omega arith), tt))),
    )

peers_granted_bound_example :
    peers_granted addr new_limiter ordered_ops * (3 * second) ≤ 20 * (3 * second) + (3_000 - 1_000)
peers_granted_bound_example =
    peers_granted_bound addr 1_000 3_000 ordered_ops (omega arith)
      (omega arith, (omega arith, (omega arith, (omega arith, tt)))) (omega arith)
      (omega arith, (omega arith, (omega arith, (omega arith, tt))))

abbrev known : Limiter
known = record {
  ip = (addr, record fresh_state { last_seen = 10 }) ∷ [];
  global = new_limiter.global;
}

known_found : lookup addr known.ip ≡ some (record fresh_state { last_seen = 10 })
unfolding lookup text_eq
known_found = refl

-- Connections that are admitted, each with a failure after it.
abbrev rounds : ℕ → List Op
rounds zero = []
rounds (suc n) = peers addr 20 ∷ fails addr 21 ∷ rounds n

rounds-InWindow : (n : ℕ) → All (λ o. InWindow 10 (time o)) (rounds n)
rounds-InWindow zero = tt
rounds-InWindow (suc n) =
    ((omega arith, omega arith), ((omega arith, omega arith), rounds-InWindow n))

fifty_failures_block_example :
    peers_granted addr
      (fail (limit_run known (rounds 49)) addr 30)
      (peers addr 40 ∷ sweeps 50 ∷ peers addr (50 + second) ∷ [])
    ≡ 0
unfolding lookup text_eq
fifty_failures_block_example =
    fifty_failures_block addr 10 30 (rounds 49) known (record fresh_state { last_seen = 10 })
      (peers addr 40 ∷ sweeps 50 ∷ peers addr (50 + second) ∷ []) (refl, tt) known_found
      (omega arith) tt (rounds-InWindow 49) refl (omega arith, omega arith)
      ((omega arith, omega arith), ((omega arith, omega arith), ((omega arith, omega arith), tt)))
