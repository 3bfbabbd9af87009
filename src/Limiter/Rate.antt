-- ===== src/Limiter/Rate.antt =====
-- How many tokens a bucket of limits.go hands out in a stretch of time.
use tp.Prelude.{
  ℕ, ◌+◌, ◌-◌, ◌*◌, ◌≤◌, ◌<◌, ◌≡◌, refl, List, [], ◌∷◌, Bool, true, false, arith, All, ◌⊎◌, inl,
  inr, subst,
}
use tp.Prelude.Int.{pos_part, neg_part}
use tp.Prelude.Text.{Text}
use tp.Store.{second}
use tp.Limiter.{
  Bucket, token, take, spend, started, Limiter, Op, peers, exchanges, fails, sweeps, time,
  allow_peer, allow_exchange, fail, sweep, new_limiter, global_burst, global_per_second,
}

abbrev pub one : Bool → ℕ
one true = 1
one false = 0

-- What `g` tokens granted since the time `start` leave in a bucket that has been used.
abbrev pub Paid : ℕ → ℕ → ℕ → ℕ → Bucket → Type 0
Paid burst rate start g b =
    g * token + pos_part b.tokens + start * rate ≤ burst + b.last * rate + neg_part b.tokens

-- The same of any bucket.
abbrev pub Pays : ℕ → ℕ → ℕ → ℕ → Bucket → Type 0
Pays burst rate start g b = (b.last ≡ 0) × (g ≡ 0) ⊎ (0 < b.last) × Paid burst rate start g b

pub mul_mono : (a b rate : ℕ) → a ≤ b → a * rate ≤ b * rate
mul_mono a b rate h = grind arith

spend-Paid :
    (burst rate start g now : ℕ) (b : Bucket)
    → Paid burst rate start g b
    → Paid burst rate start (g + one (spend b now burst rate).1) (spend b now burst rate).0
      × ((spend b now burst rate).0.last ≡ now)
unfolding spend
spend-Paid burst rate start g now b p = ground arith

spend_granted :
    (burst rate now : ℕ) (b : Bucket)
    → (spend b now burst rate).1 ≡ true
    → neg_part (spend b now burst rate).0.tokens ≡ 0
unfolding spend
spend_granted burst rate now b e = ground arith

started-Paid :
    (burst rate start g now : ℕ) (b : Bucket)
    → start ≤ now
    → Pays burst rate start g b
    → Paid burst rate start g (started b now burst)
started-Paid burst rate start g now b h p = ground (arith, mul_mono start now rate h)

-- A `take` at `now` keeps the account, with the token that it granted.
pub take-Paid :
    (burst rate start g now : ℕ) (b : Bucket)
    → start ≤ now
    → Pays burst rate start g b
    → Paid burst rate start (g + one (take b now burst rate).1) (take b now burst rate).0
      × ((take b now burst rate).0.last ≡ now)
unfolding take
take-Paid burst rate start g now b h p =
    spend-Paid burst rate start g now (started b now burst)
      (started-Paid burst rate start g now b h p)

pub take_granted :
    (burst rate now : ℕ) (b : Bucket)
    → (take b now burst rate).1 ≡ true
    → neg_part (take b now burst rate).0.tokens ≡ 0
unfolding take
take_granted burst rate now b e = spend_granted burst rate now (started b now burst) e

-- `g` tokens are what the burst and the refill from `start` to `stop` allow.
abbrev pub Within : ℕ → ℕ → ℕ → ℕ → ℕ → Type 0
Within burst rate start stop g = g * token + start * rate ≤ burst + stop * rate

pub take-Within :
    (burst rate start stop g now : ℕ) (b : Bucket)
    → start ≤ now
    → now ≤ stop
    → Pays burst rate start g b
    → Within burst rate start stop g
    → Within burst rate start stop (g + one (take b now burst rate).1)
take-Within burst rate start stop g now b h k p w = grind (
  arith,
  take-Paid burst rate start g now b h p,
  take_granted burst rate now b,
  mul_mono now stop rate k,
)

-- The exchanges that a history is granted.
unfoldable pub exchanges_granted : Limiter → List Op → ℕ
exchanges_granted l [] = 0
exchanges_granted l (exchanges now ∷ os) =
    one (allow_exchange l now).1 + exchanges_granted (allow_exchange l now).0 os
exchanges_granted l (peers addr now ∷ os) = exchanges_granted (allow_peer l addr now).0 os
exchanges_granted l (fails addr now ∷ os) = exchanges_granted (fail l addr now) os
exchanges_granted l (sweeps now ∷ os) = exchanges_granted (sweep l now) os

abbrev pub Between : ℕ → ℕ → List Op → Type 0
Between start stop = All (λ o. (start ≤ time o) × (time o ≤ stop))

allow_peer-global :
    (l : Limiter) (addr : Text) (now : ℕ) → (allow_peer l addr now).0.global ≡ l.global
unfolding allow_peer
allow_peer-global l addr now = refl

fail-global : (l : Limiter) (addr : Text) (now : ℕ) → (fail l addr now).global ≡ l.global
unfolding fail
fail-global l addr now = ground arith

account :
    (start stop g : ℕ) (l : Limiter) (os : List Op)
    → 0 < start
    → Between start stop os
    → Pays global_burst global_per_second start g l.global
    → Within global_burst global_per_second start stop g
    → Within global_burst global_per_second start stop (g + exchanges_granted l os)
unfolding exchanges_granted
account start stop g l [] pos_start t p w = omega arith
account start stop g l (peers addr now ∷ os) z t p w =
    account start stop g (allow_peer l addr now).0 os z t.1 (rw (allow_peer-global l addr now) p) w
account start stop g l (fails addr now ∷ os) z t p w =
    account start stop g (fail l addr now) os z t.1 (rw (fail-global l addr now) p) w
account start stop g l (sweeps now ∷ os) z t p w =
    account start stop g (sweep l now) os z t.1 (unfold sweep in p) w
account start stop g l (exchanges now ∷ os) z t p w =
    subst (Within global_burst global_per_second start stop) (omega arith) (
      account start stop (g + one (allow_exchange l now).1) (allow_exchange l now).0 os z t.1
        (unfold allow_exchange in inr (ground (arith, paid.1), paid.0))
        (unfold allow_exchange in
          take-Within global_burst global_per_second start stop g now l.global t.0.0 t.0.1 p w))
  where
    paid :
        Paid global_burst global_per_second start
          (g + one (take l.global now global_burst global_per_second).1)
          (take l.global now global_burst global_per_second).0
        × ((take l.global now global_burst global_per_second).0.last ≡ now)
    paid = take-Paid global_burst global_per_second start g now l.global t.0.0 p

-- In any history of the limiter from its start whose clock readings lie between `start` and `stop`,
-- in whatever order the calls take the lock, at most 60 exchanges and ten for each second between
-- the two times are granted.
pub exchanges_granted_bound :
    (start stop : ℕ) (os : List Op)
    → 0 < start
    → start ≤ stop
    → Between start stop os
    → exchanges_granted new_limiter os * second ≤ 60 * second + 10 * (stop - start)
exchanges_granted_bound start stop os z h t =
    omega (arith, account start stop 0 new_limiter os z t (inl (refl, refl)) (omega arith))
