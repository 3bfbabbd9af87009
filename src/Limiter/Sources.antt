-- ===== src/Limiter/Sources.antt =====
-- The limit per address of limits.go, across the sweeps that forget an address.
use tp.Prelude.{
  ℕ, ◌+◌, ◌-◌, ◌*◌, ◌≤◌, ◌<◌, ◌≡◌, List, [], ◌∷◌, Bool, true, not, arith, Option, none, some,
  if◌then◌else◌, subst, Option-cases, Bool-cases, inl, inr, All, sym, ap, ◌∙◌,
}
use tp.Prelude.Int.{neg_part}
use tp.Prelude.Text.{Text, text_eq, text_eq_iff}
use tp.Prelude.Maps.{
  lookup, Distinct, lookup-insert, lookup-keep_if, insert-Distinct, keep_if-Distinct,
}
use tp.Store.{second}
use tp.Limiter.Rate.{one, Paid, take-Paid}
use tp.Limiter.{
  Bucket, zero_bucket, token, take, spend, started, IpState, state_of, admit, Limiter, Op, peers,
  exchanges, fails, sweeps, time, allow_peer, allow_exchange, fail, failed, fail_found, sweep,
  is_stale, new_limiter, rate_burst, rate_per_minute,
}

-- The clock readings never go back.
abbrev pub Ordered : ℕ → List Op → Type 0
Ordered clock [] = Unit {0}
Ordered clock (o ∷ os) = (clock ≤ time o) × Ordered (time o) os

-- What the tokens granted to an address leave in its entry; without an entry they are paid for by
-- the time that has passed.
abbrev Account : ℕ → ℕ → ℕ → Option IpState → Type 0
Account start g clock none = g * token + start ≤ clock
Account start g clock (some s) =
    (0 < s.bucket.last)
    × (s.bucket.last ≤ s.last_seen)
    × (s.last_seen ≤ clock)
    × (neg_part s.bucket.tokens ≡ 0)
    × Paid rate_burst rate_per_minute start g s.bucket

spend_nonneg :
    (now : ℕ) (b : Bucket)
    → b.last ≤ now
    → neg_part b.tokens ≡ 0
    → neg_part (spend b now rate_burst rate_per_minute).0.tokens ≡ 0
unfolding spend
spend_nonneg now b h e = ground arith

take_nonneg :
    (now : ℕ) (b : Bucket)
    → b.last ≤ now
    → neg_part b.tokens ≡ 0
    → neg_part (take b now rate_burst rate_per_minute).0.tokens ≡ 0
unfolding take
take_nonneg now b h e = spend_nonneg now (started b now rate_burst) (ground arith) (ground arith)

take_fresh :
    (start g now : ℕ)
    → g * token + start ≤ now
    → Paid rate_burst rate_per_minute start
        (g + one (take zero_bucket now rate_burst rate_per_minute).1)
        (take zero_bucket now rate_burst rate_per_minute).0
      × ((take zero_bucket now rate_burst rate_per_minute).0.last ≡ now)
unfolding take spend
take_fresh start g now h = ground arith

admit-Account :
    (start g clock now : ℕ) (o : Option IpState)
    → 0 < start
    → start ≤ now
    → clock ≤ now
    → Account start g clock o
    → Account start (g + one (admit (state_of o) now).1) now (some (admit (state_of o) now).0)
unfolding admit
admit-Account start g clock now none z h k a =
    ground (arith, take_fresh start g now, take_nonneg now zero_bucket)
admit-Account start g clock now (some s) z h k a =
    ground
      (arith, take-Paid rate_burst rate_per_minute start g now s.bucket h, take_nonneg now s.bucket)

later :
    (start g clock now : ℕ) (o : Option IpState)
    → clock ≤ now
    → Account start g clock o
    → Account start g now o
later start g clock now none h a = omega arith
later start g clock now (some s) h a = (a.0, a.1, omega arith, a.3, a.4)

failed-Account :
    (start g now : ℕ) (s : IpState)
    → Account start g now (some s)
    → Account start g now (some (failed s now))
unfolding failed
failed-Account start g now s a = ground arith

stale-Account :
    (start g now : ℕ) (s : IpState)
    → Account start g now (some s)
    → is_stale now s ≡ true
    → Account start g now none
stale-Account start g now s a e = ground arith

-- The admissions that a history grants to an address.
unfoldable pub peers_granted : Text → Limiter → List Op → ℕ
peers_granted a l [] = 0
peers_granted a l (peers addr now ∷ os) =
    (if text_eq addr a then one (allow_peer l addr now).1 else 0)
    + peers_granted a (allow_peer l addr now).0 os
peers_granted a l (exchanges now ∷ os) = peers_granted a (allow_exchange l now).0 os
peers_granted a l (fails addr now ∷ os) = peers_granted a (fail l addr now) os
peers_granted a l (sweeps now ∷ os) = peers_granted a (sweep l now) os

abbrev Holds : Text → ℕ → ℕ → ℕ → Limiter → Type 0
Holds a start g clock l = Distinct l.ip × Account start g clock (lookup a l.ip)

peer-Holds :
    (a : Text) (start g clock : ℕ) (l : Limiter) (addr : Text) (now : ℕ)
    → 0 < start
    → start ≤ now
    → clock ≤ now
    → Holds a start g clock l
    → Holds a start
        (g + (if text_eq addr a then one (allow_peer l addr now).1 else 0))
        now
        (allow_peer l addr now).0
unfolding allow_peer
peer-Holds a start g clock l addr now z h k (d, acc) = (
  insert-Distinct addr entry l.ip d,
  rw (lookup-insert addr a entry l.ip) (elim (Bool-cases (text_eq addr a)) [
    | inl same ↦
        let e : addr ≡ a = (text_eq_iff addr a).0 same in
        rw (same) (
          admit-Account start g clock now (lookup addr l.ip) z h k
            (subst (λ x. Account start g clock (lookup x l.ip)) (sym e) acc))
    | inr other ↦ rw other (
        subst (λ n. Account start n now (lookup a l.ip)) (omega arith)
          (later start g clock now (lookup a l.ip) k acc))
  ]),
)
  where
    entry : IpState
    entry = (admit (state_of (lookup addr l.ip)) now).0

fail-Holds :
    (a : Text) (start g clock : ℕ) (l : Limiter) (addr : Text) (now : ℕ)
    → clock ≤ now
    → Holds a start g clock l
    → Holds a start g now (fail l addr now)
unfolding fail
fail-Holds a start g clock l addr now k (d, acc) = elim (Option-cases (lookup addr l.ip)) [
  | inl e ↦ rw (e, fail_found) (d, later start g clock now (lookup a l.ip) k acc)
  | inr (s, e) ↦
      rw (e, fail_found)
        (
          insert-Distinct addr (failed s now) l.ip d,
          rw (lookup-insert addr a (failed s now) l.ip) (elim (Bool-cases (text_eq addr a)) [
            | inl same ↦
                let eq : addr ≡ a = (text_eq_iff addr a).0 same in
                rw same (
                  failed-Account start g now s (
                    later start g clock now (some s) k
                      (subst (Account start g clock) (ap (λ x. lookup x l.ip) (sym eq) ∙ e) acc)))
            | inr other ↦ rw other (later start g clock now (lookup a l.ip) k acc)
          ]),
        )
]

sweep-Holds :
    (a : Text) (start g clock : ℕ) (l : Limiter) (now : ℕ)
    → clock ≤ now
    → Holds a start g clock l
    → Holds a start g now (sweep l now)
unfolding sweep
sweep-Holds a start g clock l now k (d, acc) =
    (keep_if-Distinct fresh l.ip d, rw (lookup-keep_if fresh a l.ip d) (swept (lookup a l.ip) acc))
  where
    fresh : IpState → Bool
    fresh s = not (is_stale now s)

    swept :
        (o : Option IpState)
        → Account start g clock o
        → Account start g now (elim o [ none ↦ none | some v ↦ if fresh v then some v else none ])
    swept none acc = later start g clock now none k acc
    swept (some s) acc = elim (Bool-cases (is_stale now s)) [
      | inl old ↦ rw old (stale-Account start g now s (later start g clock now (some s) k acc) old)
      | inr new ↦ rw new (later start g clock now (some s) k acc)
    ]

Account-bound :
    (start g clock : ℕ) (o : Option IpState)
    → Account start g clock o
    → g * token + start ≤ rate_burst + clock
Account-bound start g clock none a = omega arith
Account-bound start g clock (some s) a = omega arith

account :
    (a : Text) (start g clock stop : ℕ) (l : Limiter) (os : List Op)
    → 0 < start
    → start ≤ clock
    → Ordered clock os
    → clock ≤ stop
    → All (λ o. time o ≤ stop) os
    → Holds a start g clock l
    → (g + peers_granted a l os) * token + start ≤ rate_burst + stop
unfolding peers_granted
account a start g clock stop l [] z h ord k t hold =
    omega (arith, Account-bound start g clock (lookup a l.ip) hold.1)
account a start g clock stop l (peers addr now ∷ os) z h ord k t hold =
    let more =
      account a start (g + (if text_eq addr a then one (allow_peer l addr now).1 else 0)) now stop
        (allow_peer l addr now).0 os z (omega arith) ord.1 t.0 t.1
        (peer-Holds a start g clock l addr now z (omega arith) ord.0 hold) in
    omega (arith, more)
account a start g clock stop l (exchanges now ∷ os) z h ord k t hold =
    account a start g now stop (allow_exchange l now).0 os z (omega arith) ord.1 t.0 t.1
      (unfold allow_exchange in (hold.0, later start g clock now (lookup a l.ip) ord.0 hold.1))
account a start g clock stop l (fails addr now ∷ os) z h ord k t hold =
    account a start g now stop (fail l addr now) os z (omega arith) ord.1 t.0 t.1
      (fail-Holds a start g clock l addr now ord.0 hold)
account a start g clock stop l (sweeps now ∷ os) z h ord k t hold =
    account a start g now stop (sweep l now) os z (omega arith) ord.1 t.0 t.1
      (sweep-Holds a start g clock l now ord.0 hold)

-- In any history of the limiter from its start in which the clock does not go back and stays
-- between `start` and `stop`, an address is admitted at most 20 times and once more for each three
-- seconds between the two times, although sweeps forget idle addresses and give them a full
-- bucket when they return.
pub peers_granted_bound :
    (a : Text) (start stop : ℕ) (os : List Op)
    → 0 < start
    → Ordered start os
    → start ≤ stop
    → All (λ o. time o ≤ stop) os
    → peers_granted a new_limiter os * (3 * second) ≤ 20 * (3 * second) + (stop - start)
unfolding lookup
peers_granted_bound a start stop os z ord h t =
    omega
      (arith, account a start 0 start stop new_limiter os z (omega arith) ord h t (tt, omega arith))
