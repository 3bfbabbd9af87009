-- ===== src/Limiter/Blocking.antt =====
-- `fail` of limits.go: repeated failures block an address.
use tp.Prelude.{
  ℕ, ◌+◌, ◌≤◌, ◌<◌, ◌≡◌, refl, List, [], ◌∷◌, Bool, false, not, arith, Option, none, some,
  if◌then◌else◌, subst, Option-cases, Bool-cases, inl, inr, All, sym, ap, ◌∙◌, length,
  length-append, All-append,
}
use tp.Prelude.Text.{Text, text_eq, text_eq_iff}
use tp.Prelude.Maps.{
  lookup, Distinct, lookup-insert, lookup-keep_if, insert-Distinct, keep_if-Distinct,
}
use tp.Limiter.Sources.{peers_granted}
use tp.Limiter.Rate.{one}
use tp.Limiter.{
  limit_run, IpState, state_of, admit, Limiter, Op, peers, exchanges, fails, sweeps, time,
  allow_peer, allow_exchange, fail, failed, fail_found, sweep, is_stale, block_for,
}
use tp.Limiter.Counting.{
  InWindow, failures_of, failed_last, lookup-fail, fail-Distinct, failures_of-All, counted,
}

-- The address is blocked at least until the given time.
abbrev IsBlocked : ℕ → Option IpState → Type 0
IsBlocked until none = ⊥
IsBlocked until (some s) = until ≤ s.blocked

abbrev Blocks : Text → ℕ → Limiter → Type 0
Blocks a until l = Distinct l.ip × IsBlocked until (lookup a l.ip)

admit_blocked :
    (s : IpState) (now until : ℕ)
    → until ≤ s.blocked
    → now < until
    → ((admit s now).1 ≡ false) × (until ≤ (admit s now).0.blocked)
unfolding admit
admit_blocked s now until h k = ground arith

refused :
    (o : Option IpState) (now until : ℕ)
    → IsBlocked until o
    → now < until
    → ((admit (state_of o) now).1 ≡ false) × (until ≤ (admit (state_of o) now).0.blocked)
refused none now until h k = absurd h
refused (some s) now until h k = admit_blocked s now until h k

peer-Blocks :
    (a : Text) (l : Limiter) (addr : Text) (now until : ℕ)
    → now < until
    → Blocks a until l
    → Blocks a until (allow_peer l addr now).0
      × ((if text_eq addr a then one (allow_peer l addr now).1 else 0) ≡ 0)
unfolding allow_peer
peer-Blocks a l addr now until k (d, b) = elim (Bool-cases (text_eq addr a)) [
  | inl same ↦
      let e : addr ≡ a = (text_eq_iff addr a).0 same in
      let r =
        refused (lookup addr l.ip) now until
          (subst (λ x. IsBlocked until (lookup x l.ip)) (sym e) b) k in
      rw (lookup-insert addr a (admit (state_of (lookup addr l.ip)) now).0 l.ip, same)
        ((insert-Distinct addr (admit (state_of (lookup addr l.ip)) now).0 l.ip d, r.1), ap one r.0)
  | inr other ↦
      rw (lookup-insert addr a (admit (state_of (lookup addr l.ip)) now).0 l.ip, other)
        ((insert-Distinct addr (admit (state_of (lookup addr l.ip)) now).0 l.ip d, b), refl)
]

failed_blocked :
    (s : IpState) (now until : ℕ)
    → until ≤ s.blocked
    → until ≤ now + block_for
    → until ≤ (failed s now).blocked
unfolding failed
failed_blocked s now until h k = ground arith

fail-Blocks :
    (a : Text) (l : Limiter) (addr : Text) (now until : ℕ)
    → until ≤ now + block_for
    → Blocks a until l
    → Blocks a until (fail l addr now)
unfolding fail
fail-Blocks a l addr now until k (d, b) = elim (Option-cases (lookup addr l.ip)) [
  | inl e ↦ rw (e, fail_found) (d, b)
  | inr (s, e) ↦
      rw (e, fail_found)
        (
          insert-Distinct addr (failed s now) l.ip d,
          rw (lookup-insert addr a (failed s now) l.ip) (elim (Bool-cases (text_eq addr a)) [
            | inl same ↦
                let eq : addr ≡ a = (text_eq_iff addr a).0 same in
                rw same (
                  failed_blocked s now until
                    (subst (IsBlocked until) (ap (λ x. lookup x l.ip) (sym eq) ∙ e) b) k)
            | inr other ↦ rw other b
          ]),
        )
]

sweep-Blocks :
    (a : Text) (l : Limiter) (now until : ℕ)
    → now < until
    → Blocks a until l
    → Blocks a until (sweep l now)
unfolding sweep
sweep-Blocks a l now until k (d, b) =
    (keep_if-Distinct fresh l.ip d, rw (lookup-keep_if fresh a l.ip d) (swept (lookup a l.ip) b))
  where
    fresh : IpState → Bool
    fresh s = not (is_stale now s)

    swept :
        (o : Option IpState)
        → IsBlocked until o
        → IsBlocked until (elim o [ none ↦ none | some v ↦ if fresh v then some v else none ])
    swept none b = b
    swept (some s) b = let kept : is_stale now s ≡ false = ground arith in rw kept b

-- Times in the block, each after the failure that set it.
abbrev pub InBlock : ℕ → List Op → Type 0
InBlock until = All (λ o. (time o < until) × (until ≤ time o + block_for))

blocked_refused :
    (a : Text) (until : ℕ) (l : Limiter) (os : List Op)
    → InBlock until os
    → Blocks a until l
    → peers_granted a l os ≡ 0
unfolding peers_granted
blocked_refused a until l [] t b = refl
blocked_refused a until l (peers addr now ∷ os) t b =
    let (b', r) = peer-Blocks a l addr now until t.0.0 b in
    omega (arith, r, blocked_refused a until (allow_peer l addr now).0 os t.1 b')
blocked_refused a until l (exchanges now ∷ os) t b =
    blocked_refused a until (allow_exchange l now).0 os t.1 (unfold allow_exchange in b)
blocked_refused a until l (fails addr now ∷ os) t b =
    blocked_refused a until (fail l addr now) os t.1 (fail-Blocks a l addr now until t.0.1 b)
blocked_refused a until l (sweeps now ∷ os) t b =
    blocked_refused a until (sweep l now) os t.1 (sweep-Blocks a l now until t.0.0 b)

-- In a limiter with one entry for each address, an address last seen since `start` fails at `now` for the
-- 50th time, all within the ten minutes from `start`: the failures on record and those among earlier
-- operations are 49. Whatever these operations are, connections that are admitted, exchanges, failures
-- of other addresses and sweeps among them, the address is admitted no more in the hour after `now`,
-- whatever the limiter is asked in that hour.
pub fifty_failures_block :
    (a : Text) (start now : ℕ) (earlier : List Op) (l : Limiter) (s : IpState) (os : List Op)
    → Distinct l.ip
    → lookup a l.ip ≡ some s
    → start ≤ s.last_seen
    → All (InWindow start) s.failures
    → All (λ o. InWindow start (time o)) earlier
    → length s.failures + length (failures_of a earlier) ≡ 49
    → InWindow start now
    → All (λ o. (now ≤ time o) × (time o < now + block_for)) os
    → peers_granted a (fail (limit_run l earlier) a now) os ≡ 0
fifty_failures_block a start now earlier l s os d e k h t n w later =
    let (d', s', e', k', f') =
      counted a start earlier s.failures l h t (omega arith) (d, s, e, k, refl) in
    let many : All (InWindow start) s'.failures = subst (All (InWindow start)) (sym f') (
      All-append (InWindow start) s.failures (failures_of a earlier) h
        (failures_of-All a start earlier t)) in
    let last =
      lookup-fail a now (limit_run l earlier) s' e'
      ∙ ap some (
          failed_last start now s' w many
            (omega (arith, ap length f', length-append s.failures (failures_of a earlier)))) in
    blocked_refused a (now + block_for) (fail (limit_run l earlier) a now) os (in_block os later) (
      fail-Distinct a now (limit_run l earlier) d',
      subst (IsBlocked (now + block_for)) (sym last) (omega arith),
    )
  where
    in_block :
        (os : List Op)
        → All (λ o. (now ≤ time o) × (time o < now + block_for)) os
        → InBlock (now + block_for) os
    in_block [] h = tt
    in_block (o ∷ os) h = ((h.0.1, omega arith), in_block os h.1)
