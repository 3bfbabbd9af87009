-- ===== src/Limiter/Counting.antt =====
-- `fail` of limits.go below its limit: which failures an address has on record.
use tp.Prelude.{
  ℕ, ◌+◌, ◌≤◌, ◌<◌, ◌≡◌, refl, List, [], ◌∷◌, ◌++◌, false, not, arith, some, if◌then◌else◌, subst,
  Option-cases, Bool-cases, inl, inr, All, sym, ap, ◌∙◌, length, length-append, All-append,
}
use tp.Prelude.Text.{Text, text_eq, text_eq_iff, text_eq_refl}
use tp.Prelude.Maps.{
  lookup, Distinct, lookup-insert, lookup-keep_if, insert-Distinct, keep_if-Distinct,
}
use tp.Limiter.{
  limit_run, step, IpState, state_of, admit, Limiter, Op, peers, exchanges, fails, sweeps, time,
  allow_peer, allow_exchange, fail, failed, fail_found, recent, sweep, is_stale, block_window,
  block_for, block_after,
}
use mathlib.Core.List.{append_assoc, append-nil}

abbrev pub InWindow : ℕ → ℕ → Type 0
InWindow start t = (start ≤ t) × (t < start + block_window)

recent-All :
    (start now : ℕ) (fs : List ℕ)
    → InWindow start now
    → All (InWindow start) fs
    → recent now fs ≡ fs
unfolding recent
recent-All start now [] w h = refl
recent-All start now (t ∷ fs) w h = ground (arith, recent-All start now fs w h.1)

-- The failures of an address among the operations.
abbrev pub failures_of : Text → List Op → List ℕ
failures_of a [] = []
failures_of a (peers addr now ∷ os) = failures_of a os
failures_of a (exchanges now ∷ os) = failures_of a os
failures_of a (fails addr now ∷ os) =
    if text_eq addr a then now ∷ failures_of a os else failures_of a os
failures_of a (sweeps now ∷ os) = failures_of a os

failed_more :
    (start now : ℕ) (s : IpState)
    → InWindow start now
    → All (InWindow start) s.failures
    → length s.failures + 1 < block_after
    → failed s now ≡ record s { failures = s.failures ++ now ∷ [] }
unfolding failed
failed_more start now s w h n =
    rw (recent-All start now s.failures w h) (ground (arith, length-append s.failures (now ∷ [])))

pub failed_last :
    (start now : ℕ) (s : IpState)
    → InWindow start now
    → All (InWindow start) s.failures
    → block_after ≤ length s.failures + 1
    → failed s now ≡ record s { failures = []; blocked = now + block_for }
unfolding failed
failed_last start now s w h n =
    rw (recent-All start now s.failures w h) (ground (arith, length-append s.failures (now ∷ [])))

pub lookup-fail :
    (a : Text) (now : ℕ) (l : Limiter) (s : IpState)
    → lookup a l.ip ≡ some s
    → lookup a (fail l a now).ip ≡ some (failed s now)
unfolding fail
lookup-fail a now l s e =
    rw (e, fail_found) (ground (arith, lookup-insert a a (failed s now) l.ip, text_eq_refl a))

pub fail-Distinct : (a : Text) (now : ℕ) (l : Limiter) → Distinct l.ip → Distinct (fail l a now).ip
unfolding fail
fail-Distinct a now l d = elim (Option-cases (lookup a l.ip)) [
  | inl e ↦ rw (e, fail_found) d
  | inr (s, e) ↦ rw (e, fail_found) (insert-Distinct a (failed s now) l.ip d)
]

-- The address has an entry, last seen since `start`, with these failures.
abbrev pub Counts : Text → ℕ → List ℕ → Limiter → Type 0
Counts a start fs l =
    Distinct l.ip
    × (s : IpState) × (lookup a l.ip ≡ some s)
    × (start ≤ s.last_seen)
    × (s.failures ≡ fs)

admit-failures : (s : IpState) (now : ℕ) → (admit s now).0.failures ≡ s.failures
unfolding admit
admit-failures s now = ground arith

admit-last_seen : (s : IpState) (now : ℕ) → (admit s now).0.last_seen ≡ now
unfolding admit
admit-last_seen s now = ground arith

peer-Counts :
    (a : Text) (start : ℕ) (fs : List ℕ) (addr : Text) (now : ℕ) (l : Limiter)
    → start ≤ now
    → Counts a start fs l
    → Counts a start fs (allow_peer l addr now).0
unfolding allow_peer
peer-Counts a start fs addr now l w (d, s, e, h, f) = elim (Bool-cases (text_eq addr a)) [
  | inl same ↦
      let found : lookup addr l.ip ≡ some s =
        ap (λ x. lookup x l.ip) ((text_eq_iff addr a).0 same) ∙ e in
      let t : IpState = (admit (state_of (lookup addr l.ip)) now).0 in
      (
        insert-Distinct addr t l.ip d,
        t,
        lookup-insert addr a t l.ip ∙ rw same refl,
        omega (arith, admit-last_seen (state_of (lookup addr l.ip)) now),
        admit-failures (state_of (lookup addr l.ip)) now
            ∙ ap (λ o. (state_of o).failures) found
            ∙ f,
      )
  | inr other ↦
      let t : IpState = (admit (state_of (lookup addr l.ip)) now).0 in
      (insert-Distinct addr t l.ip d, s, lookup-insert addr a t l.ip ∙ rw other e, h, f)
]

lookup-fail_other :
    (a addr : Text) (now : ℕ) (l : Limiter)
    → text_eq addr a ≡ false
    → lookup a (fail l addr now).ip ≡ lookup a l.ip
unfolding fail
lookup-fail_other a addr now l other = elim (Option-cases (lookup addr l.ip)) [
  | inl e ↦ rw (e, fail_found) refl
  | inr (s, e) ↦ rw (e, fail_found) (lookup-insert addr a (failed s now) l.ip ∙ rw other refl)
]

fail-Counts :
    (a : Text) (start : ℕ) (fs : List ℕ) (addr : Text) (now : ℕ) (l : Limiter)
    → InWindow start now
    → All (InWindow start) fs
    → length fs + length (if text_eq addr a then now ∷ [] else []) < block_after
    → Counts a start fs l
    → Counts a start (fs ++ (if text_eq addr a then now ∷ [] else [])) (fail l addr now)
fail-Counts a start fs addr now l w h n (d, s, e, k, f) = elim (Bool-cases (text_eq addr a)) [
  | inl same ↦
      let found : lookup addr l.ip ≡ some s =
        ap (λ x. lookup x l.ip) ((text_eq_iff addr a).0 same) ∙ e in
      let t : IpState = record s { failures = s.failures ++ now ∷ [] } in
      rw same (
        fail-Distinct addr now l d,
        t,
        ap (λ x. lookup x (fail l addr now).ip) (sym ((text_eq_iff addr a).0 same))
            ∙ lookup-fail addr now l s found
            ∙ ap some (
                failed_more start now s w (subst (All (InWindow start)) (sym f) h) (
                  omega
                    (arith, n, ap length f, ap (λ b. length (if b then now ∷ [] else [])) same))),
        k,
        ap (λ x. x ++ now ∷ []) f,
      )
  | inr other ↦
      rw (other, append-nil)
        (fail-Distinct addr now l d, s, lookup-fail_other a addr now l other ∙ e, k, f)
]

sweep-Counts :
    (a : Text) (start : ℕ) (fs : List ℕ) (now : ℕ) (l : Limiter)
    → InWindow start now
    → Counts a start fs l
    → Counts a start fs (sweep l now)
unfolding sweep
sweep-Counts a start fs now l w (d, s, e, h, f) =
    let fresh : is_stale now s ≡ false = ground arith in
    (
      keep_if-Distinct (λ t. not (is_stale now t)) l.ip d,
      s,
      lookup-keep_if (λ t. not (is_stale now t)) a l.ip d ∙ rw e (rw fresh refl),
      h,
      f,
    )

-- One failure of the address, whatever else happens between.
abbrev failures_at : Text → Op → List ℕ
failures_at a (peers addr now) = []
failures_at a (exchanges now) = []
failures_at a (fails addr now) = if text_eq addr a then now ∷ [] else []
failures_at a (sweeps now) = []

failures_of_lem :
    (a : Text) (o : Op) (os : List Op)
    → failures_of a (o ∷ os) ≡ failures_at a o ++ failures_of a os
failures_of_lem a (peers addr now) os = refl
failures_of_lem a (exchanges now) os = refl
failures_of_lem a (fails addr now) os = ground arith
failures_of_lem a (sweeps now) os = refl

failures_at-All :
    (a : Text) (start : ℕ) (o : Op)
    → InWindow start (time o)
    → All (InWindow start) (failures_at a o)
failures_at-All a start (peers addr now) w = tt
failures_at-All a start (exchanges now) w = tt
failures_at-All a start (fails addr now) w = elim (Bool-cases (text_eq addr a)) [
  | inl same ↦ rw same (w, tt)
  | inr other ↦ rw other tt
]
failures_at-All a start (sweeps now) w = tt

pub failures_of-All :
    (a : Text) (start : ℕ) (os : List Op)
    → All (λ o. InWindow start (time o)) os
    → All (InWindow start) (failures_of a os)
failures_of-All a start [] w = tt
failures_of-All a start (o ∷ os) w = subst (All (InWindow start)) (sym (failures_of_lem a o os)) (
    All-append (InWindow start) (failures_at a o) (failures_of a os) (failures_at-All a start o w.0)
      (failures_of-All a start os w.1))

step-Counts :
    (a : Text) (start : ℕ) (fs : List ℕ) (o : Op) (l : Limiter)
    → InWindow start (time o)
    → All (InWindow start) fs
    → length fs + length (failures_at a o) < block_after
    → Counts a start fs l
    → Counts a start (fs ++ failures_at a o) (step l o)
unfolding step
step-Counts a start fs (peers addr now) l w h n c =
    rw append-nil (peer-Counts a start fs addr now l w.0 c)
step-Counts a start fs (exchanges now) l w h n c = rw append-nil (unfold allow_exchange in c)
step-Counts a start fs (fails addr now) l w h n c = fail-Counts a start fs addr now l w h n c
step-Counts a start fs (sweeps now) l w h n c = rw append-nil (sweep-Counts a start fs now l w c)

-- Up to 49 failures are only counted.
pub counted :
    (a : Text) (start : ℕ) (os : List Op) (fs : List ℕ) (l : Limiter)
    → All (InWindow start) fs
    → All (λ o. InWindow start (time o)) os
    → length fs + length (failures_of a os) < block_after
    → Counts a start fs l
    → Counts a start (fs ++ failures_of a os) (limit_run l os)
unfolding limit_run
counted a start [] fs l h w n c = rw append-nil c
counted a start (o ∷ os) fs l h w n c =
    subst (λ x. Counts a start x (limit_run l (o ∷ os)))
      (append_assoc fs (failures_at a o) (failures_of a os)
        ∙ ap (λ x. fs ++ x) (sym (failures_of_lem a o os)))
      (counted a start os (fs ++ failures_at a o) (step l o)
        (All-append (InWindow start) fs (failures_at a o) h (failures_at-All a start o w.0)) w.1
        (omega (
          arith,
          n,
          length-append fs (failures_at a o),
          ap length (failures_of_lem a o os),
          length-append (failures_at a o) (failures_of a os),
        ))
        (step-Counts a start fs o l w.0 h
          (omega (
            arith,
            n,
            ap length (failures_of_lem a o os),
            length-append (failures_at a o) (failures_of a os),
          ))
          c))
