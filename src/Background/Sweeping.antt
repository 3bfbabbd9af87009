-- ===== src/Background/Sweeping.antt =====
-- `sweepLoop` of daemon.go against what can be fetched.
use tp.Prelude.{
  ℕ, ◌≤◌, ◌≡◌, refl, List, [], ◌∷◌, Bool, true, not, ◌||◌, Option, none, some, arith, if◌then◌else◌,
  All, Bool-cases, Option-cases, inl, inr, ap, ◌∙◌, sym, subst,
}
use tp.Prelude.Maps.{lookup, Distinct, keep_if, lookup-keep_if, keep_if-Distinct}
use tp.Store.{Store, Paste, take, paste_key, sweep, is_expired}
use tp.Control.{should_stop}
use tp.Control.Deleting.{should_stop-take}
use tp.Background.{Host, Times, sweep_all, sweep_tick, sweep_loop}

abbrev pub payload_of : ℕ → Option Paste → Option (List ℕ)
payload_of now none = none
payload_of now (some p) = if p.burned || is_expired now p then none else some p.body

take_payload :
    (s : Store) (prs : List ℕ) (now : ℕ)
    → (take s prs now).1 ≡ payload_of now (lookup (paste_key prs) s.m)
unfolding take
take_payload s prs now = elim (Option-cases (lookup (paste_key prs) s.m)) [
  | inl gone ↦ rw gone refl
  | inr (p, there) ↦ rw there (ground arith)
]

kept_payload :
    (at now : ℕ) (o : Option Paste)
    → at ≤ now
    → payload_of now
        (elim o [ none ↦ none | some p ↦ if not (is_expired at p) then some p else none ])
      ≡ payload_of now o
kept_payload at now none h = refl
kept_payload at now (some p) h = ground arith

-- A sweep takes nothing from later fetches.
pub sweep-take :
    (s : Store) (at now : ℕ) (prs : List ℕ)
    → Distinct s.m
    → at ≤ now
    → (take (sweep s at) prs now).1 ≡ (take s prs now).1
unfolding sweep
sweep-take s at now prs d h =
    take_payload (record s { m = keep_if (λ p. not (is_expired at p)) s.m }) prs now
    ∙ ap (payload_of now) (lookup-keep_if (λ p. not (is_expired at p)) (paste_key prs) s.m d)
    ∙ kept_payload at now (lookup (paste_key prs) s.m) h
    ∙ sym (take_payload s prs now)

abbrev pub Before : ℕ → Times → Type 0
Before now t = t.at_store ≤ now

-- What a fetch gets after the ticks is what it would have got, and nothing where they stopped the daemon.
abbrev pub Keeps : Option (List ℕ) → List ℕ → ℕ → Host × Bool → Type 0
Keeps got prs now r =
    ((take r.0.control.store prs now).1 ≡ got) × (got ≡ (if r.1 then none else got))

ticked :
    (h : Host) (t : Times) (prs : List ℕ) (now : ℕ)
    → Distinct h.control.store.m
    → Before now t
    → (take (sweep_all h t).control.store prs now).1 ≡ (take h.control.store prs now).1
unfolding sweep_all
ticked h t prs now d b = sweep-take h.control.store t.at_store now prs d b

swept-Distinct :
    (h : Host) (t : Times) → Distinct h.control.store.m → Distinct (sweep_all h t).control.store.m
unfolding sweep_all sweep
swept-Distinct h t d = keep_if-Distinct (λ p. not (is_expired t.at_store p)) h.control.store.m d

stopped :
    (h : Host) (t : Times) (prs : List ℕ) (now : ℕ)
    → Distinct h.control.store.m
    → Before now t
    → should_stop (sweep_all h t).control t.at_idle ≡ true
    → (take h.control.store prs now).1 ≡ none
stopped h t prs now d b stops =
    sym (ticked h t prs now d b)
    ∙ ap (λ r. r.1) (should_stop-take (sweep_all h t).control t.at_idle prs now stops)

-- The loop that sweeps the daemon loses nothing that can be fetched: after any number of ticks, the last of
-- which may stop the daemon, a fetch at a time that is not before a tick gets what it would have got with
-- no tick; and where a tick has stopped the daemon, that is nothing; on a store whose keys are distinct.
pub sweep_loop-take :
    (h : Host) (ts : List Times) (prs : List ℕ) (now : ℕ)
    → Distinct h.control.store.m
    → All (Before now) ts
    → Keeps (take h.control.store prs now).1 prs now (sweep_loop h ts)
unfolding sweep_loop sweep_tick
sweep_loop-take h [] prs now d b = (refl, refl)
sweep_loop-take h (t ∷ ts) prs now d b =
    elim (Bool-cases (should_stop (sweep_all h t).control t.at_idle)) [
      | inl stops ↦ rw stops (ticked h t prs now d b.0, stopped h t prs now d b.0 stops)
      | inr goes_on ↦ rw goes_on (
          subst (λ x. Keeps x prs now (sweep_loop (sweep_all h t) ts)) (ticked h t prs now d b.0)
            (sweep_loop-take (sweep_all h t) ts prs now (swept-Distinct h t d) b.1))
    ]
