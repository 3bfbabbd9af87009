-- ===== src/Discovery/History.antt =====
-- Why a host is in the peer table of mdns.go: what was heard of it since the network last changed.
use tp.Prelude.{
  ℕ, ◌+◌, ◌≤◌, ◌≡◌, refl, ◌≢◌, ◌⊎◌, inl, inr, ◌↔◌, sym, List, [], ◌∷◌, Bool, true, false, Option,
  none, some, arith, not, ◌&&◌, ◌||◌, ◌==◌, if◌then◌else◌, Bool-cases,
}
use tp.Prelude.Text.{Text, codes, text_eq, text_eq_iff}
use tp.Prelude.Maps.{lookup}
use tp.Discovery.{
  Peer, Peers, peer_lifetime, Resource, Instance, Addrs, Net, collect_instances, is_empty,
  txt_version, clear,
}
use tp.Discovery.Learning.{outcome, outcome_of, learned, learn_peers_lem}
use tp.Discovery.Table.{
  Event, hears, sweeps, moves, event_time, step, step-IsTable, IsTable, sweep_lem,
}

-- The table after a history, the last event first.
unfoldable pub run : Net → Text → List Event → Peers
unfolding step
run net self [] = []
run net self (e ∷ es) = step net self (run net self es) e

-- The times of the events do not go back.
abbrev pub Timed : List Event → Type 0
Timed [] = Unit {0}
Timed (e ∷ []) = Unit {0}
Timed (e ∷ f ∷ es) = (event_time f ≤ event_time e) × Timed (f ∷ es)

abbrev pub clock : List Event → ℕ
clock [] = 0
clock (e ∷ es) = event_time e

abbrev pub Speaks : Instance → Type 0
Speaks e = (e.version ≡ []) ⊎ (e.version ≡ codes "1")

-- The instance makes this entry, at the address its target has, if that is known.
abbrev pub Makes : Net → ℕ → Text → Instance → Option (List ℕ) → Peer → Type 0
Makes net now k e found p =
    (ip : List ℕ) × (found ≡ some ip)
    × (p ≡ record {
      host_id = k;
      hostname = e.hostname;
      addr = net.join_host_port ip e.port;
      last_seen = now;
    })

-- An announcement at `now` whose instance for the host makes this entry.
abbrev pub Announces : Net → Text → Addrs → ℕ → Text → Option Instance → Peer → Type 0
Announces net self addrs now k none p = ⊥
Announces net self addrs now k (some e) p =
    (k ≢ self)
    × (e.port ≢ 0)
    × (e.leaving ≡ false)
    × Speaks e
    × Makes net now k e (lookup e.target addrs) p

-- An announcement that says nothing of the host, or nothing that is heeded.
abbrev pub Silent : Text → Addrs → Text → Option Instance → Type 0
Silent self addrs k none = Unit {0}
Silent self addrs k (some e) =
    (k ≡ self)
    ⊎ (e.port ≡ 0)
    ⊎ ((e.leaving ≡ false)
        × ((e.version ≢ []) × (e.version ≢ codes "1") ⊎ (lookup e.target addrs ≡ none)))

-- The entry comes from an announcement of the host; since then no announcement of it was heeded, no sweep
-- came after its lifetime, and the network did not change.
abbrev pub Sourced : Net → Text → Text → Peer → List Event → Type 0
Sourced net self k p [] = ⊥
Sourced net self k p (hears rrs now ∷ es) =
    Announces net self (collect_instances rrs).1 now k (lookup k (collect_instances rrs).0) p
    ⊎ Silent self (collect_instances rrs).1 k (lookup k (collect_instances rrs).0)
      × Sourced net self k p es
Sourced net self k p (sweeps now ∷ es) =
    (now ≤ p.last_seen + peer_lifetime) × Sourced net self k p es
Sourced net self k p (moves now ∷ es) = ⊥

version_known :
    (v : Text)
    → (not (is_empty v) && not (text_eq v txt_version)) ≡ false
    → (v ≡ []) ⊎ (v ≡ codes "1")
version_known [] h = inl refl
version_known (c ∷ v) h = inr ((text_eq_iff (c ∷ v) txt_version).0 (ground arith))

version_foreign :
    (v : Text)
    → (not (is_empty v) && not (text_eq v txt_version)) ≡ true
    → (v ≢ []) × (v ≢ codes "1")
version_foreign [] h = cc
version_foreign (c ∷ v) h =
    (λ e. cc, λ e. absurd (ground (arith, (text_eq_iff (c ∷ v) txt_version).1 e)))

some-same : {p q : Peer} → some p ≡ some q → p ≡ q
some-same e = cc

learned_iff :
    (net : Net) (self : Text) (now : ℕ) (k : Text) (e : Instance) (ip : Option (List ℕ))
    (old : Option Peer) (p : Peer)
    → (learned net self now k e ip old ≡ some p)
      ↔ (Makes net now k e ip p ⊎ (ip ≡ none) × (old ≡ some p))
learned_iff net self now k e none old p =
    (λ h. inr (refl, h), λ h. elim h [ inl (ip, a, b) ↦ absurd (cc) | inr (a, b) ↦ b ])
learned_iff net self now k e (some ip) old p = (
  λ h. inl (ip, refl, sym (some-same h)),
  λ h. elim h [ inl (ip', a, b) ↦ cc | inr (a, b) ↦ absurd (cc) ],
)

branch_iff :
    (own no_port leaving foreign : Bool) (old new : Option Peer) (p : Peer)
    {Own NoPort Known Foreign Made Unmade : Type 0}
    → (own ≡ true) ↔ Own
    → (no_port ≡ true) ↔ NoPort
    → (foreign ≡ false) ↔ Known
    → (foreign ≡ true) ↔ Foreign
    → (new ≡ some p) ↔ (Made ⊎ Unmade × (old ≡ some p))
    → ((if own || no_port then old else if leaving then none else if foreign then old else new)
        ≡ some p)
      ↔ ((¬ Own) × (¬ NoPort) × (leaving ≡ false) × Known × Made
          ⊎ (Own ⊎ NoPort ⊎ (leaving ≡ false) × (Foreign ⊎ Unmade)) × (old ≡ some p))
branch_iff own no_port leaving foreign old new p a b c d m = ground (arith, a, b, c, d, m)

version_known_iff :
    (v : Text)
    → ((not (is_empty v) && not (text_eq v txt_version)) ≡ false) ↔ ((v ≡ []) ⊎ (v ≡ codes "1"))
version_known_iff v = (
  version_known v,
  λ h. elim (Bool-cases (not (is_empty v) && not (text_eq v txt_version))) [
    | inl t ↦ absurd (ground (arith, version_foreign v t, h))
    | inr f ↦ f
  ],
)

version_foreign_iff :
    (v : Text)
    → ((not (is_empty v) && not (text_eq v txt_version)) ≡ true) ↔ ((v ≢ []) × (v ≢ codes "1"))
version_foreign_iff v = (
  version_foreign v,
  λ h. elim (Bool-cases (not (is_empty v) && not (text_eq v txt_version))) [
    | inl t ↦ t
    | inr f ↦ absurd (ground (arith, version_known v f, h))
  ],
)

port_iff : (n : ℕ) → ((n == 0) ≡ true) ↔ (n ≡ 0)
port_iff n = (λ h. ground arith, λ h. ground arith)

-- What an announcement does to the entry of a host.
outcome_iff :
    (net : Net) (self : Text) (addrs : Addrs) (now : ℕ) (k : Text) (o : Option Instance)
    (old : Option Peer) (p : Peer)
    → (outcome_of net self addrs now k o old ≡ some p)
      ↔ (Announces net self addrs now k o p ⊎ Silent self addrs k o × (old ≡ some p))
unfolding outcome
outcome_iff net self addrs now k none old p =
    (λ h. inr (tt, h), λ h. elim h [ inl x ↦ absurd x | inr (a, b) ↦ b ])
outcome_iff net self addrs now k (some e) old p =
    branch_iff (text_eq k self) (e.port == 0) e.leaving
      (not (is_empty e.version) && not (text_eq e.version txt_version)) old
      (learned net self now k e (lookup e.target addrs) old) p (text_eq_iff k self)
      (port_iff e.port) (version_known_iff e.version) (version_foreign_iff e.version)
      (learned_iff net self now k e (lookup e.target addrs) old p)

run-IsTable :
    (net : Net) (self : Text) (es : List Event) → Timed es → IsTable (clock es) (run net self es)
unfolding run
run-IsTable net self [] h = record { distinct = tt; keys = tt }
run-IsTable net self (e ∷ []) h =
    step-IsTable net self 0 [] e (omega arith) (record { distinct = tt; keys = tt })
run-IsTable net self (e ∷ f ∷ es) h =
    step-IsTable net self (event_time f) (run net self (f ∷ es)) e h.0
      (run-IsTable net self (f ∷ es) h.1)

Timed-rest : (e : Event) (es : List Event) → Timed (e ∷ es) → Timed es
Timed-rest e [] h = tt
Timed-rest e (f ∷ es) h = h.1

nothing : (k : Text) (p : Peer) → lookup k [] ≡ some p → ⊥
unfolding lookup
nothing k p e = absurd (cc)

lookup-hears :
    (net : Net) (self : Text) (k : Text) (p : Peer) (rrs : List Resource) (now : ℕ) (t : Peers)
    {Before : Type 0}
    → (lookup k t ≡ some p) ↔ Before
    → (lookup k (step net self t (hears rrs now)) ≡ some p) ↔ (
        Announces net self (collect_instances rrs).1 now k (lookup k (collect_instances rrs).0) p
        ⊎ Silent self (collect_instances rrs).1 k (lookup k (collect_instances rrs).0) × Before)
unfolding step
lookup-hears net self k p rrs now t b =
    let o =
      outcome_iff net self (collect_instances rrs).1 now k (lookup k (collect_instances rrs).0)
        (lookup k t) p in
    rw (learn_peers_lem net self rrs now t k) (
      λ e. elim (o.0 e) [ inl x ↦ inl x | inr (x, y) ↦ inr (x, b.0 y) ],
      λ s. o.1 (elim s [ inl x ↦ inl x | inr (x, y) ↦ inr (x, b.1 y) ]),
    )

-- After events whose times do not go back, from an empty table, a host is in the table with an entry
-- exactly when an announcement made that entry (the instance is
-- another host's, has a port, is not a goodbye, has no version or version 1, and its target has an
-- address, which with its port, host name and time is the entry), and since then every announcement
-- was silent on the host (did not name it, or had port 0, another version or no address), every sweep
-- came within the lifetime, and the network did not change.
pub run-Sourced :
    (net : Net) (self : Text) (k : Text) (p : Peer) (es : List Event)
    → Timed es
    → (lookup k (run net self es) ≡ some p) ↔ Sourced net self k p es
unfolding run
run-Sourced net self k p [] h = ((λ e. nothing k p e), λ x. absurd x)
run-Sourced net self k p (hears rrs now ∷ es) h =
    lookup-hears net self k p rrs now (run net self es)
      (run-Sourced net self k p es (Timed-rest (hears rrs now) es h))
run-Sourced net self k p (sweeps now ∷ es) h =
    let swept =
      sweep_lem (run net self es) now k p
        (run-IsTable net self es (Timed-rest (sweeps now) es h)).distinct in
    let before = run-Sourced net self k p es (Timed-rest (sweeps now) es h) in
    unfold step in (λ e. ((swept.0 e).1, before.0 (swept.0 e).0), λ s. swept.1 (before.1 s.1, s.0))
run-Sourced net self k p (moves now ∷ es) h =
    ((λ e. unfold step clear in nothing k p (unfold step clear in e)), λ x. absurd x)
