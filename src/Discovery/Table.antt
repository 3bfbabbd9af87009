-- ===== src/Discovery/Table.antt =====
-- The peer table of mdns.go under announcements, sweeps and network changes.
use tp.Prelude.{
  ℕ, ◌+◌, ◌≤◌, ◌≡◌, refl, List, [], ◌∷◌, not, ◌&&◌, ◌||◌, Option, none, some, arith, ◌==◌,
  if◌then◌else◌, Bool-cases, inl, inr, ◌↔◌,
}
use tp.Prelude.Text.{Text, text_eq}
use tp.Prelude.Maps.{
  keep_if, lookup, Distinct, Entries, insert-Distinct, insert-Entries, delete-Entries,
  delete-Distinct, keep_if-Entries, keep_if-Distinct, lookup-keep_if,
}
use tp.Discovery.{
  Peer, Peers, put, drop, clear, sweep, is_old, peer_lifetime, Resource, Instance, Found, Addrs,
  collect_instances, Net, learn_addr, learn_one, learn_found, learn_peers, is_empty, txt_version,
}

-- Keys are distinct and are the host IDs of their entries, none of which was heard after `now`.
pub record IsTable (now : ℕ) (t : Peers) : Type 0 where
  pub distinct : Distinct t
  pub keys : Entries (λ k p. (k ≡ p.host_id) × (p.last_seen ≤ now)) t

later :
    (now then' : ℕ) (t : Peers)
    → now ≤ then'
    → Entries (λ k p. (k ≡ p.host_id) × (p.last_seen ≤ now)) t
    → Entries (λ k p. (k ≡ p.host_id) × (p.last_seen ≤ then')) t
later now then' [] h k = tt
later now then' ((id, p) ∷ t) h k = ((k.0.0, omega arith), later now then' t h k.1)

learn_addr-IsTable :
    (net : Net) (now : ℕ) (id : Text) (e : Instance) (ip : Option (List ℕ)) (t : Peers)
    → IsTable now t
    → IsTable now (learn_addr net now id e ip t)
unfolding put
learn_addr-IsTable net now id e none t v = v
learn_addr-IsTable net now id e (some ip) t v = record {
  distinct = insert-Distinct id _ t v.distinct;
  keys =
      insert-Entries (λ k p. (k ≡ p.host_id) × (p.last_seen ≤ now)) id _ t v.keys
        (refl, omega arith);
}

learn_one-IsTable :
    (net : Net) (self : Text) (addrs : Addrs) (now : ℕ) (id : Text) (e : Instance) (t : Peers)
    → IsTable now t
    → IsTable now (learn_one net self addrs now id e t)
unfolding learn_one drop
learn_one-IsTable net self addrs now id e t v = elim (Bool-cases (text_eq id self || e.port == 0)) [
  | inl ours ↦ rw ours v
  | inr theirs ↦ elim (Bool-cases e.leaving) [
    | inl bye ↦
        rw (theirs, bye)
          (record {
            distinct = delete-Distinct id t v.distinct;
            keys = delete-Entries (λ k p. (k ≡ p.host_id) × (p.last_seen ≤ now)) id t v.keys;
          })
    | inr stays ↦
        elim (Bool-cases (not (is_empty e.version) && not (text_eq e.version txt_version))) [
          | inl foreign ↦ rw (theirs, stays, foreign) v
          | inr known ↦
              rw (theirs, stays, known)
                (learn_addr-IsTable net now id e (lookup e.target addrs) t v)
        ]
  ]
]

learn_found-IsTable :
    (net : Net) (self : Text) (addrs : Addrs) (now : ℕ) (found : Found) (t : Peers)
    → IsTable now t
    → IsTable now (learn_found net self addrs now found t)
unfolding learn_found
learn_found-IsTable net self addrs now [] t v = v
learn_found-IsTable net self addrs now ((id, e) ∷ found) t v =
    learn_found-IsTable net self addrs now found (learn_one net self addrs now id e t)
      (learn_one-IsTable net self addrs now id e t v)

-- What happens to the table: an announcement, a sweep, or a change of the network.
pub data Event : Type 0 where
  hears : List Resource → ℕ → Event
  sweeps : ℕ → Event
  moves : ℕ → Event

abbrev pub event_time : Event → ℕ
event_time (hears rrs now) = now
event_time (sweeps now) = now
event_time (moves now) = now

unfoldable pub step : Net → Text → Peers → Event → Peers
step net self t (hears rrs now) = learn_peers net self rrs now t
step net self t (sweeps now) = sweep t now
step net self t (moves now) = clear t

-- Every event keeps the table: its keys are distinct and are the host IDs of the entries, and no entry
-- was heard later than the clock, which does not go back.
pub step-IsTable :
    (net : Net) (self : Text) (clock : ℕ) (t : Peers) (e : Event)
    → clock ≤ event_time e
    → IsTable clock t
    → IsTable (event_time e) (step net self t e)
unfolding step learn_peers sweep clear
step-IsTable net self clock t (hears rrs now) h v =
    learn_found-IsTable net self (collect_instances rrs).1 now (collect_instances rrs).0 t
      (record { distinct = v.distinct; keys = later clock now t h v.keys })
step-IsTable net self clock t (sweeps now) h v = record {
  distinct = keep_if-Distinct (λ p. not (is_old now p)) t v.distinct;
  keys =
      keep_if-Entries (λ k p. (k ≡ p.host_id) × (p.last_seen ≤ now)) (λ p. not (is_old now p)) t
        (later clock now t h v.keys);
}
step-IsTable net self clock t (moves now) h v = record { distinct = tt; keys = tt }

-- After a sweep a host is listed exactly when it was listed and was heard within its lifetime.
pub sweep_lem :
    (t : Peers) (now : ℕ) (k : Text) (p : Peer)
    → Distinct t
    → (lookup k (sweep t now) ≡ some p)
      ↔ ((lookup k t ≡ some p) × (now ≤ p.last_seen + peer_lifetime))
unfolding sweep
sweep_lem t now k p d = (λ e. ground (arith, kept, e), λ h. ground (arith, kept, h.0, h.1))
  where
    kept :
        lookup k (keep_if (λ p. not (is_old now p)) t)
        ≡ elim (lookup k t) [ none ↦ none | some v ↦ if not (is_old now v) then some v else none ]
    kept = lookup-keep_if (λ p. not (is_old now p)) k t d
