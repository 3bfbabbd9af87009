-- ===== src/Discovery/Learning.antt =====
-- What one announcement does to the peer table (mdns.go, `learnPeers`).
use tp.Prelude.{
  ℕ, ◌≡◌, refl, List, [], ◌∷◌, not, ◌&&◌, ◌||◌, Option, none, some, arith, ◌==◌, if◌then◌else◌,
  Bool-cases, inl, inr, ap, ◌∙◌, sym,
}
use tp.Prelude.Text.{Text, text_eq, text_eq_iff, text_eq_refl}
use tp.Prelude.Maps.{lookup, Distinct, lookup-insert, lookup-delete, insert-Distinct}
use tp.Discovery.{
  Peer, Peers, put, drop, Body, srv, txt, a, other, Resource, Instance, Found, Addrs, collect,
  collect_body, collect_instances, update_entry, entry_id, Net, learn_addr, learn_one, learn_found,
  learn_peers, is_empty, txt_version, instance_of,
}

-- What the entry of a host becomes when an announcement holds the instance `e` for it.
abbrev pub learned : Net → Text → ℕ → Text → Instance → Option (List ℕ) → Option Peer → Option Peer
learned net self now id e none old = old
learned net self now id e (some ip) old = some (record {
  host_id = id;
  hostname = e.hostname;
  addr = net.join_host_port ip e.port;
  last_seen = now;
})

unfoldable pub outcome : Net → Text → Addrs → ℕ → Text → Instance → Option Peer → Option Peer
outcome net self addrs now id e old =
    if text_eq id self || e.port == 0
    then old
    else if e.leaving
    then none
    else if not (is_empty e.version) && not (text_eq e.version txt_version)
    then old
    else learned net self now id e (lookup e.target addrs) old

-- The same for an announcement that may not name the host.
abbrev pub outcome_of : Net → Text → Addrs → ℕ → Text → Option Instance → Option Peer → Option Peer
outcome_of net self addrs now id none old = old
outcome_of net self addrs now id (some e) old = outcome net self addrs now id e old

learn_addr-lookup :
    (net : Net) (self : Text) (now : ℕ) (id k : Text) (e : Instance) (ip : Option (List ℕ))
    (t : Peers)
    → lookup k (learn_addr net now id e ip t)
      ≡ (if text_eq id k then learned net self now id e ip (lookup id t) else lookup k t)
unfolding put
learn_addr-lookup net self now id k e none t = ground (arith, text_eq_iff id k)
learn_addr-lookup net self now id k e (some ip) t = lookup-insert id k _ t

learn_one-lookup :
    (net : Net) (self : Text) (addrs : Addrs) (now : ℕ) (id k : Text) (e : Instance) (t : Peers)
    → lookup k (learn_one net self addrs now id e t)
      ≡ (if text_eq id k then outcome net self addrs now id e (lookup id t) else lookup k t)
unfolding learn_one outcome drop
learn_one-lookup net self addrs now id k e t = ground (
  arith,
  text_eq_iff id k,
  lookup-delete id k t,
  learn_addr-lookup net self now id k e (lookup e.target addrs) t,
)

learn_found-lookup :
    (net : Net) (self : Text) (addrs : Addrs) (now : ℕ) (k : Text) (found : Found) (t : Peers)
    → Distinct found
    → lookup k (learn_found net self addrs now found t)
      ≡ outcome_of net self addrs now k (lookup k found) (lookup k t)
unfolding learn_found lookup
learn_found-lookup net self addrs now k [] t d = refl
learn_found-lookup net self addrs now k ((id, e) ∷ found) t d =
    learn_found-lookup net self addrs now k found (learn_one net self addrs now id e t) d.1
    ∙ ap (outcome_of net self addrs now k (lookup k found))
        (learn_one-lookup net self addrs now id k e t)
    ∙ elim (Bool-cases (text_eq id k)) [
      | inl same ↦
          let eq : id ≡ k = (text_eq_iff id k).0 same in
          let gone : lookup k found ≡ none = ap (λ x. lookup x found) (sym eq) ∙ d.0 in
          rw (same, gone) (λ i. outcome net self addrs now (eq i) e (lookup (eq i) t))
      | inr differs ↦ rw differs
    ]

update_entry-Distinct :
    (o : Option Text) (f : Instance → Instance) (found : Found)
    → Distinct found
    → Distinct (update_entry o f found)
update_entry-Distinct none f found d = d
update_entry-Distinct (some id) f found d =
    insert-Distinct id (f (instance_of (lookup id found))) found d

collect_body-Distinct :
    (rr : Resource) (b : Body) (found : Found) (addrs : Addrs)
    → Distinct found
    → Distinct (collect_body rr b (found, addrs)).0
collect_body-Distinct rr (srv port target) found addrs d =
    update_entry-Distinct (entry_id rr.name) _ found d
collect_body-Distinct rr (txt kvs) found addrs d =
    update_entry-Distinct (entry_id rr.name) _ found d
collect_body-Distinct rr (a ip) found addrs d = d
collect_body-Distinct rr other found addrs d = d

collect-Distinct :
    (rrs : List Resource) (found : Found) (addrs : Addrs)
    → Distinct found
    → Distinct (collect rrs (found, addrs)).0
unfolding collect
collect-Distinct [] found addrs d = d
collect-Distinct (rr ∷ rrs) found addrs d =
    collect-Distinct rrs (collect_body rr rr.body (found, addrs)).0
      (collect_body rr rr.body (found, addrs)).1 (collect_body-Distinct rr rr.body found addrs d)

-- An announcement changes the entry of a host by what it says of that host alone, in whatever order
-- Go ranges over the instances: no instance, this machine's own, port 0, another version or an unknown
-- address leave the entry; a zero TTL removes it; any other instance replaces it.
pub learn_peers_lem :
    (net : Net) (self : Text) (rrs : List Resource) (now : ℕ) (t : Peers) (k : Text)
    → lookup k (learn_peers net self rrs now t)
      ≡ outcome_of net self
          (collect_instances rrs).1
          now
          k
          (lookup k (collect_instances rrs).0)
          (lookup k t)
unfolding learn_peers collect_instances
learn_peers_lem net self rrs now t k =
    learn_found-lookup net self (collect rrs ([], [])).1 now k (collect rrs ([], [])).0 t
      (collect-Distinct rrs [] [] tt)

-- A machine never lists itself because of what it hears: its own entry stays as it was.
pub learn_peers_self :
    (net : Net) (self : Text) (rrs : List Resource) (now : ℕ) (t : Peers)
    → lookup self (learn_peers net self rrs now t) ≡ lookup self t
learn_peers_self net self rrs now t =
    learn_peers_lem net self rrs now t self ∙ own (lookup self (collect_instances rrs).0)
  where
    own :
        (o : Option Instance)
        → outcome_of net self (collect_instances rrs).1 now self o (lookup self t) ≡ lookup self t
    own none = refl
    own (some e) = unfold outcome in rw (text_eq_refl self)
