-- ===== src/Discovery/Announcing.antt =====
-- What a machine learns from the announcement of another: `buildRecords` read by `learnPeers` (mdns.go).
use tp.Prelude.{
  ℕ, ◌%◌, ◌<◌, ◌≡◌, refl, ◌≢◌, List, [], ◌∷◌, ◌++◌, false, Option, none, some, arith, ◌==◌,
  if◌then◌else◌, length, length-append, ap, ◌∙◌, sym, Bool-cases, inl, inr,
}
use tp.Prelude.Text.{Text, codes, text_eq, text_eq_iff, text_eq_refl, cut_prefix}
use tp.Prelude.Maps.{lookup, insert, lookup-insert}
use tp.Interfaces.{Iface, ip4}
use tp.Discovery.{
  Peer, Peers, Resource, Instance, empty_instance, Found, Addrs, collect, collect_instances,
  entry_id, cut_suffix, not_empty, read_txt, Net, learn_peers, mdns_service, txt_version,
  update_entry,
}
use tp.Discovery.Learning.{outcome, outcome_of, learn_peers_lem}
use tp.Discovery.Responder.{Responder, new_responder, build_records, a_records, a_record}

suffix : Text
suffix = b'.' ∷ mdns_service

longer : (c : ℕ) (s : Text) (t : Text) → text_eq (c ∷ (s ++ t)) t ≡ false
longer c s t = elim (Bool-cases (text_eq (c ∷ (s ++ t)) t)) [
  | inl same ↦
      absurd (omega (arith, ap length ((text_eq_iff (c ∷ (s ++ t)) t).0 same), length-append s t))
  | inr differs ↦ differs
]

cut_suffix-append : (id t : Text) → cut_suffix (id ++ t) t ≡ some id
unfolding cut_suffix text_eq
cut_suffix-append [] [] = refl
cut_suffix-append [] (c ∷ t) = rw (text_eq_refl (c ∷ t)) refl
cut_suffix-append (c ∷ id) t = rw (longer c id t, cut_suffix-append id t) refl

entry_id-instance : (id : Text) → id ≢ [] → entry_id (id ++ (b'.' ∷ mdns_service)) ≡ some id
unfolding entry_id
entry_id-instance [] h = absurd (h refl)
entry_id-instance (c ∷ id) h = ap not_empty (cut_suffix-append (c ∷ id) (b'.' ∷ mdns_service))

abbrev first_some : Option Text → Option Text → Option Text
first_some none old = old
first_some (some ip) old = some ip

-- The address that the last interface with one announces, or `old`.
abbrev pub last_ip : Option Text → List Iface → Option Text
last_ip old [] = old
last_ip old (ifi ∷ ifaces) = last_ip (first_some (ip4 ifi) old) ifaces

abbrev bytes_of : (Text → List ℕ) → Option Text → Option (List ℕ)
bytes_of bytes none = none
bytes_of bytes (some ip) = some (bytes ip)

-- Reading the records leaves the instances, and the target with the last address.
abbrev AddressesRead : (Text → List ℕ) → Text → List Resource → Found → Addrs → Option Text → Type 0
AddressesRead bytes target rrs found addrs last =
    ((collect rrs (found, addrs)).0 ≡ found)
    × (lookup target (collect rrs (found, addrs)).1 ≡ bytes_of bytes last)

read_next :
    (bytes : Text → List ℕ) (target : Text) (ttl : ℕ) (o : Option Text) (ifaces : List Iface)
    (found : Found) (addrs : Addrs) (old : Option Text)
    → ((addrs' : Addrs) (old' : Option Text)
        → lookup target addrs' ≡ bytes_of bytes old'
        → AddressesRead bytes target
            (a_records bytes target ttl ifaces)
            found
            addrs'
            (last_ip old' ifaces))
    → lookup target addrs ≡ bytes_of bytes old
    → AddressesRead bytes target
        (a_record bytes target ttl o (a_records bytes target ttl ifaces))
        found
        addrs
        (last_ip (first_some o old) ifaces)
unfolding collect
read_next bytes target ttl none ifaces found addrs old ih e = ih addrs old e
read_next bytes target ttl (some ip) ifaces found addrs old ih e =
    ih (insert target (bytes ip) addrs) (some ip)
      (lookup-insert target target (bytes ip) addrs ∙ rw (text_eq_refl target) refl)

read_addresses :
    (bytes : Text → List ℕ) (target : Text) (ttl : ℕ) (ifaces : List Iface) (found : Found)
    (addrs : Addrs) (old : Option Text)
    → lookup target addrs ≡ bytes_of bytes old
    → AddressesRead bytes target
        (a_records bytes target ttl ifaces)
        found
        addrs
        (last_ip old ifaces)
unfolding collect a_records
read_addresses bytes target ttl [] found addrs old e = (refl, e)
read_addresses bytes target ttl (ifi ∷ ifaces) found addrs old e =
    read_next bytes target ttl (ip4 ifi) ifaces found addrs old
      (λ addrs' old' e'. read_addresses bytes target ttl ifaces found addrs' old' e') e

-- What the announcement says of its host.
abbrev announced : ℕ → Responder → Instance
announced ttl r = record {
  port = r.port % 65536;
  target = r.target;
  hostname = r.hostname;
  version = txt_version;
  leaving = ttl == 0;
}

one_entry :
    (id : Text) (f g : Instance → Instance)
    → id ≢ []
    → update_entry
        (entry_id (id ++ (b'.' ∷ mdns_service)))
        g
        (update_entry (entry_id (id ++ (b'.' ∷ mdns_service))) f [])
      ≡ (id, g (f empty_instance)) ∷ []
unfolding lookup insert
one_entry id f g h =
    ap (λ o. update_entry o g (update_entry o f [])) (entry_id-instance id h)
    ∙ rw (text_eq_refl id) refl

collect-build_records :
    (bytes : Text → List ℕ) (id : Text) (port : ℕ) (hostname : Text) (ifaces : List Iface) (ttl : ℕ)
    → id ≢ []
    → let r = new_responder id port hostname in
      ((collect_instances (build_records bytes r ifaces ttl)).0 ≡ (id, announced ttl r) ∷ [])
      × (lookup r.target (collect_instances (build_records bytes r ifaces ttl)).1
          ≡ bytes_of bytes (last_ip none ifaces))
unfolding collect_instances build_records new_responder collect read_txt lookup cut_prefix
collect-build_records bytes id port hostname ifaces ttl h =
    let (same, addr) =
      read_addresses bytes (id ++ codes ".local.") ttl ifaces
        (update_entry (entry_id (id ++ (b'.' ∷ mdns_service))) described
          (update_entry (entry_id (id ++ (b'.' ∷ mdns_service))) located []))
        [] none refl in
    (same ∙ one_entry id located described h, addr)
  where
    located : Instance → Instance
    located e = record e { port = port % 65536; target = id ++ codes ".local."; leaving = ttl == 0 }

    described : Instance → Instance
    described e = read_txt e ((codes "v=" ++ txt_version) ∷ (codes "host=" ++ hostname) ∷ [])

-- The peer that a machine lists after an announcement with a lifetime.
abbrev pub listed :
    Net → (Text → List ℕ) → ℕ → Text → ℕ → Text → Option Text → Option Peer → Option Peer
listed net bytes now id port hostname none old = old
listed net bytes now id port hostname (some ip) old = some (record {
  host_id = id;
  hostname = hostname;
  addr = net.join_host_port (bytes ip) port;
  last_seen = now;
})

abbrev answered :
    Net → (Text → List ℕ) → ℕ → ℕ → Text → ℕ → Text → Option Text → Option Peer → Option Peer
answered net bytes ttl now id port hostname ip old =
    if ttl == 0 then none else listed net bytes now id port hostname ip old

outcome-announced :
    (net : Net) (bytes : Text → List ℕ) (self id : Text) (port : ℕ) (hostname : Text) (ttl now : ℕ)
    (addrs : Addrs) (ip : Option Text) (old : Option Peer)
    → id ≢ self
    → 0 < port
    → port < 65536
    → lookup (id ++ codes ".local.") addrs ≡ bytes_of bytes ip
    → outcome net self addrs now id (announced ttl (new_responder id port hostname)) old
      ≡ answered net bytes ttl now id port hostname ip old
unfolding outcome new_responder text_eq
outcome-announced net bytes self id port hostname ttl now addrs none old other_id p q e =
    let fits : port % 65536 ≡ port = omega arith in
    rw (fits, e) (ground (arith, text_eq_iff id self))
outcome-announced net bytes self id port hostname ttl now addrs (some ip) old other_id p q e =
    let fits : port % 65536 ≡ port = omega arith in
    rw (fits, e) (ground (arith, text_eq_iff id self))

own_entry :
    (net : Net) (bytes : Text → List ℕ) (self id : Text) (port : ℕ) (hostname : Text)
    (ifaces : List Iface) (ttl now : ℕ) (t : Peers)
    → id ≢ []
    → id ≢ self
    → 0 < port
    → port < 65536
    → lookup id (
        learn_peers net self
          (build_records bytes (new_responder id port hostname) ifaces ttl)
          now
          t)
      ≡ answered net bytes ttl now id port hostname (last_ip none ifaces) (lookup id t)
unfolding lookup
own_entry net bytes self id port hostname ifaces ttl now t h other_id p q =
    let rrs : List Resource = build_records bytes (new_responder id port hostname) ifaces ttl in
    let (found, addr) = collect-build_records bytes id port hostname ifaces ttl h in
    learn_peers_lem net self rrs now t id
    ∙ ap (λ f. outcome_of net self (collect_instances rrs).1 now id (lookup id f) (lookup id t))
        found
    ∙ rw (text_eq_refl id) refl
    ∙ outcome-announced net bytes self id port hostname ttl now (collect_instances rrs).1
        (last_ip none ifaces) (lookup id t) other_id p q (unfold new_responder in addr)

-- A machine that hears the announcement that another builds lists it under its host ID, with its host name,
-- its port and the address of the last of its interfaces that has one, or leaves it as it was if none
-- has. A goodbye, the same records with TTL 0, removes it. No other entry changes.
pub learn_peers-build_records :
    (net : Net) (bytes : Text → List ℕ) (self id : Text) (port : ℕ) (hostname : Text)
    (ifaces : List Iface) (ttl now : ℕ) (t : Peers) (k : Text)
    → id ≢ []
    → id ≢ self
    → 0 < port
    → port < 65536
    → lookup k (
        learn_peers net self
          (build_records bytes (new_responder id port hostname) ifaces ttl)
          now
          t)
      ≡ (if text_eq id k
          then (if ttl == 0
              then none
              else listed net bytes now id port hostname (last_ip none ifaces) (lookup id t))
          else lookup k t)
learn_peers-build_records net bytes self id port hostname ifaces ttl now t k h other_id p q =
    elim (Bool-cases (text_eq id k)) [
      | inl same ↦ rw same (
          ap (λ j. lookup j (learn_peers net self rrs now t)) (sym ((text_eq_iff id k).0 same))
          ∙ own_entry net bytes self id port hostname ifaces ttl now t h other_id p q)
      | inr differs ↦ rw differs (
          learn_peers_lem net self rrs now t k
          ∙ ap
              (λ found.
                outcome_of net self (collect_instances rrs).1 now k (lookup k found) (lookup k t))
              (collect-build_records bytes id port hostname ifaces ttl h).0
          ∙ unfold lookup in rw differs refl)
    ]
  where
    rrs : List Resource
    rrs = build_records bytes (new_responder id port hostname) ifaces ttl
