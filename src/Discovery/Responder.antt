-- ===== src/Discovery/Responder.antt =====
-- The responder of mdns.go: what it announces, when it answers, and the groups that it joins. A message
-- is the list of its records or questions (package dnsmessage packs and parses it), a timer is the
-- time at which it is due.
use tp.Prelude.{
  ℕ, ◌+◌, ◌-◌, ◌*◌, ◌/◌, ◌%◌, List, [], ◌∷◌, ◌++◌, Bool, true, false, not, ◌||◌, Option, none, some,
  ltb, ◌==◌, if◌then◌else◌, max,
}
use tp.Prelude.Text.{Text, codes, text_eq}
use tp.Prelude.Maps.{insert, has_key}
use tp.Store.{second}
use tp.Limiter
use tp.Limiter.{Bucket, token, zero_bucket}
use tp.Interfaces.{Iface, ip4, NetFilter, is_own_addr}
use tp.Discovery.{
  Peers, Peer, Resource, srv, txt, a, other, Net, learn_peers, mdns_service, mdns_ttl, mdns_port,
  answer_min_gap, answer_delay_floor, txt_version, list,
}

abbrev pub answer_delay_ceiling : ℕ
answer_delay_ceiling = 120_000_000

abbrev pub legacy_burst : ℕ
legacy_burst = 5 * token

-- Five a second, in units a nanosecond.
abbrev pub legacy_per_second : ℕ
legacy_per_second = 15

abbrev pub quiet_period : ℕ
quiet_period = 15 * second

-- The map of joined groups, the state of the answers and the bucket of `responder`, with its names.
pub record Responder : Type 0 where
  pub host_id : Text
  pub port : ℕ
  pub instance_name : Text
  pub target : Text
  pub hostname : Text
  pub joined : List (Text × Bool)
  pub answer_pending : Bool
  -- None is Go's zero time.
  pub last_answer : Option ℕ
  pub legacy_bucket : Bucket

-- The responder that `startMDNS` builds; `hostname` has lost its suffix ".local".
unfoldable pub new_responder : Text → ℕ → Text → Responder
new_responder host_id port hostname = record {
  host_id = host_id;
  port = port;
  instance_name = host_id ++ (b'.' ∷ mdns_service);
  target = host_id ++ codes ".local.";
  hostname = hostname;
  joined = [];
  answer_pending = false;
  last_answer = none;
  legacy_bucket = zero_bucket;
}

-- The address records of `buildRecords`; `bytes` are the four bytes of an address.
abbrev pub a_record : (Text → List ℕ) → Text → ℕ → Option Text → List Resource → List Resource
a_record bytes target ttl none rest = rest
a_record bytes target ttl (some ip) rest =
    record { name = target; ttl = ttl; body = a (bytes ip) } ∷ rest

unfoldable pub a_records : (Text → List ℕ) → Text → ℕ → List Iface → List Resource
a_records bytes target ttl [] = []
a_records bytes target ttl (ifi ∷ ifaces) =
    a_record bytes target ttl (ip4 ifi) (a_records bytes target ttl ifaces)

-- `uint16(r.port)` wraps. The PTR record is `other`.
unfoldable pub build_records : (Text → List ℕ) → Responder → List Iface → ℕ → List Resource
unfolding a_records
build_records bytes r ifaces ttl =
    record { name = mdns_service; ttl = ttl; body = other }
    ∷ record { name = r.instance_name; ttl = ttl; body = srv (r.port % 65536) r.target }
    ∷ record {
      name = r.instance_name;
      ttl = ttl;
      body = txt ((codes "v=" ++ txt_version) ∷ (codes "host=" ++ r.hostname) ∷ []);
    }
    ∷ a_records bytes r.target ttl ifaces

-- The loop that joins; `join` is whether JoinGroup succeeds on an interface.
unfoldable pub join_all : (Text → Bool) → List Text → List (Text × Bool) → List (Text × Bool)
join_all join [] joined = joined
join_all join (name ∷ names) joined =
    join_all join names (
      if has_key name joined then joined else if join name then insert name true joined else joined)

unfoldable pub has_name : Text → List Text → Bool
has_name name [] = false
has_name name (n ∷ names) = text_eq n name || has_name name names

-- The loop that forgets the names that were not seen.
unfoldable pub forget : List Text → List (Text × Bool) → List (Text × Bool)
unfolding has_name
forget seen [] = []
forget seen ((k, v) ∷ joined) =
    if has_name k seen then (k, v) ∷ forget seen joined else forget seen joined

abbrev is_empty_map : List (Text × Bool) → Bool
is_empty_map [] = true
is_empty_map (e ∷ m) = false

-- The names of the interfaces; false is errNoInterface.
unfoldable pub sync_groups : (Text → Bool) → List Text → Responder → Responder × Bool
unfolding join_all forget
sync_groups join names r =
    let joined = forget names (join_all join names r.joined) in
    (record r { joined = joined }, not (is_empty_map joined))

-- What `networkChanged` sends: an announcement and a query, or nothing.
pub data Packet : Type 0 where
  response : List Resource → Packet
  asks : List Text → Packet

-- `query`
abbrev pub query : Packet
query = asks (mdns_service ∷ [])

unfoldable pub network_changed :
    (Text → List ℕ) → (Text → Bool) → List Iface → Responder → List Text → Responder × List Packet
unfolding sync_groups build_records
network_changed bytes join ifaces r names =
    let (r', joined) = sync_groups join names r in
    if joined
    then (r', response (build_records bytes r' ifaces mdns_ttl) ∷ query ∷ [])
    else (r', [])

-- `draw` is what `randIndex(d / 2)` returned.
unfoldable pub jitter : ℕ → ℕ → ℕ
jitter d draw = d * 3 / 4 + draw

-- What an answer waits for after the last one; `time.Since` at `now`.
abbrev wait_for : Option ℕ → ℕ → ℕ → ℕ
wait_for none now wait = wait
wait_for (some last) now wait =
    if ltb now (last + answer_min_gap) then max wait (last + answer_min_gap - now) else wait

-- The responder, and when the timer that was set is due.
unfoldable pub schedule_answer : Responder → ℕ → ℕ → Responder × Option ℕ
schedule_answer r now draw = if r.answer_pending then (r, none) else (
  record r { answer_pending = true },
  some (now + wait_for r.last_answer now (answer_delay_floor + draw)),
)

-- What the function of the timer does under the lock; it sends an announcement after it.
unfoldable pub answer : Responder → ℕ → Responder
answer r now = record r { answer_pending = false; last_answer = some now }

unfoldable pub allow_legacy : Responder → ℕ → Responder × Bool
unfolding Limiter.take
allow_legacy r now =
    let (b, allowed) = Limiter.take r.legacy_bucket now legacy_burst legacy_per_second in
    (record r { legacy_bucket = b }, allowed)

-- The port of a UDP source, or none for another address.
abbrev pub legacy_source : Option ℕ → Option ℕ
legacy_source none = none
legacy_source (some port) = if port == mdns_port then none else some port

-- What a question leads to.
pub data Reaction : Type 0 where
  ignored : Reaction
  -- A unicast reply to the port.
  replies : ℕ → Reaction
  limited : Reaction
  -- The timer, if one was set.
  schedules : Option ℕ → Reaction

abbrev pub legacy_reaction : ℕ → Responder × Bool → Responder × Reaction
legacy_reaction port (r, true) = (r, replies port)
legacy_reaction port (r, false) = (r, limited)

abbrev pub react : Responder → Option ℕ → ℕ → ℕ → Responder × Reaction
react r (some port) now draw = legacy_reaction port (allow_legacy r now)
react r none now draw = let (r', due) = schedule_answer r now draw in (r', schedules due)

abbrev pub is_asked : Responder → Text → Bool
is_asked r name = text_eq name mdns_service || text_eq name r.instance_name || text_eq name r.target

-- The names of the questions, up to a parse error.
unfoldable pub answer_questions : Responder → Option ℕ → ℕ → ℕ → List Text → Responder × Reaction
unfolding schedule_answer allow_legacy
answer_questions r src now draw [] = (r, ignored)
answer_questions r src now draw (name ∷ names) =
    let rest = answer_questions r src now draw names in
    if is_asked r name then react r (legacy_source src) now draw else rest

-- `handle` on a parsed packet; `tick` is the time that `learnPeers` reads.
unfoldable pub handle :
    Net → Responder → Peers → Option ℕ → ℕ → ℕ → Packet → (Responder × Reaction) × Peers
unfolding answer_questions
handle net r t src now draw (response rrs) = ((r, ignored), learn_peers net r.host_id rrs now t)
handle net r t src now draw (asks names) = (answer_questions r src now draw names, t)

-- The counters of `readLoop`.
pub record Counters : Type 0 where
  pub packets : ℕ
  pub any_packets : ℕ

abbrev is_own_host : NetFilter → Option Text → Bool
is_own_host f none = false
is_own_host f (some host) = is_own_addr f host

-- `isOwn` on the host of the source.
unfoldable pub count_packet : NetFilter → Option Text → Counters → Counters
count_packet f src n = record {
  packets = if not (is_own_host f src) then n.packets + 1 else n.packets;
  any_packets = n.any_packets + 1;
}

-- `diagnostic`: whether it reports that no multicast arrives.
unfoldable pub is_quiet : ℕ → ℕ → Counters → Bool
is_quiet started now n = not (ltb now (started + quiet_period) || ltb 0 n.any_packets)

-- One round of `browseLoop` after the startup: a query only while no peers are known.
abbrev asks_if : List Peer → List Packet
asks_if [] = query ∷ []
asks_if (p ∷ ps) = []

unfoldable pub browse : Peers → List Packet
browse t = asks_if (list t)
