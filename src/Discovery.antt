-- ===== src/Discovery.antt =====
-- mdns.go: what a machine learns from the announcements of others, and when it answers. A parsed
-- message is a list of resource records (package dnsmessage is not part of the repository).
use tp.Prelude.{
  ℕ, zero, suc, ◌+◌, ◌-◌, ◌*◌, ◌/◌, ◌≤◌, List, [], ◌∷◌, ◌++◌, Bool, true, false, not, ◌&&◌, ◌||◌,
  Option, none, some, ltb, leb, ◌==◌, if◌then◌else◌, length, max,
}
use tp.Prelude.Text.{Text, codes, text_eq, has_prefix, cut_prefix}
use tp.Prelude.Maps.{lookup, insert, delete, keep_if, values}
use tp.Store.{second}
use tp.Limiter.{Bucket, token}
use tp.Limiter
pub mod Learning
pub mod Table
pub mod History
pub mod Responder
pub mod Announcing
pub mod Questions
pub mod Answering
pub mod Loops
mod Runs

abbrev pub mdns_service : Text
mdns_service = codes "_tp._tcp.local."

abbrev pub mdns_port : ℕ
mdns_port = 5353

abbrev pub peer_lifetime : ℕ
peer_lifetime = 25 * 60 * second

abbrev pub mdns_ttl : ℕ
mdns_ttl = 25 * 60

abbrev pub answer_min_gap : ℕ
answer_min_gap = second

abbrev pub answer_delay_floor : ℕ
answer_delay_floor = 20_000_000

abbrev pub txt_version : Text
txt_version = codes "1"

pub record Peer : Type 0 where
  pub host_id : Text
  pub hostname : Text
  pub addr : Text
  pub last_seen : ℕ

-- The map of `peerTable`.
abbrev pub Peers : Type 0
Peers = List (Text × Peer)

unfoldable pub put : Peers → Peer → Peers
put t p = insert p.host_id p t

unfoldable pub drop : Peers → Text → Peers
drop t id = delete id t

unfoldable pub clear : Peers → Peers
clear t = []

unfoldable pub list : Peers → List Peer
list t = values t

-- `time.Since(p.LastSeen) > peerLifetime` at `now`.
abbrev pub is_old : ℕ → Peer → Bool
is_old now p = ltb (p.last_seen + peer_lifetime) now

unfoldable pub sweep : Peers → ℕ → Peers
sweep t now = keep_if (λ p. not (is_old now p)) t

-- The bodies that `collectInstances` reads; the others are `other`. An address is its four bytes.
pub data Body : Type 0 where
  srv : ℕ → Text → Body
  txt : List Text → Body
  a : List ℕ → Body
  other : Body

pub record Resource : Type 0 where
  pub name : Text
  pub ttl : ℕ
  pub body : Body

pub record Instance : Type 0 where
  pub port : ℕ
  pub target : Text
  pub hostname : Text
  pub version : Text
  pub leaving : Bool

abbrev pub empty_instance : Instance
empty_instance = record { port = 0; target = []; hostname = []; version = []; leaving = false }

abbrev prefixed : ℕ → Option Text → Option Text
prefixed c none = none
prefixed c (some t) = some (c ∷ t)

-- The part of `name` in front of ".", the service; none if it does not end so or nothing is left.
unfoldable pub cut_suffix : Text → Text → Option Text
cut_suffix [] suffix = if text_eq [] suffix then some [] else none
cut_suffix (c ∷ s) suffix =
    if text_eq (c ∷ s) suffix then some [] else prefixed c (cut_suffix s suffix)

abbrev not_empty : Option Text → Option Text
not_empty none = none
not_empty (some []) = none
not_empty (some (c ∷ t)) = some (c ∷ t)

-- The host ID that a record's name belongs to.
unfoldable pub entry_id : Text → Option Text
unfolding cut_suffix
entry_id name = not_empty (cut_suffix name (b'.' ∷ mdns_service))

abbrev instance_of : Option Instance → Instance
instance_of none = empty_instance
instance_of (some e) = e

abbrev with_hostname : Option Text → Instance → Instance
with_hostname none e = e
with_hostname (some v) e = record e { hostname = v }

abbrev with_version : Option Text → Instance → Instance
with_version none e = e
with_version (some v) e = record e { version = v }

unfoldable pub read_txt : Instance → List Text → Instance
read_txt e [] = e
read_txt e (kv ∷ kvs) =
    read_txt
      (with_version (cut_prefix kv (codes "v=")) (with_hostname (cut_prefix kv (codes "host=")) e))
      kvs

abbrev pub Found : Type 0
Found = List (Text × Instance)

abbrev pub Addrs : Type 0
Addrs = List (Text × List ℕ)

-- `entry(name)` with the update that its caller makes.
abbrev update_entry : Option Text → (Instance → Instance) → Found → Found
update_entry none f found = found
update_entry (some id) f found = insert id (f (instance_of (lookup id found))) found

abbrev collect_body : Resource → Body → Found × Addrs → Found × Addrs
collect_body rr (srv port target) (found, addrs) = (
  update_entry (entry_id rr.name)
      (λ e. record e { port = port; target = target; leaving = rr.ttl == 0 }) found,
  addrs,
)
collect_body rr (txt kvs) (found, addrs) =
    (update_entry (entry_id rr.name) (λ e. read_txt e kvs) found, addrs)
collect_body rr (a ip) (found, addrs) = (found, insert rr.name ip addrs)
collect_body rr other (found, addrs) = (found, addrs)

unfoldable pub collect : List Resource → Found × Addrs → Found × Addrs
unfolding entry_id read_txt
collect [] acc = acc
collect (rr ∷ rrs) acc = collect rrs (collect_body rr rr.body acc)

unfoldable pub collect_instances : List Resource → Found × Addrs
unfolding collect
collect_instances rrs = collect rrs ([], [])

-- What the rest of `learnPeers` calls: the text of an address and of a port, and JoinHostPort.
pub record Net : Type 0 where
  pub join_host_port : List ℕ → ℕ → Text

-- One round of the loop of `learnPeers`, on the host ID of this machine.
abbrev learn_addr : Net → ℕ → Text → Instance → Option (List ℕ) → Peers → Peers
learn_addr net now id e none t = t
learn_addr net now id e (some ip) t = put t (record {
  host_id = id;
  hostname = e.hostname;
  addr = net.join_host_port ip e.port;
  last_seen = now;
})

abbrev pub is_empty : Text → Bool
is_empty [] = true
is_empty (c ∷ s) = false

unfoldable pub learn_one : Net → Text → Addrs → ℕ → Text → Instance → Peers → Peers
learn_one net self addrs now id e t =
    if text_eq id self || e.port == 0
    then t
    else if e.leaving
    then drop t id
    else if not (is_empty e.version) && not (text_eq e.version txt_version)
    then t
    else learn_addr net now id e (lookup e.target addrs) t

unfoldable pub learn_found : Net → Text → Addrs → ℕ → Found → Peers → Peers
unfolding learn_one
learn_found net self addrs now [] t = t
learn_found net self addrs now ((id, e) ∷ found) t =
    learn_found net self addrs now found (learn_one net self addrs now id e t)

-- `learnPeers` on the records of the three sections.
unfoldable pub learn_peers : Net → Text → List Resource → ℕ → Peers → Peers
unfolding learn_found collect_instances
learn_peers net self rrs now t =
    let (found, addrs) = collect_instances rrs in learn_found net self addrs now found t
