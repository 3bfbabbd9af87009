-- ===== src/Background.antt =====
-- daemon.go around its handlers: the loops that run beside them, and the answer to GET /peers.
-- One turn of a loop is a function of the daemon's state and of the times it reads.
use tp.Prelude.{
  ℕ, ◌+◌, ◌-◌, ◌*◌, List, [], ◌∷◌, ◌++◌, Bool, true, false, not, ◌&&◌, ◌||◌, Option, none, some,
  ltb, leb, ◌==◌, if◌then◌else◌, length,
}
use tp.Prelude.Text.{Text, codes}
use tp.Prelude.Int.{ℤ, pos, negsuc}
use tp.Store
use tp.Store.{second}
use tp.Limiter.{Limiter, new_limiter}
use tp.Identity.{host_id}
use tp.Limiter
use tp.Interfaces.{Iface, NetFilter, refresh, iface_names}
use tp.Discovery
use tp.Discovery.{Peer, Peers}
use tp.Discovery.Responder.{Counters}
use tp.Platform.{Advice, Diagnostic}
use tp.Platform
use tp.Control.{Daemon, touch, should_stop}
use tp.Control
pub mod Sweeping
pub mod Hosts
pub mod Startup
mod Runs

abbrev pub sweep_interval : ℕ
sweep_interval = 30 * second

abbrev pub iface_refresh : ℕ
iface_refresh = 20 * second

abbrev pub peer_warmup : ℕ
peer_warmup = 5 * second

-- The interface value `mdns`: nil, a nil *responder, which is not nil as an interface, or a responder.
pub data Mdns : Type 0 where
  no_mdns nil_responder responding : Mdns

-- `if d.mdns != nil` with a call of a method, which dereferences its receiver. What networkChanged and query
-- then send is in Discovery/Responder.
pub data Call : Type 0 where
  not_called called panics : Call

abbrev pub call_mdns : Mdns → Call
call_mdns no_mdns = not_called
call_mdns nil_responder = panics
call_mdns responding = called

-- The fields of `daemon`; `control` is its `store` and `lastUsed`.
pub record Host : Type 0 where
  pub control : Daemon
  pub limiter : Limiter
  pub peers : Peers
  pub counters : Counters
  pub filter : NetFilter
  pub host_id : Text
  pub port : ℕ
  pub started : ℕ
  pub mdns : Mdns

-- The times that one tick of `sweepLoop` reads, in this order.
pub record Times : Type 0 where
  pub at_store : ℕ
  pub at_limiter : ℕ
  pub at_peers : ℕ
  pub at_idle : ℕ

unfoldable pub sweep_all : Host → Times → Host
sweep_all h t = record h {
  control = record h.control { store = tp.Store.sweep h.control.store t.at_store };
  limiter = tp.Limiter.sweep h.limiter t.at_limiter;
  peers = tp.Discovery.sweep h.peers t.at_peers;
}

-- One tick of `sweepLoop`: the swept daemon, and whether it stops.
unfoldable pub sweep_tick : Host → Times → Host × Bool
unfolding sweep_all
sweep_tick h t = (sweep_all h t, should_stop (sweep_all h t).control t.at_idle)

-- `sweepLoop` over the ticks, up to the one that stops the daemon.
unfoldable pub sweep_loop : Host → List Times → Host × Bool
unfolding sweep_tick
sweep_loop h [] = (h, false)
sweep_loop h (t ∷ ts) =
    let rest : Host × Bool = sweep_loop (sweep_tick h t).0 ts in
    if (sweep_tick h t).1 then sweep_tick h t else rest

-- One round of `netLoop` on what net.Interfaces returns, and whether networkChanged is called or its
-- call panics.
unfoldable pub net_round : Host → Option (List Iface) → Host × Call
net_round h all =
    let r : NetFilter × Bool = refresh h.filter all in
    if r.1
    then (record h { filter = r.0; peers = tp.Discovery.clear h.peers }, call_mdns h.mdns)
    else (record h { filter = r.0 }, not_called)

-- One turn of the loop of `waitForPeers`: whether the deadline is ahead, whether the pause ended without
-- the context, and the peers known after it.
pub record Poll : Type 0 where
  pub before_deadline : Bool
  pub paused : Bool
  pub known : Peers

abbrev is_empty : List Peer → Bool
is_empty [] = true
is_empty (p ∷ ps) = false

-- The number of pauses; none where the given turns do not end the loop.
unfoldable pub poll_loop : List Poll → Option ℕ
poll_loop [] = none
poll_loop (p ∷ ps) =
    let rest = poll_loop ps in
    if not p.before_deadline
    then some 0
    else if not p.paused || not (is_empty (tp.Discovery.list p.known))
    then some 1
    else elim rest [ none ↦ none | some n ↦ some (n + 1) ]

-- What `waitForPeers` does: it returns after some pauses, having called query or not, or panics.
pub data Waited : Type 0 where
  returned : Bool → Option ℕ → Waited
  panicked : Waited

abbrev pub asked_network : Call → Option ℕ → Waited
asked_network not_called pauses = returned false pauses
asked_network called pauses = returned true pauses
asked_network panics pauses = panicked

unfoldable pub wait_for_peers : Host → ℕ → List Poll → Waited
unfolding poll_loop
wait_for_peers h now polls =
    if not (is_empty (tp.Discovery.list h.peers)) || ltb (h.started + peer_warmup) now
    then returned false (some 0)
    else asked_network (call_mdns h.mdns) (poll_loop polls)

-- The answer of `handlePeers`; `local_addr` is net.JoinHostPort of 127.0.0.1 and the port.
pub record PeersAnswer : Type 0 where
  pub peers : List Peer
  pub diagnostic : Diagnostic
  pub counts : Counters
  pub uptime : ℕ
  pub interfaces : List Text

abbrev pub this_machine : (ℕ → Text) → Host → ℕ → Peer
this_machine local_addr h now = record {
  host_id = h.host_id;
  hostname = codes "this machine";
  addr = local_addr h.port;
  last_seen = now;
}

-- `wait` is the parsed duration; the daemon waits only for a positive one.
abbrev pub waits : Option ℤ → Bool
waits none = false
waits (some (pos n)) = ltb 0 n
waits (some (negsuc n)) = false

-- The state after the touch, before the wait.
unfoldable pub asked_peers : Host → ℕ → Option ℤ → List Poll → Host × Waited
unfolding wait_for_peers
asked_peers h used wait polls =
    let touched = record h { control = touch h.control used } in
    if waits wait
    then (touched, wait_for_peers touched used polls)
    else (touched, returned false (some 0))

-- The answer from the state that the wait leaves; `help` is what `discoveryAdvice` returns.
unfoldable pub handle_peers : (ℕ → Text) → Advice → Host → ℕ → PeersAnswer
unfolding iface_names
handle_peers local_addr help h now = record {
  peers = this_machine local_addr h now ∷ tp.Discovery.list h.peers;
  diagnostic = tp.Platform.diagnostic h.started now h.counters help;
  counts = h.counters;
  uptime = tp.Control.round_second (now - h.started);
  interfaces = iface_names h.filter.ifaces;
}
