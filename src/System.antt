-- ===== src/System.antt =====
-- daemon.go as a whole: every request of the local commands, every exchange with a client, every
-- packet of mDNS that is heard and every turn of the loops as one event on the daemon's state. The handshake
-- of a connection is one event: what other goroutines do between its steps is left out.
use tp.Prelude.{ℕ, List, [], ◌∷◌, Bool, true, false, Option, if◌then◌else◌}
use tp.Prelude.Text.{Text}
use tp.Prelude.Int.{ℤ}
use tp.Store.{new_store}
use tp.Limiter.{new_limiter}
use tp.Interfaces.{Iface}
use tp.Pake.Crypto.{Crypto}
use tp.Discovery.{Resource, Net, learn_peers}
use tp.Discovery.Responder.{count_packet}
use tp.Session
use tp.Session.{Link}
use tp.Control.{
  Parsers, Query, Draw, touch, handle_post, handle_list, handle_delete, handle_delete_all,
}
use tp.Background.{
  not_called, called, panics, Host, Times, Poll, sweep_tick, net_round, asked_peers,
}
pub mod Histories
pub mod Events
mod Runs

module _ (c : Crypto) where
  pub data Event : Type 0 where
    -- The query, the two times, the draws and the body of a POST.
    posts : Query → ℕ → ℕ → (Bool → List Draw) → Option (List ℕ) → Event
    lists : ℕ → Event
    asks_peers : ℕ → Option ℤ → List Poll → Event
    deletes : ℕ → Text → Event
    deletes_all : ℕ → Event
    -- A connection: what it supplies, the scalars, and the bytes that arrive.
    connects : Link → (ℕ → c.Scalar) → List ℕ → Event
    -- A packet of mDNS with the host of its source: a response, or any other.
    hears : Option Text → List Resource → ℕ → Event
    passes : Option Text → Event
    ticks : Times → Event
    changes : Option (List Iface) → Event

  -- What a handshake leaves in the daemon.
  abbrev pub after_handshake : Host → tp.Session.Host → Host
  after_handshake h s = record h {
    control = record { store = s.store; last_used = s.last_used };
    limiter = s.limiter;
  }

  abbrev pub session_of : Host → List ℕ → tp.Session.Host
  session_of h incoming = record {
    store = h.control.store;
    limiter = h.limiter;
    last_used = h.control.last_used;
    incoming = incoming;
    outgoing = [];
  }

  unfoldable pub step : Parsers → Net → Host → Event → Host
  step ps net h (posts q used now draws body) = record h {
    control = (handle_post ps h.control q used now draws body).0;
  }
  step ps net h (lists used) = record h { control = (handle_list h.control used).0 }
  step ps net h (asks_peers used wait polls) = (asked_peers h used wait polls).0
  step ps net h (deletes used path) = record h { control = (handle_delete h.control used path).0 }
  step ps net h (deletes_all used) = record h { control = handle_delete_all h.control used }
  step ps net h (connects l draw incoming) =
      after_handshake h (tp.Session.handshake c h.host_id l draw (session_of h incoming)).1
  step ps net h (hears src rrs now) = record h {
    peers = learn_peers net h.host_id rrs now h.peers;
    counters = count_packet h.filter src h.counters;
  }
  step ps net h (passes src) = record h { counters = count_packet h.filter src h.counters }
  step ps net h (ticks t) = (sweep_tick h t).0
  step ps net h (changes all) = (net_round h all).0

  -- Whether the program ends with the event: the idle daemon stops, or a goroutine panics. A panic in a
  -- handler of HTTP is recovered by its server.
  abbrev pub ends : Host → Event → Bool
  ends h (ticks t) = (sweep_tick h t).1
  ends h (changes all) = elim (net_round h all).1 [
    | not_called ↦ false
    | called ↦ false
    | panics ↦ true
  ]
  ends h e = false

  -- The state in which the events leave the daemon, or in which it ends.
  unfoldable pub run : Parsers → Net → Host → List Event → Host
  unfolding step
  run ps net h [] = h
  run ps net h (e ∷ es) =
      let rest : Host = run ps net (step ps net h e) es in
      if ends h e then step ps net h e else rest
