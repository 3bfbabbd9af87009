-- ===== src/Background/Runs.antt =====
-- A daemon with one paste, swept twice, and asked for its peers (daemon.go).
use tp.Prelude.{ℕ, ◌*◌, ◌≡◌, refl, List, [], ◌∷◌, map, Option, true, false, some, arith}
use tp.Prelude.Text.{Text, codes}
use tp.Prelude.Maps.{lookup}
use tp.Code.{Unicode}
use tp.Pins.{Pin}
use tp.Platform.{no_advice}
use tp.Limiter.{new_limiter}
use tp.Store.{take, paste_key, second}
use tp.Store.History.{new_paste}
use tp.Discovery
use tp.Discovery.{Peer}
use tp.Commands.{Addresses, secret_of, cmd_get}
use tp.Background.{responding, Host, Times, sweep_loop, handle_peers, this_machine}
use tp.Background.Sweeping.{Keeps, sweep_loop-take}
use tp.Background.Hosts.{candidate, with_hosts, cmd_get-handle_peers}

abbrev neighbour : Peer
neighbour = record {
  host_id = codes "h2";
  hostname = codes "box";
  addr = codes "10.0.0.2:7391";
  last_seen = second;
}

abbrev host : Host
host = record {
  control = record {
    store = record {
      m = (paste_key (1 ∷ []), new_paste [] (40 * second) 0 (1 ∷ []) (7 ∷ [])) ∷ [];
      decoy = 9 ∷ [];
    };
    last_used = 0;
  };
  limiter = new_limiter;
  peers = (codes "h2", neighbour) ∷ [];
  counters = record { packets = 1; any_packets = 2 };
  filter = record { ifaces = []; addrs = [] };
  host_id = codes "h1";
  port = 7391;
  started = 0;
  mdns = responding;
}

abbrev tick : Times
tick = record {
  at_store = 30 * second;
  at_limiter = 30 * second;
  at_peers = 30 * second;
  at_idle = 30 * second;
}

sweep_loop-take_example :
    Keeps
      (take host.control.store (1 ∷ []) (31 * second)).1
      (1 ∷ [])
      (31 * second)
      (sweep_loop host (tick ∷ []))
sweep_loop-take_example =
    sweep_loop-take host (tick ∷ []) (1 ∷ []) (31 * second) (unfold lookup in (refl, tt))
      (omega arith, tt)

abbrev ascii : Unicode
ascii = record { lower_rune = λ r. r; is_space_rune = λ r. false }

abbrev pins : List (Text × Pin)
pins = (codes "h2", record { spki = 5 ∷ []; hostname = codes "box" }) ∷ []

abbrev addresses : Addresses
addresses = record { has_port = λ s. true; join_host_port = λ s n. s }

abbrev loopback : ℕ → Text
loopback n = codes "127.0.0.1:7391"

abbrev derive : Text → Option (List ℕ)
derive code = some (1 ∷ [])

cmd_get-handle_peers_example :
    cmd_get ascii [] derive addresses pins
      (some (handle_peers loopback no_advice host second).peers)
      []
      (codes "123456789")
    ≡ with_hosts (secret_of ascii [] derive (codes "123456789")) (
        candidate pins (this_machine loopback host second)
        ∷ map (candidate pins) (tp.Discovery.list host.peers))
cmd_get-handle_peers_example =
    cmd_get-handle_peers ascii [] derive addresses pins loopback no_advice host second
      (codes "123456789")
