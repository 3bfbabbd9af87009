-- ===== src/Doctor/Runs.antt =====
-- `tp doctor` on a daemon that knows one other machine (doctor.go).
use tp.Prelude.{ℕ, ◌≡◌, List, [], ◌∷◌, none, some, ltb, ◌==◌, ◌&&◌, length}
use tp.Prelude.Text.{Text, codes}
use tp.Limiter.{new_limiter}
use tp.Discovery
use tp.Discovery.{Peer}
use tp.Platform.{no_advice}
use tp.Background.{responding, Host, handle_peers}
use tp.Doctor.{Line, report}
use tp.Doctor.Reporting.{says, shown, is_working, is_silent, report-handle_peers}

abbrev neighbour : Peer
neighbour = record {
  host_id = codes "h2";
  hostname = codes "box";
  addr = codes "10.0.0.2:7391";
  last_seen = 5;
}

abbrev host : Host
host = record {
  control = record { store = record { m = []; decoy = 9 ∷ [] }; last_used = 0 };
  limiter = new_limiter;
  peers = (codes "h2", neighbour) ∷ [];
  counters = record { packets = 1; any_packets = 2 };
  filter = record { ifaces = []; addrs = [] };
  host_id = codes "h1";
  port = 7391;
  started = 0;
  mdns = responding;
}

abbrev loopback : ℕ → Text
loopback n = codes "127.0.0.1:7391"

report-handle_peers_example :
    (lines : List Line) × (report (some (handle_peers loopback no_advice host 5)) none no_advice
      ≡ some lines)
    × (shown lines ≡ tp.Discovery.list host.peers)
    × (says is_working lines
        ≡ (ltb 0 host.counters.any_packets && ltb 0 (length (tp.Discovery.list host.peers))))
    × (says is_silent lines ≡ (host.counters.any_packets == 0))
report-handle_peers_example = report-handle_peers loopback no_advice host 5 none
