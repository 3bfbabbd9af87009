-- ===== src/System/Runs.antt =====
-- A daemon that is given a paste, connected to, swept and asked to delete (daemon.go).
use tp.Prelude.{List, [], ◌∷◌, Bool, true, some, arith}
use tp.Prelude.Int.{pos}
use tp.Prelude.Text.{codes}
use tp.Store.{second}
use tp.Store.Invariant.{IsValid}
use tp.Limiter.{new_limiter}
use tp.Pake.Toy.{toy}
use tp.Discovery.{Net}
use tp.Session.{Link, alpn_proto}
use tp.Control.{Parsers, Draw}
use tp.Background.{responding, Host}
use tp.System.{Event, posts, connects, ticks, deletes, run}
use tp.System.Events.{After, run-After}

abbrev host : Host
host = record {
  control = record { store = record { m = []; decoy = 9 ∷ [] }; last_used = 0 };
  limiter = new_limiter;
  peers = [];
  counters = record { packets = 0; any_packets = 0 };
  filter = record { ifaces = []; addrs = [] };
  host_id = codes "h1";
  port = 7391;
  started = 0;
  mdns = responding;
}

abbrev empty_IsValid : IsValid host.control.store
empty_IsValid = record { distinct = tt; entries = tt; bounded = omega arith }

abbrev parsers : Parsers
parsers = record { parse_duration = λ v. some (pos second); atoi = λ v. some (pos 2) }

abbrev net : Net
net = record { join_host_port = λ ip port. ip }

abbrev drawn : Bool → List Draw
drawn digits = record { code = codes "123-456-789"; prs = some (1 ∷ 2 ∷ []) } ∷ []

abbrev link : Link
link = record {
  remote = some (codes "a");
  tls_ok = true;
  negotiated = alpn_proto;
  exported = some (6 ∷ []);
  write_ok = true;
  peer_time = second;
  exchange_time = second;
  offer_time = second;
  fail_time = second;
  take_time = second;
  touch_time = second;
  pick = λ i. 0;
}

abbrev day : List (Event toy)
day =
    posts (record { label = []; ttl = []; max_gets = []; code_style = [] }) second second drawn
      (some (7 ∷ []))
    ∷ connects link (λ i. 5) (1 ∷ [])
    ∷ ticks (record { at_store = second; at_limiter = second; at_peers = second; at_idle = second })
    ∷ deletes second (codes "0102")
    ∷ []

run-After_example :
    After host (run toy parsers net host day) × IsValid (run toy parsers net host day).control.store
run-After_example = run-After toy parsers net host day empty_IsValid
