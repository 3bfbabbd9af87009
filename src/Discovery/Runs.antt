-- ===== src/Discovery/Runs.antt =====
-- Announcements of one peer, as mdns.go reads them.
use tp.Prelude.{◌↔◌, ◌*◌, ◌≡◌, refl, List, [], ◌∷◌, some, arith}
use tp.Prelude.Text.{codes, text_eq, cut_prefix}
use tp.Prelude.Maps.{lookup, insert}
use tp.Discovery.{
  Peer, Net, Resource, srv, txt, a, learn_peers, learn_found, learn_one, collect_instances, collect,
  entry_id, cut_suffix, read_txt, put,
}
use tp.Discovery.Table.{Event, hears, sweeps}
use tp.Discovery.History.{run, Sourced, run-Sourced}
use tp.Prelude.{◌==◌, if◌then◌else◌, true, false, none}
use tp.Interfaces.{Iface}
use tp.Limiter.{take, spend}
use tp.Prelude.Int.{◌+ℤ◌, ◌-ℤ◌}
use tp.Discovery.{mdns_service}
use tp.Discovery.Responder.{
  answer_questions, allow_legacy, Responder, new_responder, build_records, schedule_answer,
}
use tp.Discovery.Announcing.{learn_peers-build_records, listed, last_ip}
use tp.Discovery
use tp.Store.{second}
use tp.Discovery.Responder.{jitter}
use tp.Discovery.Loops.{sweep-jitter}
use tp.Discovery.Questions.{System, asked, rung, new_system, here, next, asks, rings}
use tp.Discovery.Answering.{IsPaced, Reach-IsPaced}

abbrev net : Net
net = record { join_host_port = λ ip port. ip }

abbrev announcement : List Resource
announcement =
    record { name = codes "id1._tp._tcp.local."; ttl = 120; body = srv 7000 (codes "box.local.") }
    ∷ record {
      name = codes "id1._tp._tcp.local.";
      ttl = 120;
      body = txt (codes "host=box" ∷ codes "v=1" ∷ []);
    }
    ∷ record { name = codes "box.local."; ttl = 120; body = a (10 ∷ 0 ∷ 0 ∷ 1 ∷ []) }
    ∷ []

abbrev box : Peer
box = record {
  host_id = codes "id1";
  hostname = codes "box";
  addr = 10 ∷ 0 ∷ 0 ∷ 1 ∷ [];
  last_seen = 50;
}

heard : learn_peers net (codes "me") announcement 50 [] ≡ (codes "id1", box) ∷ []
unfolding learn_peers learn_found learn_one collect_instances collect entry_id cut_suffix read_txt
    put lookup insert text_eq cut_prefix
heard = refl

-- Heard, swept within the lifetime, and heard again without a word of the box.
abbrev history : List Event
history = hears [] (100 * second) ∷ sweeps (80 * second) ∷ hears announcement 50 ∷ []

run-Sourced_example :
    (lookup (codes "id1") (run net (codes "me") history) ≡ some box)
    ↔ Sourced net (codes "me") (codes "id1") box history
run-Sourced_example =
    run-Sourced net (codes "me") (codes "id1") box history (omega arith, (omega arith, tt))

abbrev card : Iface
card = record {
  name = codes "eth0";
  up = true;
  multicast = true;
  loopback = false;
  addrs = some (record { v4 = some (codes "1234"); link_local = false } ∷ []);
}

learn_peers-build_records_example :
    lookup (codes "id1") (
      learn_peers net
        (codes "me")
        (build_records (λ t. t) (new_responder (codes "id1") 7000 (codes "box")) (card ∷ []) 1500)
        50
        [])
    ≡ (if text_eq (codes "id1") (codes "id1")
        then (if 1500 == 0
            then none
            else listed net
                (λ t. t)
                50
                (codes "id1")
                7000
                (codes "box")
                (last_ip none (card ∷ []))
                (lookup (codes "id1") []))
        else lookup (codes "id1") [])
learn_peers-build_records_example =
    learn_peers-build_records net (λ t. t) (codes "me") (codes "id1") 7000 (codes "box") (card ∷ [])
      1500 50 [] (codes "id1") (λ e. cc) (λ e. cc) (omega arith) (omega arith)

abbrev responder : Responder
responder = new_responder (codes "id1") 7000 (codes "box")

-- A resolver's question is answered by unicast, and one by multicast with a timer.
abbrev resolved : System
resolved = asked (new_system responder 5) (some 40_000) 8 5 (mdns_service ∷ [])

abbrev waiting : System
waiting = asked resolved none 10 5 (mdns_service ∷ [])

waiting_due : waiting.due ≡ 20_000_015 ∷ []
unfolding answer_questions schedule_answer allow_legacy take spend new_responder text_eq ◌+ℤ◌ ◌-ℤ◌
waiting_due = refl

Reach-IsPaced_example : IsPaced 5 (rung waiting [] 20_000_020)
unfolding answer_questions schedule_answer allow_legacy take spend new_responder text_eq ◌+ℤ◌ ◌-ℤ◌
Reach-IsPaced_example =
    Reach-IsPaced (codes "id1") 7000 (codes "box") 5 (rung waiting [] 20_000_020) (omega arith) (
      next
        (next (next here (asks (some 40_000) 8 5 (mdns_service ∷ []) (omega arith)))
          (asks none 10 5 (mdns_service ∷ []) (omega arith)))
        (rings 20_000_020 20_000_015 [] [] (omega arith) waiting_due (omega arith)))

sweep-jitter_example :
    lookup (codes "id1") (tp.Discovery.sweep ((codes "id1", box) ∷ []) (1_400 * second)) ≡ some box
sweep-jitter_example =
    sweep-jitter ((codes "id1", box) ∷ []) (codes "id1") box (299 * second) (280 * second)
      (1_400 * second) (unfold lookup in (refl, tt)) (unfold lookup text_eq in refl) (omega arith)
      (omega arith) (unfold jitter in omega arith)
