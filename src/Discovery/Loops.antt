-- ===== src/Discovery/Loops.antt =====
-- The loops of mdns.go that announce and ask: `announceLoop` and `browseLoop`.
use tp.Prelude.{
  ℕ, ◌+◌, ◌*◌, ◌/◌, ◌≤◌, ◌<◌, ◌≡◌, List, [], ◌∷◌, ◌++◌, map, Bool, true, false, some, if◌then◌else◌,
  arith,
}
use tp.Prelude.Text.{Text}
use tp.Prelude.Maps.{lookup, Distinct}
use tp.Store.{second}
use tp.Discovery.{Peer, Peers, sweep, peer_lifetime, Resource, mdns_ttl}
use tp.Interfaces.{Iface}
use tp.Discovery.Table.{sweep_lem}
use tp.Discovery.Responder.{Responder, build_records, jitter, Packet, query, browse}

abbrev pub startup_burst : List ℕ
startup_burst = 0 ∷ second ∷ 3 * second ∷ []

abbrev pub announce_interval : ℕ
announce_interval = 10 * 60 * second

abbrev pub browse_when_empty : ℕ
browse_when_empty = 60 * second

-- The pauses of `announceLoop`; the draws are those of `jitter`.
unfoldable pub announce_delays : List ℕ → List ℕ
announce_delays draws = startup_burst ++ map (jitter announce_interval) draws

-- What `announceLoop` sends: at each pause, what `waited` returns, and the interfaces at that time.
unfoldable pub announce_loop :
    (Text → List ℕ) → Responder → List (Bool × List Iface) → List (List Resource)
unfolding build_records
announce_loop bytes r [] = []
announce_loop bytes r ((over, ifaces) ∷ rest) =
    let more = announce_loop bytes r rest in
    if over then build_records bytes r ifaces mdns_ttl ∷ more else []

-- `browseLoop` after the startup, on the peers known at each turn.
unfoldable pub browse_later : List (Bool × Peers) → List Packet
unfolding browse
browse_later [] = []
browse_later ((over, peers) ∷ rest) =
    let more = browse_later rest in if over then browse peers ++ more else []

-- `browseLoop`: three queries, whatever is known, and then one a minute while nothing is.
unfoldable pub browse_loop : List Bool → List (Bool × Peers) → List Packet
unfolding browse_later
browse_loop (true ∷ burst) later = query ∷ browse_loop burst later
browse_loop (false ∷ burst) later = []
browse_loop [] later = browse_later later

two_intervals :
    (a b : ℕ)
    → a < announce_interval / 2
    → b < announce_interval / 2
    → jitter announce_interval a + jitter announce_interval b ≤ peer_lifetime
unfolding jitter
two_intervals a b h k = omega arith

-- A host that announces itself at the intervals of `announceLoop` stays listed though one announcement is
-- lost: no sweep removes it up to two such intervals after it was last heard, whatever is drawn for them, on
-- a table whose keys are distinct.
pub sweep-jitter :
    (t : Peers) (k : Text) (p : Peer) (a b now : ℕ)
    → Distinct t
    → lookup k t ≡ some p
    → a < announce_interval / 2
    → b < announce_interval / 2
    → now ≤ p.last_seen + (jitter announce_interval a + jitter announce_interval b)
    → lookup k (sweep t now) ≡ some p
sweep-jitter t k p a b now d there ha hb soon =
    (sweep_lem t now k p d).1 (there, omega (arith, two_intervals a b ha hb))
