-- ===== src/Accept/Runs.antt =====
-- The accept loop of daemon.go over a few events.
use tp.Prelude.{◌≡◌, refl, List, [], ◌∷◌, Bool, true, false, some, arith, All}
use tp.Prelude.Text.{Text, codes, text_eq}
use tp.Prelude.Maps.{lookup}
use tp.Interfaces.{NetFilter, serves, is_own_addr}
use tp.Accept.{
  new_loop, Event, fails, accepts, ends, emfile, other_error, paused, served, closed, returned,
  freed, serve_data, serve_round,
}
use tp.Accept.Limits.{IsBounded, IsShort, running, serve_data-IsBounded}

abbrev filter : NetFilter
filter = record { ifaces = []; addrs = (codes "10.0.0.1", true) ∷ [] }

abbrev none_loopback : Text → Bool
none_loopback host = false

abbrev events : List Event
events =
    fails emfile true true
    ∷ fails emfile true true
    ∷ accepts (some (codes "10.0.0.1")) true
    ∷ accepts (some (codes "10.9.0.1")) true
    ∷ ends
    ∷ fails other_error true true
    ∷ []

dids :
    (serve_data filter none_loopback new_loop events).1
    ≡ paused 5_000_000 ∷ paused 10_000_000 ∷ served ∷ closed ∷ freed ∷ returned ∷ []
unfolding serve_data serve_round serves is_own_addr lookup text_eq
dids = refl

serve_data-IsBounded_example :
    IsBounded (serve_data filter none_loopback new_loop events).0
    × All IsShort (serve_data filter none_loopback new_loop events).1
    × ((serve_data filter none_loopback new_loop events).0.conns
        ≡ running 0 (serve_data filter none_loopback new_loop events).1)
serve_data-IsBounded_example =
    serve_data-IsBounded filter none_loopback new_loop events
      (omega arith, omega arith, omega arith)
