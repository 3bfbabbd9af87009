-- ===== src/Background/Startup.antt =====
-- The startup of daemon.go: `listenData`, `listenControl` and `runDaemon`.
use tp.Prelude.{ℕ, List, [], ◌∷◌, Bool, not, ◌||◌, Option, none, some, ◌==◌, if◌then◌else◌}
use tp.Store
use tp.Limiter.{new_limiter}
use tp.Identity.{host_id}
use tp.Interfaces.{Iface, refresh}
use tp.Control.{touch}
use tp.Background.{Host, nil_responder, responding}

-- `listenData`: the first of the two addresses that can be bound.
unfoldable pub listen_data {ℓ} : {L : Type ℓ} → List (Option L) → Option L
listen_data [] = none
listen_data (none ∷ ls) = listen_data ls
listen_data (some l ∷ ls) = some l

-- The results of the calls of `listenControl`: the mode of the directory, whether a daemon answers on the
-- socket, whether the old socket is gone after os.Remove, and whether Listen and Chmod succeed.
pub record ControlPath : Type 0 where
  pub mode : Option ℕ
  pub answers : Bool
  pub removed : Bool
  pub listens : Bool
  pub restricted : Bool

pub data ControlSocket : Type 0 where
  unusable : ControlSocket
  wrong_permissions : ℕ → ControlSocket
  already_running : ControlSocket
  listening : ControlSocket

abbrev with_mode : ControlPath → Option ℕ → ControlSocket
with_mode p none = unusable
with_mode p (some mode) =
    if not (mode == 448)
    then wrong_permissions mode
    else if p.answers
    then already_running
    else if not p.removed || not p.listens || not p.restricted
    then unusable
    else listening

-- 0o700 is 448.
unfoldable pub listen_control : ControlPath → ControlSocket
listen_control p = with_mode p p.mode

-- What `runDaemon` finds: the public key of loadIdentity, the listeners with their TCP ports, the control
-- socket, the decoy that newStore draws, the interfaces that
-- newNetFilter reads, whether startMDNS succeeds, and the time.
pub record Startup : Type 0 where
  pub identity : Option (List ℕ)
  pub listeners : List (Option (Option ℕ))
  pub path : ControlPath
  pub decoy : List ℕ
  pub ifaces : Option (List Iface)
  pub joined : Bool
  pub now : ℕ

-- startMDNS returns a nil *responder with its error, and runDaemon stores it in the interface.
abbrev pub new_host : (List ℕ → List ℕ) → Startup → List ℕ → ℕ → Host
new_host sha256 s key port = record {
  control = touch (record { store = tp.Store.new_store s.decoy; last_used = 0 }) s.now;
  limiter = new_limiter;
  peers = [];
  counters = record { packets = 0; any_packets = 0 };
  filter = (refresh (record { ifaces = []; addrs = [] }) s.ifaces).0;
  host_id = host_id sha256 key;
  port = port;
  started = s.now;
  mdns = if s.joined then responding else nil_responder;
}

abbrev pub with_port :
    (List ℕ → List ℕ) → Startup → List ℕ → Option (Option ℕ) → ControlSocket → Option Host
with_port sha256 s key none c = none
with_port sha256 s key (some port) unusable = none
with_port sha256 s key (some port) (wrong_permissions mode) = none
with_port sha256 s key (some port) already_running = none
with_port sha256 s key (some none) listening = none
with_port sha256 s key (some (some port)) listening = some (new_host sha256 s key port)

abbrev pub with_identity : (List ℕ → List ℕ) → Startup → Option (List ℕ) → Option Host
with_identity sha256 s none = none
with_identity sha256 s (some key) =
    with_port sha256 s key (listen_data s.listeners) (listen_control s.path)

-- The daemon that `runDaemon` starts, or none where it returns an error.
unfoldable pub run_daemon : (List ℕ → List ℕ) → Startup → Option Host
unfolding listen_data listen_control
run_daemon sha256 s = with_identity sha256 s s.identity
