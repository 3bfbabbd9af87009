-- ===== src/Commands/Startup.antt =====
-- `ensureDaemon` and `waitForSock` of commands.go, and the dispatch of main.go.
use tp.Prelude.{ℕ, List, [], ◌∷◌, Bool, Option, none, some, if◌then◌else◌}
use tp.Prelude.Text.{Text, codes, text_eq}
use tp.Commands.{Decoded, decode_control_response}

-- One turn of the loop of `waitForSock`: whether the socket answers, and, where it does not, whether the
-- context ends before the next turn.
pub record Turn : Type 0 where
  pub answers : Bool
  pub timed_out : Bool

pub data Wait : Type 0 where
  came_up : Wait
  did_not_come_up : Wait
  -- The turns given are used up.
  waiting : Wait

unfoldable pub wait_for_sock : List Turn → Wait
wait_for_sock [] = waiting
wait_for_sock (t ∷ turns) =
    let rest = wait_for_sock turns in
    if t.answers then came_up else if t.timed_out then did_not_come_up else rest

-- `already` is whether the socket answers at once, `started` whether os.Executable and cmd.Start succeed.
-- The result is whether a daemon was started, and the wait, if there was one.
pub data Ensured : Type 0 where
  running : Ensured
  start_failed : Ensured
  waited : Wait → Ensured

unfoldable pub ensure_daemon : Bool → Bool → List Turn → Ensured
unfolding wait_for_sock
ensure_daemon already started turns =
    if already then running else if started then waited (wait_for_sock turns) else start_failed

-- What `control` ends with, before the answer is decoded into a value.
pub data Controlled : Type 0 where
  no_sock_path : Controlled
  daemon_missing : Ensured → Controlled
  -- The request could not be built or sent.
  request_failed : Controlled
  responded : Decoded → Controlled

abbrev sent : (List ℕ → Text) → Bool → Option (ℕ × List ℕ) → Controlled
sent message wanted none = request_failed
sent message wanted (some (status, body)) =
    responded (decode_control_response message status body wanted)

abbrev reached : (List ℕ → Text) → Bool → Option (ℕ × List ℕ) → Ensured → Controlled
reached message wanted response running = sent message wanted response
reached message wanted response start_failed = daemon_missing start_failed
reached message wanted response (waited came_up) = sent message wanted response
reached message wanted response (waited did_not_come_up) = daemon_missing (waited did_not_come_up)
reached message wanted response (waited waiting) = daemon_missing (waited waiting)

-- `control`: whether sockPath succeeds, what ensureDaemon meets, and the status and the body of the answer.
unfoldable pub control :
    (List ℕ → Text) → Bool → Bool → Bool → List Turn → Bool → Option (ℕ × List ℕ) → Controlled
unfolding ensure_daemon
control message has_path already started turns wanted response =
    if has_path
    then reached message wanted response (ensure_daemon already started turns)
    else no_sock_path

-- The entries of `commands`, by their `run`.
pub data Command : Type 0 where
  post get list del doctor uninstall completion version daemon : Command

abbrev commands : List (Text × Command)
commands =
    (codes "post", post)
    ∷ (codes "get", get)
    ∷ (codes "list", list)
    ∷ (codes "del", del)
    ∷ (codes "doctor", doctor)
    ∷ (codes "uninstall", uninstall)
    ∷ (codes "completion", completion)
    ∷ (codes "version", version)
    ∷ (codes "daemon", daemon)
    ∷ []

-- `lookup`: the first entry with the name.
unfoldable pub lookup : List (Text × Command) → Text → Option Command
lookup [] name = none
lookup ((n, c) ∷ rest) name = if text_eq n name then some c else lookup rest name

pub data Dispatch : Type 0 where
  no_command_given : Dispatch
  unknown_command : Text → Dispatch
  -- The command and its arguments.
  runs : Command → List Text → Dispatch

abbrev dispatched : Text → List Text → Option Command → Dispatch
dispatched name args none = unknown_command name
dispatched name args (some c) = runs c args

-- `run` of main.go.
unfoldable pub run : List Text → Dispatch
unfolding lookup
run [] = no_command_given
run (name ∷ args) = dispatched name args (lookup commands name)
