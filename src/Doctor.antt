-- ===== src/Doctor.antt =====
-- doctor.go: what `tp doctor` prints and sends. A line is a constructor.
use tp.Prelude.{
  ℕ, ◌+◌, List, [], ◌∷◌, ◌++◌, map, Bool, true, false, not, ◌&&◌, Option, none, some, ltb,
  if◌then◌else◌, length,
}
use tp.Prelude.Text.{Text, codes, text_eq}
use tp.Prelude.Maps.{insert, lookup}
use tp.Discovery.{Peer}
use tp.Discovery.Responder.{Counters}
use tp.Background.{PeersAnswer}
use tp.Platform.{Advice}
pub mod Reporting
mod Runs

pub data Line : Type 0 where
  build_info : Line
  not_answering : Line
  uptime : ℕ → Line
  interfaces : List Text → Line
  mdns_in : ℕ → ℕ → Line
  peer_count : ℕ → Line
  peer : Peer → Line
  wsl_mode : Bool → Line
  working : Line
  start_the_other : Line
  nothing_heard : Line
  no_multicast : Line
  advice : Advice → Line

-- What the last lines say.
unfoldable pub verdict : Counters → ℕ → Advice → List Line
verdict n others a =
    if ltb 0 n.any_packets && ltb 0 others
    then working ∷ []
    else if ltb 0 n.any_packets
    then if ltb 0 n.packets then start_the_other ∷ [] else start_the_other ∷ nothing_heard ∷ []
    else no_multicast ∷ advice a ∷ []

abbrev pub wsl_lines : Option Bool → List Line
wsl_lines none = []
wsl_lines (some nat) = wsl_mode nat ∷ []

-- `h.Peers[1:]`, which panics on no peers: none.
abbrev pub others_of : List Peer → Option (List Peer)
others_of [] = none
others_of (p ∷ ps) = some ps

abbrev pub reported : PeersAnswer → Option Bool → Advice → Option (List Peer) → Option (List Line)
reported h wsl a none = none
reported h wsl a (some others) = some (
    build_info
    ∷ uptime h.uptime
    ∷ interfaces h.interfaces
    ∷ mdns_in h.counts.any_packets h.counts.packets
    ∷ peer_count (length others)
    ∷ (map peer others ++ (wsl_lines wsl ++ verdict h.counts (length others) a)))

-- `wsl` is the networking mode on WSL, true for NAT, and none elsewhere. The result is none where the code
-- panics.
unfoldable pub report : Option PeersAnswer → Option Bool → Advice → Option (List Line)
unfolding verdict
report none wsl a = some (build_info ∷ not_answering ∷ [])
report (some h) wsl a = reported h wsl a (others_of h.peers)

-- `doctorFix`: on macOS it signs tp, elsewhere it prints the advice unless it is to be quiet.
pub data Fix : Type 0 where
  signs : Fix
  prints : Advice → Fix
  keeps_quiet : Fix

unfoldable pub doctor_fix : Text → Bool → Advice → Fix
doctor_fix goos quiet a =
    if not (text_eq goos (codes "darwin")) then (if quiet then keeps_quiet else prints a) else signs

-- `signSelf`: whether codesign is installed, and whether it succeeds.
pub data Signed : Type 0 where
  signed not_installed codesign_failed : Signed

unfoldable pub sign_self : Bool → Bool → Signed
sign_self installed works =
    if installed then (if works then signed else codesign_failed) else not_installed

-- `fixDarwin`: the error of os.Executable or of signSelf, or the restart with whether the probe was sent.
pub data Darwin : Type 0 where
  no_executable : Darwin
  unsigned : Signed → Darwin
  restarted : Bool → Darwin

abbrev after_sign : Bool → Signed → Darwin
after_sign probed signed = restarted probed
after_sign probed not_installed = unsigned not_installed
after_sign probed codesign_failed = unsigned codesign_failed

unfoldable pub fix_darwin : Bool → Bool → Bool → Bool → Darwin
unfolding sign_self
fix_darwin has_self installed works probed =
    if has_self then after_sign probed (sign_self installed works) else no_executable

-- One turn of the loop of `watchMulticast`: whether the deadline is ahead, and what ReadFromUDP returned,
-- the number of bytes and the source, or an error.
pub record Read : Type 0 where
  pub before_deadline : Bool
  pub datagram : Option (ℕ × Text)

pub record Watched : Type 0 where
  pub total : ℕ
  pub sources : List (Text × ℕ)

abbrev count_of : Option ℕ → ℕ
count_of none = 0
count_of (some n) = n

abbrev counted : Watched → ℕ × Text → Watched
counted w (n, src) =
    if ltb 0 n
    then record {
      total = w.total + 1;
      sources = insert src (count_of (lookup src w.sources) + 1) w.sources;
    }
    else w

abbrev watched_next : Watched → Option (ℕ × Text) → (Watched → Watched) → Watched
watched_next w none rest = w
watched_next w (some d) rest = rest (counted w d)

unfoldable pub watch_loop : Watched → List Read → Watched
watch_loop w [] = w
watch_loop w (r ∷ reads) =
    let next : Watched = watched_next w r.datagram (λ x. watch_loop x reads) in
    if r.before_deadline then next else w

pub data Doctor : Type 0 where
  fixes : Fix → Doctor
  watches : Doctor
  reports : Option (List Line) → Doctor

-- `cmdDoctor` on its flags.
unfoldable pub cmd_doctor :
    Text → Bool → Bool → Bool → Option PeersAnswer → Option Bool → Advice → Doctor
unfolding doctor_fix report
cmd_doctor goos fix listens quiet h wsl a =
    if fix
    then fixes (doctor_fix goos quiet a)
    else if listens
    then watches
    else reports (report h wsl a)
