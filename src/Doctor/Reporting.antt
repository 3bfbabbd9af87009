-- ===== src/Doctor/Reporting.antt =====
-- `report` of doctor.go on the answer of GET /peers (daemon.go).
use tp.Prelude.{
  ℕ, ◌≡◌, refl, List, [], ◌∷◌, ◌++◌, map, Bool, true, false, ◌&&◌, ◌||◌, ◌==◌, ltb, Option, none,
  some, length, arith, ap, ◌∙◌,
}
use tp.Prelude.Text.{Text}
use mathlib.Core.List.{append-nil}
use tp.Background.{Host, handle_peers}
use tp.Discovery
use tp.Discovery.{Peer}
use tp.Discovery.Responder.{Counters}
use tp.Platform.{Advice}
use tp.Doctor.{Line, peer, working, no_multicast, report, wsl_lines, verdict}

abbrev pub is_working : Line → Bool
is_working working = true
is_working _ = false

abbrev pub is_silent : Line → Bool
is_silent no_multicast = true
is_silent _ = false

-- Whether a line of the kind is printed.
abbrev pub says : (Line → Bool) → List Line → Bool
says kind [] = false
says kind (l ∷ ls) = kind l || says kind ls

-- The peers that are shown.
abbrev pub shown : List Line → List Peer
shown [] = []
shown (peer p ∷ ls) = p ∷ shown ls
shown (_ ∷ ls) = shown ls

verdict_lem :
    (n : Counters) (others : ℕ) (a : Advice)
    → (says is_working (verdict n others a) ≡ (ltb 0 n.any_packets && ltb 0 others))
      × (says is_silent (verdict n others a) ≡ (n.any_packets == 0))
      × (shown (verdict n others a) ≡ [])
unfolding verdict
verdict_lem n others a = ground arith

wsl_lem :
    (wsl : Option Bool) (ls : List Line)
    → (says is_working (wsl_lines wsl ++ ls) ≡ says is_working ls)
      × (says is_silent (wsl_lines wsl ++ ls) ≡ says is_silent ls)
      × (shown (wsl_lines wsl ++ ls) ≡ shown ls)
wsl_lem none ls = (refl, refl, refl)
wsl_lem (some nat) ls = (refl, refl, refl)

peers_lem :
    (ps : List Peer) (ls : List Line)
    → (says is_working (map peer ps ++ ls) ≡ says is_working ls)
      × (says is_silent (map peer ps ++ ls) ≡ says is_silent ls)
      × (shown (map peer ps ++ ls) ≡ ps ++ shown ls)
peers_lem [] ls = (refl, refl, refl)
peers_lem (p ∷ ps) ls = let (w, q, s) = peers_lem ps ls in (w, q, ap (λ t. p ∷ t) s)

-- `tp doctor` on the daemon's answer does not panic. It shows exactly the other machines that the daemon
-- knows, without the entry of this machine; it says that discovery works just when the daemon has heard a
-- packet and knows another machine, and that no multicast is arriving just when it has heard none.
pub report-handle_peers :
    (local_addr : ℕ → Text) (help : Advice) (h : Host) (now : ℕ) (wsl : Option Bool)
    → (lines : List Line) × (report (some (handle_peers local_addr help h now)) wsl help
        ≡ some lines)
      × (shown lines ≡ tp.Discovery.list h.peers)
      × (says is_working lines
          ≡ (ltb 0 h.counters.any_packets && ltb 0 (length (tp.Discovery.list h.peers))))
      × (says is_silent lines ≡ (h.counters.any_packets == 0))
unfolding report handle_peers
report-handle_peers local_addr help h now wsl =
    let others : List Peer = tp.Discovery.list h.peers in
    let (vw, vs, vp) = verdict_lem h.counters (length others) help in
    let (ww, ws, wp) = wsl_lem wsl (verdict h.counters (length others) help) in
    let (pw, ps, pp) =
      peers_lem others (wsl_lines wsl ++ verdict h.counters (length others) help) in
    (_, refl, pp ∙ ap (λ t. others ++ t) (wp ∙ vp) ∙ append-nil others, pw ∙ ww ∙ vw, ps ∙ ws ∙ vs)
