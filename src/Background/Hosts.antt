-- ===== src/Background/Hosts.antt =====
-- `tp get` on the answer of GET /peers (commands.go, daemon.go).
use tp.Prelude.{ℕ, ◌≡◌, refl, ◌∙◌, List, [], ◌∷◌, Option, some, ap, map}
use tp.Prelude.Text.{Text}
use tp.Prelude.Maps.{lookup}
use tp.Code.{Unicode}
use tp.Pins.{Pin}
use tp.Platform.{Advice}
use tp.Discovery.{Peer}
use tp.Discovery
use tp.Fetch.{Candidate}
use tp.Commands.{
  Addresses, Result, failed, done, secret_of, candidates_of, targets, some_hosts, ◌>>=◌, cmd_get,
}
use tp.Background.{Host, handle_peers, this_machine}

-- The candidate that a peer becomes.
abbrev pub candidate : List (Text × Pin) → Peer → Candidate
candidate pins p = record {
  host_id = p.host_id;
  hostname = p.hostname;
  addr = p.addr;
  pin = lookup p.host_id pins;
}

candidates_of-map :
    (pins : List (Text × Pin)) (ps : List Peer) → candidates_of pins ps ≡ map (candidate pins) ps
unfolding candidates_of
candidates_of-map pins [] = refl
candidates_of-map pins (p ∷ ps) = ap (λ cs. candidate pins p ∷ cs) (candidates_of-map pins ps)

abbrev pub with_hosts : Result (List ℕ) → List Candidate → Result (List ℕ × List Candidate)
with_hosts (failed why) cands = failed why
with_hosts (done prs) cands = done (prs, cands)

got_hosts :
    (r : Result (List ℕ)) (c : Candidate) (cs : List Candidate)
    → (r >>= λ prs. done (c ∷ cs) >>= λ cands. some_hosts prs cands) ≡ with_hosts r (c ∷ cs)
got_hosts (failed why) c cs = refl
got_hosts (done prs) c cs = refl

-- Without --host, `tp get` on the daemon's answer fails only for its code: otherwise it fetches with the
-- code's secret from this machine first in the list and then from every peer that the daemon knows, each
-- with the pin of its host id, if there is one. The list is never empty.
pub cmd_get-handle_peers :
    (u : Unicode) (words : List Text) (derive : Text → Option (List ℕ)) (n : Addresses)
    (pins : List (Text × Pin)) (local_addr : ℕ → Text) (help : Advice) (h : Host) (now : ℕ)
    (typed : Text)
    → cmd_get u words derive n pins (some (handle_peers local_addr help h now).peers) [] typed
      ≡ with_hosts (secret_of u words derive typed) (
          candidate pins (this_machine local_addr h now)
          ∷ map (candidate pins) (tp.Discovery.list h.peers))
unfolding cmd_get targets handle_peers candidates_of
cmd_get-handle_peers u words derive n pins local_addr help h now typed =
    got_hosts (secret_of u words derive typed) (candidate pins (this_machine local_addr h now))
      (candidates_of pins (tp.Discovery.list h.peers))
    ∙ ap
        (λ cs.
          with_hosts (secret_of u words derive typed)
            (candidate pins (this_machine local_addr h now) ∷ cs))
        (candidates_of-map pins (tp.Discovery.list h.peers))
