-- ===== src/Commands.antt =====
-- The commands of commands.go, from the parsed flags to what they ask of the daemon and print. Package
-- flag, the terminal, HTTP and JSON are left out; strconv, the printing of a duration, package net and
-- derivePRS are parameters.
use tp.Prelude.{
  ℕ, zero, suc, ◌<◌, ltb, leb, List, [], ◌∷◌, ◌++◌, map, Bool, true, false, ◌||◌, Option, none,
  some, if◌then◌else◌, take,
}
use tp.Prelude.Int.{ℤ, pos, negsuc}
use tp.Prelude.Text.{Text, codes, text_eq}
use tp.Prelude.Maps.{lookup}
use tp.Code.{Unicode, CodeError, Outcome, err, ok, canonical}
use tp.Hex.{hex_encode}
use tp.Pins.{Pin}
use tp.Store.{Paste}
use tp.Discovery.{Peer}
use tp.Fetch.{Candidate}
use tp.Control.{Query}
pub mod Spelling
pub mod Flags
pub mod Startup
mod Runs

-- time.Duration.String and strconv.Itoa.
pub record Printers : Type 0 where
  pub duration_string : ℤ → Text
  pub itoa : ℤ → Text

-- The flags of `tp post`.
pub record PostFlags : Type 0 where
  pub label : Text
  pub ttl : ℤ
  pub max_gets : ℤ
  pub burn : Bool
  pub style : Text

-- A value is set in the query unless it is 0; what is not set is read as the empty text.
abbrev unless_zero : (ℤ → Text) → ℤ → Text
unless_zero shown (pos zero) = []
unless_zero shown (pos (suc n)) = shown (pos (suc n))
unless_zero shown (negsuc n) = shown (negsuc n)

abbrev pub query_of : Printers → PostFlags → Query
query_of pr f = record {
  label = f.label;
  ttl = unless_zero pr.duration_string f.ttl;
  max_gets = unless_zero pr.itoa (if f.burn then pos 1 else f.max_gets);
  code_style = f.style;
}

-- The query of `cmdPost`; none is its error on the style.
unfoldable pub post_query : Printers → PostFlags → Option Query
post_query pr f =
    if text_eq f.style (codes "words") || text_eq f.style (codes "digits")
    then some (query_of pr f)
    else none

pub data CommandError : Type 0 where
  bad_code : CodeError → CommandError
  -- derivePRS failed.
  no_secret : CommandError
  -- `give a code or --all`
  no_code : CommandError
  -- The daemon gave no peers.
  undiscovered : CommandError
  -- `no tp hosts found on this network`
  no_hosts : CommandError

pub data Result {ℓ} (R : Type ℓ) : Type ℓ where
  failed : CommandError → Result R
  done : R → Result R

infixl 5 ◌>>=◌
abbrev pub ◌>>=◌ {ℓ κ} : {R : Type ℓ} {S : Type κ} → Result R → (R → Result S) → Result S
failed why >>= use_it = failed why
done r >>= use_it = use_it r

abbrev code_or : Outcome Text → Result Text
code_or (err why) = failed (bad_code why)
code_or (ok code) = done code

abbrev secret_or : Option (List ℕ) → Result (List ℕ)
secret_or none = failed no_secret
secret_or (some prs) = done prs

-- `canonical`, then `derivePRS`.
unfoldable pub secret_of : Unicode → List Text → (Text → Option (List ℕ)) → Text → Result (List ℕ)
secret_of u words derive arg = code_or (canonical u words arg) >>= λ code. secret_or (derive code)

abbrev pub data_port : ℕ
data_port = 7391

-- net.SplitHostPort without an error, net.JoinHostPort and strconv.Itoa.
pub record Addresses : Type 0 where
  pub has_port : Text → Bool
  pub join_host_port : Text → ℕ → Text

unfoldable pub with_default_port : Addresses → Text → Text
with_default_port n host = if n.has_port host then host else n.join_host_port host data_port

-- The loop of `discover`: a peer is pinned by its host id.
unfoldable pub candidates_of : List (Text × Pin) → List Peer → List Candidate
candidates_of pins [] = []
candidates_of pins (p ∷ ps) =
    record {
      host_id = p.host_id;
      hostname = p.hostname;
      addr = p.addr;
      pin = lookup p.host_id pins;
    }
    ∷ candidates_of pins ps

abbrev discovered : List (Text × Pin) → Option (List Peer) → Result (List Candidate)
discovered pins none = failed undiscovered
discovered pins (some peers) = done (candidates_of pins peers)

-- The candidates of `cmdGet`. `peers` is the daemon's answer.
unfoldable pub targets :
    Addresses → List (Text × Pin) → Option (List Peer) → Text → Result (List Candidate)
unfolding with_default_port
targets n pins peers [] = discovered pins peers
targets n pins peers (c ∷ host) =
    done (
      record { host_id = []; hostname = []; addr = with_default_port n (c ∷ host); pin = none }
      ∷ [])

abbrev pub some_hosts : List ℕ → List Candidate → Result (List ℕ × List Candidate)
some_hosts prs [] = failed no_hosts
some_hosts prs (c ∷ cs) = done (prs, c ∷ cs)

-- `cmdGet` up to its call of `fetch`: the secret and the candidates that it fetches with.
unfoldable pub cmd_get :
    Unicode
    → List Text
    → (Text → Option (List ℕ))
    → Addresses
    → List (Text × Pin)
    → Option (List Peer)
    → Text
    → Text
    → Result (List ℕ × List Candidate)
unfolding secret_of targets
cmd_get u words derive n pins peers host arg = secret_of u words derive arg >>= λ prs.
    targets n pins peers host >>= λ cands. some_hosts prs cands

-- The request of `cmdDel`: DELETE /pastes, or /pastes/ and the hex form of the secret.
pub data DelRequest : Type 0 where
  del_all : DelRequest
  del_one : Text → DelRequest

abbrev del_code : Unicode → List Text → (Text → Option (List ℕ)) → Text → Result DelRequest
del_code u words derive [] = failed no_code
del_code u words derive (c ∷ arg) =
    secret_of u words derive (c ∷ arg) >>= λ prs. done (del_one (hex_encode prs))

unfoldable pub cmd_del :
    Unicode → List Text → (Text → Option (List ℕ)) → Bool → Text → Result DelRequest
unfolding secret_of
cmd_del u words derive true arg = done del_all
cmd_del u words derive false arg = del_code u words derive arg

-- How `cmdList` shows the fetches of a paste.
unfoldable pub gets_state : (ℕ → Text) → Paste → Text
gets_state itoa p =
    let shown : Text =
      if ltb 0 p.max_gets
      then itoa p.gets ++ codes "/" ++ itoa p.max_gets ++ codes " gets"
      else itoa p.gets ++ codes " gets" in
    if p.burned then shown ++ codes ", burned" else shown

-- What `decodeControlResponse` does with an answer; `message` is strings.TrimSpace of the bytes.
pub data Decoded : Type 0 where
  refused : Text → Decoded
  ignored : Decoded
  decoding : List ℕ → Decoded

unfoldable pub decode_control_response : (List ℕ → Text) → ℕ → List ℕ → Bool → Decoded
decode_control_response message status body wanted =
    if leb 400 status
    then refused (message (take 4096 body))
    else if wanted
    then decoding body
    else ignored
