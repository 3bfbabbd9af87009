-- ===== src/Fetch/Asking.antt =====
-- One attempt of `fetch`: `fetchFrom`, `clientTLSConfig` and `checkPin` of fetch.go. TLS and the socket are
-- inputs; the hash of a key is a parameter (base64 of SHA-256).
use tp.Prelude.{ℕ, List, Bool, not, Option, none, some, if◌then◌else◌}
use tp.Prelude.Text.{Text, text_eq}
use tp.Errors.{Result, ok, err}
use tp.Pake.Crypto.{Crypto}
use tp.Client.{exchange}
use tp.Code.{Unicode}
use tp.Session.{alpn_proto}
use tp.Pins.{Pin, save_pin}
use tp.Identity.{host_id}
use tp.Fetch.{Candidate, PinMismatch, Outcome, fetched, mismatch, failed}

-- The hashes of a key that identify a host and that a pin records.
pub record Hashes : Type 0 where
  pub sha256 : List ℕ → List ℕ
  pub spki_hash : List ℕ → Text

-- The errors of `checkPin`: errNoMatch and pinMismatchError.
pub data PinError : Type 0 where
  other_host : PinError
  other_key : PinMismatch → PinError

abbrev pub pinned_to : Hashes → Candidate → Pin → List ℕ → Option PinError
pinned_to hs c p spki =
    if not (text_eq (host_id hs.sha256 spki) c.host_id)
    then some other_host
    else if not (text_eq (hs.spki_hash spki) p.spki)
    then some (other_key (record { host_id = c.host_id; got = hs.spki_hash spki; want = p.spki }))
    else none

abbrev pub checked : Hashes → Candidate → Option Pin → List ℕ → Option PinError
checked hs c none spki = none
checked hs c (some p) spki = pinned_to hs c p spki

-- `checkPin`: none is no error.
unfoldable pub check_pin : Hashes → Candidate → List ℕ → Option PinError
check_pin hs c spki = checked hs c c.pin spki

abbrev pub outcome_of : PinError → Outcome
outcome_of other_host = failed
outcome_of (other_key m) = mismatch m

-- What the connection to a candidate does.
pub record Dial : Type 0 where
  pub dialed : Bool
  -- The key of the first certificate that the peer presents.
  pub spki : Option (List ℕ)
  -- The handshake but for VerifyConnection.
  pub tls_ok : Bool
  pub deadline_ok : Bool
  pub negotiated : Text
  pub exported : Option (List ℕ)
  pub works : Bool
  pub incoming : List ℕ
  -- `isLoopback` of the address.
  pub loopback : Bool
  -- The cache of pins may be written.
  pub writable : Bool

-- The cache after a fetch: `savePin` where it succeeds; its failure is only reported.
abbrev pub kept : Option Text → Option (Option Text) → Option Text
kept file none = file
kept file (some file') = file'

abbrev pub after_fetch : Unicode → Hashes → Candidate → Dial → List ℕ → Option Text → Option Text
after_fetch u hs c d spki file =
    if d.loopback
    then file
    else kept file (
        save_pin u d.writable (host_id hs.sha256 spki)
          (record { spki = hs.spki_hash spki; hostname = c.hostname }) file)

module _ (crypto : Crypto) where
  abbrev pub exchanged :
      Unicode
      → Hashes
      → Candidate
      → Dial
      → List ℕ
      → Option Text
      → Result (List ℕ × List ℕ)
      → Outcome × Option Text
  exchanged u hs c d spki file (err e) = (failed, file)
  exchanged u hs c d spki file (ok (b, sent)) = (fetched b, after_fetch u hs c d spki file)

  abbrev pub verified :
      Unicode
      → Hashes
      → List ℕ
      → crypto.Scalar
      → Candidate
      → Dial
      → List ℕ
      → Option Text
      → Option PinError
      → Outcome × Option Text
  verified u hs prs y c d spki file (some e) = (outcome_of e, file)
  verified u hs prs y c d spki file none =
      if not d.tls_ok
      then (failed, file)
      else if not d.deadline_ok
      then (failed, file)
      else if not (text_eq d.negotiated alpn_proto)
      then (failed, file)
      else exchanged u hs c d spki file
          (exchange crypto prs (host_id hs.sha256 spki) d.exported d.works y d.incoming)

  abbrev pub presented :
      Unicode
      → Hashes
      → List ℕ
      → crypto.Scalar
      → Candidate
      → Dial
      → Option Text
      → Option (List ℕ)
      → Outcome × Option Text
  presented u hs prs y c d file none = (failed, file)
  presented u hs prs y c d file (some spki) =
      verified u hs prs y c d spki file (check_pin hs c spki)

  -- The outcome, and the cache of pins.
  unfoldable pub fetch_from :
      Unicode
      → Hashes
      → List ℕ
      → crypto.Scalar
      → Candidate
      → Dial
      → Option Text
      → Outcome × Option Text
  unfolding check_pin
  fetch_from u hs prs y c d file =
      if not d.dialed then (failed, file) else presented u hs prs y c d file d.spki
