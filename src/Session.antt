-- ===== src/Session.antt =====
-- The daemon's end of an exchange: `handshake` with its helpers in daemon.go. TLS, the socket and the clock are inputs: what openExchange found, the bytes that arrive, whether a
-- write succeeds, and the times that the steps read.
use tp.Prelude.{
  ℕ, zero, suc, ◌+◌, ◌/◌, ◌*◌, List, [], ◌∷◌, ◌++◌, Bool, true, false, not, ◌&&◌, Option, none,
  some, ltb, ◌==◌, if◌then◌else◌, length, get_elem?,
}
use tp.Prelude.Text.{Text, text_eq, codes}
use tp.Errors.{Error, protocol_error, io_error, Result, ok, err, require}
use tp.Store.{Store, candidates, take, second}
use tp.Limiter.{Limiter, allow_peer, allow_exchange, fail}
use tp.Wire.{read_frame, write_frame, wire_version, hello_len, mac_len, max_offer_len, max_frame}
use tp.Pake.Crypto.{Crypto}
use tp.Pake.Side.{PakeSide, channel_id, new_pake_side, client_tag, seal_payload, open_payload}
use tp.Offer.{build_offer, match_offer, match_confirmation}
pub mod Delivery
pub mod Refusals
mod Runs

abbrev pub alpn_proto : Text
alpn_proto = codes "tp/1"

-- The state that a handshake works on: the daemon's, what is still to be read from the connection
-- and what has been written to it.
pub record Host : Type 0 where
  pub store : Store
  pub limiter : Limiter
  pub last_used : ℕ
  pub incoming : List ℕ
  pub outgoing : List ℕ

-- A step that returns at once on an error; what it changed stays changed.
abbrev pub Session {ℓ} : Type ℓ → Type ℓ
Session A = Host → Result A × Host

abbrev pub continue {ℓ κ} :
    {A : Type ℓ} {B : Type κ} → (A → Host → Result B × Host) → Result A × Host → Result B × Host
continue f (ok a, h) = f a h
continue f (err e, h) = (err e, h)

infixl 5 ◌>>=◌
abbrev pub ◌>>=◌ {ℓ κ} : {V : Type ℓ} {W : Type κ} → Session V → (V → Session W) → Session W
◌>>=◌ first next h = continue next (first h)

infixl 5 ◌>>◌
abbrev pub ◌>>◌ {ℓ} : {W : Type ℓ} → Session (Unit {0}) → Session W → Session W
first >> rest = first >>= λ done. rest

abbrev pub lift {ℓ} : {A : Type ℓ} → Result A → Session A
lift r h = (r, h)

abbrev pub passes : Bool → Result (Unit {0})
passes b = require b protocol_error

-- What the environment of one handshake supplies.
pub record Link : Type 0 where
  -- `net.SplitHostPort` of the remote address.
  pub remote : Option Text
  -- SetDeadline and HandshakeContext succeed.
  pub tls_ok : Bool
  pub negotiated : Text
  -- ExportKeyingMaterial.
  pub exported : Option (List ℕ)
  pub write_ok : Bool
  -- The clock, as the steps read it.
  pub peer_time : ℕ
  pub exchange_time : ℕ
  pub offer_time : ℕ
  pub fail_time : ℕ
  pub take_time : ℕ
  pub touch_time : ℕ
  -- The draws of the shuffle.
  pub pick : ℕ → ℕ

abbrev pub some_or {ℓ} : {A : Type ℓ} → Error → Option A → Result A
some_or e none = err e
some_or e (some a) = ok a

abbrev pub read_result : Host → Result (List ℕ × List ℕ) → Result (List ℕ) × Host
read_result h (ok (b, rest)) = (ok b, record h { incoming = rest })
read_result h (err e) = (err e, h)

unfoldable pub receive : ℕ → Session (List ℕ)
receive limit h = read_result h (read_frame limit h.incoming)

abbrev pub written : Bool → Host → Result (List ℕ) → Result (Unit {0}) × Host
written works h (ok bytes) =
    if works then (ok tt, record h { outgoing = h.outgoing ++ bytes }) else (err io_error, h)
written works h (err e) = (err e, h)

unfoldable pub transmit : Bool → List ℕ → Session (Unit {0})
transmit works b h = written works h (write_frame b)

-- `openExchange`: TLS, the negotiated protocol and the channel binding.
unfoldable pub open_exchange : Link → Result (List ℕ)
open_exchange l =
    if not l.tls_ok
    then err io_error
    else if not (text_eq l.negotiated alpn_proto)
    then err protocol_error
    else some_or io_error l.exported

abbrev pub share_of : List ℕ → Result (List ℕ)
share_of [] = err protocol_error
share_of (version ∷ share) =
    if not (suc (length share) == hello_len)
    then err protocol_error
    else if not (version == wire_version)
    then err protocol_error
    else ok share

-- `readHello`
unfoldable pub read_hello : Session (List ℕ)
unfolding receive
read_hello = receive hello_len >>= λ hello. lift (share_of hello)

unfoldable pub admit_peer : Text → ℕ → Session (Unit {0})
admit_peer host now h =
    let (l, allowed) = allow_peer h.limiter host now in (passes allowed, record h { limiter = l })

unfoldable pub admit_exchange : ℕ → Session (Unit {0})
admit_exchange now h =
    let (l, allowed) = allow_exchange h.limiter now in (passes allowed, record h { limiter = l })

unfoldable pub take_body : List ℕ → ℕ → Session (List ℕ)
take_body prs now h =
    let (s, body) = take h.store prs now in (some_or protocol_error body, record h { store = s })

-- `touch` stores Unix seconds.
unfoldable pub touch : ℕ → Session (Unit {0})
touch now h = (ok tt, record h { last_used = now / second })

module _ (c : Crypto) where
  -- The sides and secrets of the candidate with the index that `matchConfirmation` returned.
  abbrev side_at : List (PakeSide c) → List (List ℕ) → ℕ → Option (PakeSide c × List ℕ)
  side_at [] cands i = none
  side_at (p ∷ sides) [] i = none
  side_at (p ∷ sides) (prs ∷ cands) zero = some (p, prs)
  side_at (p ∷ sides) (prs ∷ cands) (suc i) = side_at sides cands i

  abbrev pub found_side :
      List (PakeSide c) → List (List ℕ) → Option ℕ → Option (PakeSide c × List ℕ)
  found_side sides cands none = none
  found_side sides cands (some i) = side_at sides cands i

  abbrev pub matched_or_fail :
      Text → ℕ → Option (PakeSide c × List ℕ) → Session (PakeSide c × List ℕ)
  matched_or_fail host now none h =
      (err protocol_error, record h { limiter = fail h.limiter host now })
  matched_or_fail host now (some r) h = (ok r, h)

  -- A wrong confirmation is charged to the address.
  unfoldable pub confirm_match :
      Text → ℕ → List (PakeSide c) → List (List ℕ) → List ℕ → Session (PakeSide c × List ℕ)
  confirm_match host now sides cands tag =
      matched_or_fail host now (found_side sides cands (match_confirmation c sides tag))

  -- From the offer on.
  unfoldable pub serve_offer :
      Text → Link → Text → (ℕ → c.Scalar) → List ℕ → List ℕ → List (List ℕ) → Session (Unit {0})
  unfolding receive transmit confirm_match take_body touch
  serve_offer host_id l host draw sid peer_share cands = do
    (sides, offer) ← lift (build_offer c cands (channel_id host_id) sid peer_share draw)
    transmit l.write_ok offer
    tag ← receive mac_len
    (side, prs) ← confirm_match host l.fail_time sides cands tag
    body ← take_body prs l.take_time
    touch l.touch_time
    transmit l.write_ok (seal_payload c side body)

  unfoldable pub current_candidates : ℕ → (ℕ → ℕ) → Session (List (List ℕ))
  current_candidates now pick h = (ok (candidates h.store now pick), h)

  -- `handshake`, on the host ID of the daemon; `draw i` is the random scalar of the candidate `i`.
  unfoldable pub handshake : Text → Link → (ℕ → c.Scalar) → Session (Unit {0})
  unfolding serve_offer admit_peer admit_exchange open_exchange read_hello current_candidates
  handshake host_id l draw = do
    host ← lift (some_or io_error l.remote)
    admit_peer host l.peer_time
    sid ← lift (open_exchange l)
    peer_share ← read_hello
    admit_exchange l.exchange_time
    cands ← current_candidates l.offer_time l.pick
    serve_offer host_id l host draw sid peer_share cands
