-- ===== src/Session/Delivery.antt =====
-- A receiver that knows the code gets the paste: `handshake` (daemon.go) against `exchange` (fetch.go).
use tp.Prelude.{
  ℕ, suc, ◌+◌, ◌*◌, ◌/◌, ◌≤◌, ◌≡◌, refl, List, [], ◌∷◌, ◌++◌, true, Option, none, some, arith,
  length, ap, ◌∙◌, sym, ◌==◌, ==_iff,
}
use tp.Prelude.Text.{Text, text_eq_iff}
use tp.Errors.{protocol_error, io_error, Result, ok, ◌>>=◌}
use tp.Store.{Store, candidates, take, max_paste_size, max_candidates, second}
use tp.Limiter.{allow_peer, allow_exchange}
use tp.Wire.{
  read_frame, write_frame, wire_version, hello_len, mac_len, point_len, max_offer_len, max_frame,
  put_uint32,
}
use tp.Wire.Frames.{read_frame-write_frame, write_frame_iff}
use tp.Pake.Crypto.{Crypto}
use tp.Pake.Side.{
  PakeSide, channel_id, new_pake_side, client_tag, seal_payload, open_payload, confirm, server_tag,
  key_bytes, client_label,
}
use tp.Offer.{entry_key, build_sides, build_offer, match_offer, match_confirmation}
use tp.Client.{exchange}
use tp.Offer.{matched}
use tp.Offer.Layout.{build_offer_shape, build_sides-at, match_offer-build_offer}
use tp.Offer.Matching.{Silent, Unheard, entry_key_own, last_key_found, match_confirmation_found}
use tp.Pake.Agreement.{open_payload-seal_payload}
use tp.Session.{
  Host, Link, alpn_proto, continue, receive, transmit, read_result, open_exchange, read_hello,
  admit_peer, admit_exchange, take_body, confirm_match, serve_offer, handshake, found_side,
  current_candidates, matched_or_fail, some_or, passes,
}

-- A frame on the wire.
abbrev pub frame : List ℕ → List ℕ
frame b = put_uint32 (length b) ++ b

write_frame-frame : (b : List ℕ) → length b ≤ max_frame → write_frame b ≡ ok (frame b)
write_frame-frame b h = (write_frame_iff b (frame b)).1 (h, refl)

read_frame-frame :
    (b rest : List ℕ) (limit : ℕ)
    → length b ≤ limit
    → length b ≤ max_frame
    → read_frame limit (frame b ++ rest) ≡ ok (b, rest)
read_frame-frame b rest limit h k =
    read_frame-write_frame b (frame b) rest limit (write_frame-frame b k) ∙ ground arith

-- One step of a session that succeeds.
pub next {ℓ κ} :
    {A : Type ℓ} {B : Type κ} {r : Result A × Host} {a : A} {h : Host}
    (f : A → Host → Result B × Host)
    → r ≡ (ok a, h)
    → continue f r ≡ f a h
next f e = ap (continue f) e

pub receive-frame :
    (limit : ℕ) (h : Host) (b rest : List ℕ)
    → h.incoming ≡ frame b ++ rest
    → length b ≤ limit
    → length b ≤ max_frame
    → receive limit h ≡ (ok b, record h { incoming = rest })
unfolding receive
receive-frame limit h b rest e k m =
    ap (λ s. read_result h (read_frame limit s)) e
    ∙ ap (read_result h) (read_frame-frame b rest limit k m)

pub transmit-frame :
    (h : Host) (b : List ℕ)
    → length b ≤ max_frame
    → transmit true b h ≡ (ok tt, record h { outgoing = h.outgoing ++ frame b })
unfolding transmit
transmit-frame h b m = rw (write_frame-frame b m)

-- The same in a result.
bind {ℓ κ} :
    {A : Type ℓ} {B : Type κ} {r : Result A} {a : A} (f : A → Result B) → r ≡ ok a → (r >>= f) ≡ f a
bind f e = ap (λ x. x >>= f) e

module _ (c : Crypto) where
  serve :
      (host_id : Text) (l : Link) (host : Text) (draw : ℕ → c.Scalar) (sid peer : List ℕ)
      (cands : List (List ℕ)) (h : Host) (sides : List (PakeSide c)) (offer tag rest : List ℕ)
      (side : PakeSide c) (prs body : List ℕ) (s : Store)
      → build_offer c cands (channel_id host_id) sid peer draw ≡ ok (sides, offer)
      → length offer ≤ max_frame
      → l.write_ok ≡ true
      → h.incoming ≡ frame tag ++ rest
      → length tag ≡ mac_len
      → found_side c sides cands (match_confirmation c sides tag) ≡ some (side, prs)
      → take h.store prs l.take_time ≡ (s, some body)
      → length (seal_payload c side body) ≤ max_frame
      → serve_offer c host_id l host draw sid peer cands h ≡ (
        ok tt,
        record h {
          store = s;
          last_used = l.touch_time / second;
          incoming = rest;
          outgoing = (h.outgoing ++ frame offer) ++ frame (seal_payload c side body);
        },
      )
  unfolding serve_offer
  serve host_id l host draw sid peer cands h sides offer tag rest side prs body s eb eo ew ei et em
        es el =
      next _ (ap (λ r. (r, h)) eb)
      ∙ next _ (ap (λ b. transmit b offer h) ew ∙ transmit-frame h offer eo)
      ∙ next _ (receive-frame mac_len h₁ tag rest ei (omega (arith, et)) (omega (arith, et)))
      ∙ next _ (unfold confirm_match in ap (λ r. matched_or_fail c host l.fail_time r h₂) em)
      ∙ next _ (
          unfold take_body in
          ap
            (λ (r : Store × Option (List ℕ)).
              (some_or protocol_error r.1, record h₂ { store = r.0 }))
            es)
      ∙ ap (λ b. transmit b (seal_payload c side body) h₃) ew
      ∙ transmit-frame h₃ (seal_payload c side body) el
    where
      h₁ : Host
      h₁ = record h { outgoing = h.outgoing ++ frame offer }

      h₂ : Host
      h₂ = record h₁ { incoming = rest }

      h₃ : Host
      h₃ = record h₂ { store = s; last_used = l.touch_time / second }

  fetch :
      (prs : List ℕ) (host_id : Text) (sid : List ℕ) (y : c.Scalar)
      (offer sealed rest body : List ℕ) (side : PakeSide c)
      → match_offer c (new_pake_side c prs (channel_id host_id) sid y) sid offer ≡ ok side
      → open_payload c side sealed ≡ ok body
      → length offer ≤ max_offer_len
      → length sealed ≤ max_frame
      → length (wire_version ∷ (new_pake_side c prs (channel_id host_id) sid y).share) ≤ max_frame
      → length (client_tag c side) ≤ max_frame
      → exchange c prs host_id (some sid) true y (frame offer ++ (frame sealed ++ rest))
        ≡ ok (
          body,
          frame (wire_version ∷ (new_pake_side c prs (channel_id host_id) sid y).share)
              ++ frame (client_tag c side),
        )
  unfolding exchange
  fetch prs host_id sid y offer sealed rest body side em eo lo ls lh lt =
      bind _ (
        write_frame-frame (wire_version ∷ (new_pake_side c prs (channel_id host_id) sid y).share)
          lh)
      ∙ bind _ (read_frame-frame offer (frame sealed ++ rest) max_offer_len lo (omega arith))
      ∙ bind _ em
      ∙ bind _ (write_frame-frame (client_tag c side) lt)
      ∙ bind _ (read_frame-frame sealed rest max_frame ls ls)
      ∙ bind _ eo

  found_at :
      (pre post : List (PakeSide c)) (front back : List (List ℕ)) (p : PakeSide c) (prs : List ℕ)
      → length pre ≡ length front
      → found_side c (pre ++ (p ∷ post)) (front ++ (prs ∷ back)) (some (length pre)) ≡ some (p, prs)
  found_at [] post [] back p prs e = refl
  found_at [] post (x ∷ front) back p prs e = absurd (omega arith)
  found_at (q ∷ pre) post [] back p prs e = absurd (omega arith)
  found_at (q ∷ pre) post (x ∷ front) back p prs e =
      found_at pre post front back p prs (omega arith)

  -- A link of an honest client: the address splits, TLS succeeds with this protocol and the channel
  -- binding `sid`, and writes succeed.
  pub record IsOpen (l : Link) (host : Text) (sid : List ℕ) : Type 0 where
    pub remote : l.remote ≡ some host
    pub tls_ok : l.tls_ok ≡ true
    pub negotiated : l.negotiated ≡ alpn_proto
    pub exported : l.exported ≡ some sid
    pub write_ok : l.write_ok ≡ true

  opened_exchange :
      (l : Link) (host : Text) (sid : List ℕ) → IsOpen l host sid → open_exchange l ≡ ok sid
  unfolding open_exchange
  opened_exchange l host sid o =
      ground (arith, o.tls_ok, o.exported, o.negotiated, text_eq_iff l.negotiated alpn_proto)

  hello_frame :
      (h : Host) (share rest : List ℕ)
      → length share ≡ point_len
      → h.incoming ≡ frame (wire_version ∷ share) ++ rest
      → read_hello h ≡ (ok share, record h { incoming = rest })
  unfolding read_hello
  hello_frame h share rest n e =
      next _ (receive-frame hello_len h (wire_version ∷ share) rest e (omega arith) (omega arith))
      ∙ ap (λ r. (r, record h { incoming = rest }))
          (let fit : (suc (length share) == hello_len) ≡ true = (==_iff _ _).1 (omega arith) in
            rw fit)

  -- The host once the hello is read and both limits have been charged.
  abbrev pub admitted : Host → Text → Link → List ℕ → Host
  admitted h host l rest = record h {
    limiter = (allow_exchange (allow_peer h.limiter host l.peer_time).0 l.exchange_time).0;
    incoming = rest;
  }

  pub opening :
      (host_id : Text) (l : Link) (host : Text) (draw : ℕ → c.Scalar) (sid share rest : List ℕ)
      (h : Host)
      → IsOpen l host sid
      → (allow_peer h.limiter host l.peer_time).1 ≡ true
      → (allow_exchange (allow_peer h.limiter host l.peer_time).0 l.exchange_time).1 ≡ true
      → length share ≡ point_len
      → h.incoming ≡ frame (wire_version ∷ share) ++ rest
      → handshake c host_id l draw h
        ≡ serve_offer c host_id l host draw sid share
            (candidates h.store l.offer_time l.pick)
            (admitted h host l rest)
  unfolding handshake
  opening host_id l host draw sid share rest h o ap₁ ax n e =
      next _ (ap (λ r. (some_or io_error r, h)) o.remote)
      ∙ next _ (unfold admit_peer in ap (λ b. (passes b, h₁)) ap₁)
      ∙ next _ (ap (λ r. (r, h₁)) (opened_exchange l host sid o))
      ∙ next _ (hello_frame h₁ share rest n e)
      ∙ next _ (unfold admit_exchange in ap (λ b. (passes b, admitted h host l rest)) ax)
      ∙ unfold current_candidates in refl
    where
      h₁ : Host
      h₁ = record h { limiter = (allow_peer h.limiter host l.peer_time).0 }

  pub length-share :
      (prs ci sid : List ℕ) (y : c.Scalar) → length (new_pake_side c prs ci sid y).share ≡ point_len
  length-share prs ci sid y = unfold new_pake_side in c.length-encode _

  length-tag : (p : PakeSide c) → length (client_tag c p) ≡ mac_len
  length-tag p = unfold client_tag confirm in c.length-hmac _ _

  length-sealed :
      (p : PakeSide c) (body : List ℕ) → length (seal_payload c p body) ≡ length body + 16
  length-sealed p body = unfold seal_payload confirm in c.length-seal _ _

  -- A client that knows the code of a stored paste gets it. The daemon, whose candidates hold the
  -- client's secret and whose limits admit the client, reads the client's hello and confirmation,
  -- answers with the offer and the sealed payload, records the fetch in its store and touches its
  -- clock; the client reads those two frames, writes exactly that hello and confirmation, and ends
  -- with the payload. Assumed are an open link with one channel binding on both ends, and that no later
  -- candidate has a tag that confirms another key.
  pub handshake-delivers :
      (host_id : Text) (l : Link) (host : Text) (draw : ℕ → c.Scalar) (y : c.Scalar)
      (sid prs : List ℕ) (front back : List (List ℕ)) (pre post : List (PakeSide c))
      (p : PakeSide c) (offer body rest more : List ℕ) (s : Store) (h : Host)
      → IsOpen l host sid
      → (allow_peer h.limiter host l.peer_time).1 ≡ true
      → (allow_exchange (allow_peer h.limiter host l.peer_time).0 l.exchange_time).1 ≡ true
      → candidates h.store l.offer_time l.pick ≡ front ++ (prs ∷ back)
      → build_offer c
          (front ++ (prs ∷ back))
          (channel_id host_id)
          sid
          (new_pake_side c prs (channel_id host_id) sid y).share
          draw
        ≡ ok (pre ++ (p ∷ post), offer)
      → length pre ≡ length front
      → Silent c (new_pake_side c prs (channel_id host_id) sid y) sid post
      → Unheard c (client_tag c p) post
      → take h.store prs l.take_time ≡ (s, some body)
      → length body ≤ max_paste_size
      → h.incoming
        ≡ frame (wire_version ∷ (new_pake_side c prs (channel_id host_id) sid y).share)
          ++ (frame (client_tag c p) ++ rest)
      → (handshake c host_id l draw h ≡ (
        ok tt,
        record (admitted h host l rest) {
          store = s;
          last_used = l.touch_time / second;
          outgoing = (h.outgoing ++ frame offer) ++ frame (seal_payload c p body);
        },
      ))
        × (exchange c prs host_id
              (some sid)
              true
              y
              (frame offer ++ (frame (seal_payload c p body) ++ more))
            ≡ ok (
              body,
              frame (wire_version ∷ (new_pake_side c prs (channel_id host_id) sid y).share)
                  ++ frame (client_tag c p),
            ))
  handshake-delivers host_id l host draw y sid prs front back pre post p offer body rest more s h o
        a₁ a₂ cands built place silent unheard taken small sent =
      (
        opening host_id l host draw sid client.share (frame (client_tag c p) ++ rest) h o a₁ a₂
              (length-share prs ci sid y) sent
            ∙ ap
                (λ cs.
                  serve_offer c host_id l host draw sid client.share cs
                    (admitted h host l (frame (client_tag c p) ++ rest)))
                cands
            ∙ serve host_id l host draw sid client.share (front ++ (prs ∷ back))
                (admitted h host l (frame (client_tag c p) ++ rest)) (pre ++ (p ∷ post)) offer
                (client_tag c p) rest p prs body s built (omega (arith, shape.0, shape.1))
                o.write_ok refl (length-tag p)
                (ap (found_side c (pre ++ (p ∷ post)) (front ++ (prs ∷ back)))
                    (match_confirmation_found c pre post p unheard)
                  ∙ found_at pre post front back p prs place)
                taken (omega (arith, length-sealed p body)),
        received,
      )
    where
      ci : List ℕ
      ci = channel_id host_id

      client : PakeSide c
      client = new_pake_side c prs ci sid y

      shape :
          (length offer ≡ 2 + length (front ++ (prs ∷ back)) * (point_len + mac_len))
          × (length (front ++ (prs ∷ back)) ≤ max_candidates)
          × (build_sides c 0 (front ++ (prs ∷ back)) ci sid client.share draw
              ≡ ok (pre ++ (p ∷ post)))
      shape =
          build_offer_shape c (front ++ (prs ∷ back)) ci sid client.share draw (pre ++ (p ∷ post))
            offer built

      own :
          (k : List ℕ) × (p.sk ≡ some k)
          × (entry_key c client sid p.share (server_tag c p) ≡ some k)
      own = entry_key_own c prs ci sid y (draw (length front)) p (
          build_sides-at c 0 (length front) front back prs ci sid client.share draw pre post p
            shape.2 place (omega arith))

      side : PakeSide c
      side = record client { sk = some own.0 }

      same_key : side.sk ≡ p.sk
      same_key = sym own.1

      same_tag : client_tag c side ≡ client_tag c p
      same_tag = unfold client_tag in ap (λ k. confirm c (key_bytes c k) client_label) same_key

      found : match_offer c client sid offer ≡ ok side
      found =
          match_offer-build_offer c (front ++ (prs ∷ back)) ci sid client.share draw client
            (pre ++ (p ∷ post)) offer built
          ∙ ap (matched c client) (last_key_found c client sid pre post p none own.0 own.2 silent)

      received :
          exchange c prs host_id
            (some sid)
            true
            y
            (frame offer ++ (frame (seal_payload c p body) ++ more))
          ≡ ok (body, frame (wire_version ∷ client.share) ++ frame (client_tag c p))
      received =
          fetch prs host_id sid y offer (seal_payload c p body) more body side found
            (open_payload-seal_payload c side p body same_key) (omega (arith, shape.0, shape.1))
            (omega (arith, length-sealed p body)) (omega (arith, length-share prs ci sid y))
            (omega (arith, length-tag side))
          ∙ ap (λ t. ok (body, frame (wire_version ∷ client.share) ++ frame t)) same_tag
