-- ===== src/Session/Refusals.antt =====
-- What `handshake` of daemon.go does with a peer that it does not serve.
use tp.Prelude.{
  ℕ, ◌+◌, ◌*◌, ◌≤◌, ◌≡◌, refl, List, ◌∷◌, ◌++◌, true, false, Option, none, some, arith, length, ap,
  ◌∙◌,
}
use tp.Prelude.Text.{Text}
use tp.Errors.{protocol_error, io_error, ok, err}
use tp.Store.{Store, candidates, take, max_candidates}
use tp.Limiter.{allow_peer, allow_exchange, fail}
use tp.Wire.{wire_version, mac_len, point_len}
use tp.Pake.Crypto.{Crypto}
use tp.Pake.Side.{PakeSide, channel_id, seal_payload}
use tp.Offer.{build_offer, match_confirmation}
use tp.Offer.Layout.{build_offer_shape}
use tp.Session.Delivery.{IsOpen, frame, next, receive-frame, transmit-frame, opening, admitted}
use tp.Session.{
  Host, Link, continue, transmit, confirm_match, matched_or_fail, take_body, admit_peer, passes,
  some_or, serve_offer, handshake, found_side, ◌>>=◌, ◌>>◌, touch,
}

module _ (c : Crypto) where
  -- The offer is out and the confirmation is in.
  after_offer : Host → List ℕ → List ℕ → Host
  after_offer h offer rest = record h { outgoing = h.outgoing ++ frame offer; incoming = rest }

  confirmation_read :
      (host_id : Text) (l : Link) (host : Text) (draw : ℕ → c.Scalar) (sid peer : List ℕ)
      (cands : List (List ℕ)) (h : Host) (sides : List (PakeSide c)) (offer tag rest : List ℕ)
      → build_offer c cands (channel_id host_id) sid peer draw ≡ ok (sides, offer)
      → l.write_ok ≡ true
      → h.incoming ≡ frame tag ++ rest
      → length tag ≤ mac_len
      → serve_offer c host_id l host draw sid peer cands h
        ≡ continue
            (λ (r : PakeSide c × List ℕ) h'.
              ◌>>=◌
                (take_body r.1 l.take_time)
                (λ body. touch l.touch_time >> transmit l.write_ok (seal_payload c r.0 body))
                h')
            (confirm_match c host l.fail_time sides cands tag (after_offer h offer rest))
  unfolding serve_offer after_offer
  confirmation_read host_id l host draw sid peer cands h sides offer tag rest eb ew ei et =
      next _ (ap (λ r. (r, h)) eb)
      ∙ next _
          (ap (λ b. transmit b offer h) ew ∙ transmit-frame h offer (omega (arith, size.0, size.1)))
      ∙ next _ (
          receive-frame mac_len (record h { outgoing = h.outgoing ++ frame offer }) tag rest ei et
            (omega (arith, et)))
      ∙ refl
    where
      size :
          (length offer ≡ 2 + length cands * (point_len + mac_len))
          × (length cands ≤ max_candidates)
      size =
          let t = build_offer_shape c cands (channel_id host_id) sid peer draw sides offer eb in
          (t.0, t.1)

  -- After the offer, a confirmation that matches no side is answered with nothing and charged to the
  -- address; the store stays as it was, and both limits stay charged.
  pub handshake_unmatched :
      (host_id : Text) (l : Link) (host : Text) (draw : ℕ → c.Scalar) (sid share tag rest : List ℕ)
      (sides : List (PakeSide c)) (offer : List ℕ) (h : Host)
      → IsOpen c l host sid
      → (allow_peer h.limiter host l.peer_time).1 ≡ true
      → (allow_exchange (allow_peer h.limiter host l.peer_time).0 l.exchange_time).1 ≡ true
      → length share ≡ point_len
      → length tag ≤ mac_len
      → build_offer c (candidates h.store l.offer_time l.pick) (channel_id host_id) sid share draw
        ≡ ok (sides, offer)
      → match_confirmation c sides tag ≡ none
      → h.incoming ≡ frame (wire_version ∷ share) ++ (frame tag ++ rest)
      → handshake c host_id l draw h ≡ (
        err protocol_error,
        record h {
          limiter =
              fail
                (allow_exchange (allow_peer h.limiter host l.peer_time).0 l.exchange_time).0
                host
                l.fail_time;
          incoming = rest;
          outgoing = h.outgoing ++ frame offer;
        },
      )
  unfolding after_offer confirm_match take_body
  handshake_unmatched host_id l host draw sid share tag rest sides offer h o a₁ a₂ n small built
        none_found sent =
      opening c host_id l host draw sid share (frame tag ++ rest) h o a₁ a₂ n sent
      ∙ confirmation_read host_id l host draw sid share (candidates h.store l.offer_time l.pick)
          (admitted c h host l (frame tag ++ rest)) sides offer tag rest built o.write_ok refl small
      ∙ ap (continue _) (
          ap
            (λ i.
              matched_or_fail c host l.fail_time
                (found_side c sides (candidates h.store l.offer_time l.pick) i)
                (after_offer (admitted c h host l (frame tag ++ rest)) offer rest))
            none_found)

  -- A confirmation that matches a side whose secret cannot be fetched, such as the decoy's or that of a
  -- paste that expired or was burnt in the meantime, is answered with nothing; the store is what
  -- `take` left.
  pub handshake_not_taken :
      (host_id : Text) (l : Link) (host : Text) (draw : ℕ → c.Scalar)
      (sid share tag rest prs : List ℕ) (sides : List (PakeSide c)) (side : PakeSide c)
      (offer : List ℕ) (s : Store) (h : Host)
      → IsOpen c l host sid
      → (allow_peer h.limiter host l.peer_time).1 ≡ true
      → (allow_exchange (allow_peer h.limiter host l.peer_time).0 l.exchange_time).1 ≡ true
      → length share ≡ point_len
      → length tag ≤ mac_len
      → build_offer c (candidates h.store l.offer_time l.pick) (channel_id host_id) sid share draw
        ≡ ok (sides, offer)
      → found_side c sides (candidates h.store l.offer_time l.pick) (match_confirmation c sides tag)
        ≡ some (side, prs)
      → take h.store prs l.take_time ≡ (s, none)
      → h.incoming ≡ frame (wire_version ∷ share) ++ (frame tag ++ rest)
      → handshake c host_id l draw h ≡ (
        err protocol_error,
        record h {
          store = s;
          limiter = (allow_exchange (allow_peer h.limiter host l.peer_time).0 l.exchange_time).0;
          incoming = rest;
          outgoing = h.outgoing ++ frame offer;
        },
      )
  unfolding after_offer confirm_match take_body
  handshake_not_taken host_id l host draw sid share tag rest prs sides side offer s h o a₁ a₂ n
        small built found gone sent =
      opening c host_id l host draw sid share (frame tag ++ rest) h o a₁ a₂ n sent
      ∙ confirmation_read host_id l host draw sid share (candidates h.store l.offer_time l.pick)
          (admitted c h host l (frame tag ++ rest)) sides offer tag rest built o.write_ok refl small
      ∙ next _ (
          ap
            (λ r.
              matched_or_fail c host l.fail_time r
                (after_offer (admitted c h host l (frame tag ++ rest)) offer rest))
            found)
      ∙ ap (continue _) (
          ap
            (λ (r : Store × Option (List ℕ)). (
              some_or protocol_error r.1,
              record (after_offer (admitted c h host l (frame tag ++ rest)) offer rest) {
                store = r.0;
              },
            ))
            gone)

  -- An address over its limit gets nothing: not a byte is read or written, and only the limiter's
  -- entry changes.
  pub handshake_unadmitted :
      (host_id : Text) (l : Link) (host : Text) (draw : ℕ → c.Scalar) (h : Host)
      → l.remote ≡ some host
      → (allow_peer h.limiter host l.peer_time).1 ≡ false
      → handshake c host_id l draw h
        ≡ (err protocol_error, record h { limiter = (allow_peer h.limiter host l.peer_time).0 })
  unfolding handshake
  handshake_unadmitted host_id l host draw h r a =
      next _ (ap (λ o. (some_or io_error o, h)) r)
      ∙ ap (continue _) (
          unfold admit_peer in
          ap (λ b. (passes b, record h { limiter = (allow_peer h.limiter host l.peer_time).0 })) a)
