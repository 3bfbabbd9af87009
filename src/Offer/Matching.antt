-- ===== src/Offer/Matching.antt =====
-- Which candidate the two ends of an exchange agree on (daemon.go, fetch.go).
use tp.Prelude.{
  ℕ, suc, ◌+◌, ◌≡◌, refl, List, [], ◌∷◌, ◌++◌, true, false, Option, none, some, arith, ◌==◌,
  if◌then◌else◌, length, ap, ◌∙◌, sym, All, ==_iff,
}
use tp.Prelude.Text.{text_eq, text_eq_refl}
use tp.Errors.{ok, >>=-eq-ok, ok-injective}
use tp.Wire.{mac_len}
use tp.Pake.Crypto.{Crypto}
use tp.Pake.Side.{
  PakeSide, new_pake_side, finish, server_tag, client_tag, scalar_mult_vfy, session_key, confirm,
  server_label,
}
use tp.Pake.Agreement.{finish-agrees, key_of}
use tp.Offer.{entry_key, override, match_confirmation, scan_tags}
use tp.Offer.Layout.{last_key}

module _ (c : Crypto) where
  -- What `finish` computes with is what the client's scan computes with.
  finish_key :
      (a : PakeSide c) (share sid k : List ℕ)
      → key_of c (finish c a share sid) ≡ ok (some k)
      → entry_key c a sid share (confirm c k server_label) ≡ some k
  unfolding finish entry_key
  finish_key a share sid k e = ground (arith, text_eq_refl (confirm c k server_label))

  finish_shape :
      (a p : PakeSide c) (share sid : List ℕ)
      → finish c a share sid ≡ ok p
      → (k : List ℕ) × (p ≡ record a { sk = some k })
  unfolding finish
  finish_shape a p share sid e =
      let (k, _, last) = >>=-eq-ok (scalar_mult_vfy c a.scalar share) _ e in
      (session_key c sid k a.share share, sym (ok-injective last))

  -- The entry that the server made with the client's own secret confirms the server's key.
  pub entry_key_own :
      (prs ci sid : List ℕ) (y z : c.Scalar) (p : PakeSide c)
      → finish c (new_pake_side c prs ci sid z) (new_pake_side c prs ci sid y).share sid ≡ ok p
      → (k : List ℕ) × (p.sk ≡ some k)
        × (entry_key c (new_pake_side c prs ci sid y) sid p.share (server_tag c p) ≡ some k)
  entry_key_own prs ci sid y z p e =
      let (k, shape) =
        finish_shape (new_pake_side c prs ci sid z) p (new_pake_side c prs ci sid y).share sid e in
      let own : entry_key c (new_pake_side c prs ci sid y) sid (new_pake_side c prs ci sid z).share
            (confirm c k server_label)
          ≡ some k =
        finish_key (new_pake_side c prs ci sid y) (new_pake_side c prs ci sid z).share sid k (
          finish-agrees c prs ci sid y z
          ∙ ap (key_of c) e
          ∙ ap (λ (q : PakeSide c). ok q.sk) shape) in
      (
        k,
        ap (λ (q : PakeSide c). q.sk) shape,
        ap
              (λ (q : PakeSide c).
                entry_key c (new_pake_side c prs ci sid y) sid q.share (server_tag c q))
              shape
            ∙ unfold server_tag in own,
      )

  -- No later entry of the offer confirms another key: its tag would have to be the HMAC under a key
  -- that the client derives from that entry.
  abbrev pub Silent : PakeSide c → List ℕ → List (PakeSide c) → Type 0
  Silent side sid = All (λ p. entry_key c side sid p.share (server_tag c p) ≡ none)

  last_key-Silent :
      (side : PakeSide c) (sid : List ℕ) (sides : List (PakeSide c)) (sk : Option (List ℕ))
      → Silent side sid sides
      → last_key c side sid sides sk ≡ sk
  unfolding last_key
  last_key-Silent side sid [] sk h = refl
  last_key-Silent side sid (p ∷ sides) sk h = rw (h.0) (last_key-Silent side sid sides sk h.1)

  pub last_key_found :
      (side : PakeSide c) (sid : List ℕ) (pre post : List (PakeSide c)) (p : PakeSide c)
      (sk : Option (List ℕ)) (k : List ℕ)
      → entry_key c side sid p.share (server_tag c p) ≡ some k
      → Silent side sid post
      → last_key c side sid (pre ++ (p ∷ post)) sk ≡ some k
  unfolding last_key
  last_key_found side sid [] post p sk k e h =
      ap (λ o. last_key c side sid post (override c o sk)) e
      ∙ last_key-Silent side sid post (some k) h
  last_key_found side sid (q ∷ pre) post p sk k e h =
      last_key_found side sid pre post p
        (override c (entry_key c side sid q.share (server_tag c q)) sk) k e h

  -- No later side has the client's tag.
  abbrev pub Unheard : List ℕ → List (PakeSide c) → Type 0
  Unheard tag = All (λ p. text_eq tag (client_tag c p) ≡ false)

  scan_tags-Unheard :
      (i : ℕ) (sides : List (PakeSide c)) (tag : List ℕ) (found : Option ℕ)
      → Unheard tag sides
      → scan_tags c i sides tag found ≡ found
  unfolding scan_tags
  scan_tags-Unheard i [] tag found h = refl
  scan_tags-Unheard i (p ∷ sides) tag found h =
      rw (h.0) (scan_tags-Unheard (suc i) sides tag found h.1)

  scan_tags_found :
      (i n : ℕ) (pre post : List (PakeSide c)) (p : PakeSide c) (found : Option ℕ)
      → i + length pre ≡ n
      → Unheard (client_tag c p) post
      → scan_tags c i (pre ++ (p ∷ post)) (client_tag c p) found ≡ some n
  unfolding scan_tags
  scan_tags_found i n [] post p found e h =
      ap (λ b. scan_tags c (suc i) post (client_tag c p) (if b then some i else found))
        (text_eq_refl (client_tag c p))
      ∙ scan_tags-Unheard (suc i) post (client_tag c p) (some i) h
      ∙ ap some (omega arith)
  scan_tags_found i n (q ∷ pre) post p found e h =
      scan_tags_found (suc i) n pre post p _ (omega arith) h

  length-client_tag : (p : PakeSide c) → length (client_tag c p) ≡ mac_len
  unfolding client_tag confirm
  length-client_tag p = c.length-hmac _ _

  -- The daemon finds the side whose tag the client sent, unless a later side has the same tag.
  pub match_confirmation_found :
      (pre post : List (PakeSide c)) (p : PakeSide c)
      → Unheard (client_tag c p) post
      → match_confirmation c (pre ++ (p ∷ post)) (client_tag c p) ≡ some (length pre)
  unfolding match_confirmation
  match_confirmation_found pre post p h =
      let fit : (length (client_tag c p) == mac_len) ≡ true =
        (==_iff _ _).1 (length-client_tag p) in
      rw fit (scan_tags_found 0 (length pre) pre post p none (omega arith) h)
