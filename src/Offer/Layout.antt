-- ===== src/Offer/Layout.antt =====
-- The bytes of an offer: `matchOffer` (fetch.go) reads back what `buildOffer` (daemon.go) wrote.
use tp.Prelude.{
  ℕ, suc, ◌+◌, ◌*◌, ◌/◌, ◌%◌, ◌≤◌, ◌≡◌, refl, List, [], ◌∷◌, ◌++◌, true, false, not, Option, none,
  arith, ltb, ◌==◌, if◌then◌else◌, length, take, drop, length-append, take_exact, drop_exact, ap,
  ◌∙◌, sym, All, subst, ==_iff, Bool-cases, inl, inr,
}
use tp.Errors.{protocol_error, Result, ok, err, >>=-eq-ok, ok-injective}
use tp.Store.{max_candidates}
use tp.Wire.{point_len, mac_len}
use tp.Pake.Crypto.{Crypto}
use tp.Pake.Side.{PakeSide, new_pake_side, finish, server_tag}
use tp.Offer.{
  build_sides, entries, build_offer, entry_key, override, scan_offer, matched, match_offer,
}
use mathlib.Core.List.{append_assoc}

module _ (c : Crypto) where
  -- The shares of the list have the length of a point.
  abbrev pub IsShaped : List (PakeSide c) → Type 0
  IsShaped = All (λ p. length p.share ≡ point_len)

  length-server_tag : (p : PakeSide c) → length (server_tag c p) ≡ mac_len
  unfolding server_tag
  length-server_tag p = c.length-hmac _ _

  pub length-entries :
      (sides : List (PakeSide c))
      → IsShaped sides
      → length (entries c sides) ≡ length sides * (point_len + mac_len)
  unfolding entries
  length-entries [] h = omega arith
  length-entries (p ∷ sides) h = omega (
    arith,
    length-append p.share (server_tag c p ++ entries c sides),
    length-append (server_tag c p) (entries c sides),
    length-server_tag p,
    length-entries sides h.1,
  )

  finish-share :
      (p q : PakeSide c) (peer sid : List ℕ) → finish c p peer sid ≡ ok q → q.share ≡ p.share
  unfolding finish
  finish-share p q peer sid e = ground arith

  new_pake_side_share :
      (prs ci sid : List ℕ) (y : c.Scalar) → length (new_pake_side c prs ci sid y).share ≡ point_len
  unfolding new_pake_side
  new_pake_side_share prs ci sid y = c.length-encode _

  -- What the loop of `buildOffer` returns.
  pub build_sides-IsShaped :
      (i : ℕ) (cands : List (List ℕ)) (ci sid peer : List ℕ) (draw : ℕ → c.Scalar)
      (sides : List (PakeSide c))
      → build_sides c i cands ci sid peer draw ≡ ok sides
      → IsShaped sides × (length sides ≡ length cands)
  unfolding build_sides
  build_sides-IsShaped i [] ci sid peer draw sides e =
      subst (λ s. IsShaped s × (length s ≡ 0)) (ok-injective e) (tt, refl)
  build_sides-IsShaped i (prs ∷ cands) ci sid peer draw sides e =
      let (p, done, more) =
        >>=-eq-ok (finish c (new_pake_side c prs ci sid (draw i)) peer sid) _ e in
      let (ps, all, last) = >>=-eq-ok (build_sides c (suc i) cands ci sid peer draw) _ more in
      let (shaped, n) = build_sides-IsShaped (suc i) cands ci sid peer draw ps all in
      subst (λ s. IsShaped s × (length s ≡ suc (length cands))) (ok-injective last)
        (
          (
            ap length (finish-share (new_pake_side c prs ci sid (draw i)) p peer sid done)
                ∙ new_pake_side_share prs ci sid (draw i),
            shaped,
          ),
          ap suc n,
        )

  -- The scan without the bytes: the last side whose share and tag confirm a key.
  unfoldable pub last_key :
      PakeSide c → List ℕ → List (PakeSide c) → Option (List ℕ) → Option (List ℕ)
  last_key side sid [] sk = sk
  last_key side sid (p ∷ sides) sk =
      last_key side sid sides (override c (entry_key c side sid p.share (server_tag c p)) sk)

  scan_offer-entries :
      (side : PakeSide c) (sid : List ℕ) (sides : List (PakeSide c)) (sk : Option (List ℕ))
      → IsShaped sides
      → scan_offer c side sid (length sides) (entries c sides) sk ≡ last_key side sid sides sk
  unfolding scan_offer entries last_key
  scan_offer-entries side sid [] sk h = refl
  scan_offer-entries side sid (p ∷ sides) sk h =
      (λ i.
        scan_offer c side sid (length sides) (skip i)
          (override c (entry_key c side sid (first i) (second i)) sk))
      ∙ scan_offer-entries side sid sides
          (override c (entry_key c side sid p.share (server_tag c p)) sk) h.1
    where
      tag : List ℕ
      tag = server_tag c p

      rest : List ℕ
      rest = entries c sides

      first : take point_len (p.share ++ (tag ++ rest)) ≡ p.share
      first = take_exact point_len p.share (tag ++ rest) h.0

      second : take mac_len (drop point_len (p.share ++ (tag ++ rest))) ≡ tag
      second =
          ap (take mac_len) (drop_exact point_len p.share (tag ++ rest) h.0)
          ∙ take_exact mac_len tag rest (length-server_tag p)

      skip : drop (point_len + mac_len) (p.share ++ (tag ++ rest)) ≡ rest
      skip =
          ap (drop (point_len + mac_len)) (sym (append_assoc p.share tag rest))
          ∙ drop_exact (point_len + mac_len) (p.share ++ tag) rest
              (omega (arith, length-append p.share tag, length-server_tag p, h.0))

  -- The client reads from the offer that a daemon built, for any candidates, exactly the shares and
  -- tags of the daemon's sides: it ends with the key of the last of them that confirms one, and
  -- with errNoMatch if none does. The client's own earlier key does not matter.
  pub match_offer-build_offer :
      (cands : List (List ℕ)) (ci sid peer : List ℕ) (draw : ℕ → c.Scalar) (side : PakeSide c)
      (sides : List (PakeSide c)) (offer : List ℕ)
      → build_offer c cands ci sid peer draw ≡ ok (sides, offer)
      → match_offer c side sid offer ≡ matched c side (last_key side sid sides none)
  unfolding build_offer match_offer
  match_offer-build_offer cands ci sid peer draw side sides offer e =
      elim (Bool-cases (ltb max_candidates (length cands))) [
        | inl many ↦ absurd (refused (rw many at e))
        | inr fits ↦ read fits (>>=-eq-ok (build_sides c 0 cands ci sid peer draw) _ (rw fits at e))
      ]
    where
      refused :
          ◌≡◌ {A = Result (List (PakeSide c) × List ℕ)} (err protocol_error) (ok (sides, offer)) → ⊥
      refused e = cc

      written : List (PakeSide c) → List (PakeSide c) × List ℕ
      written ps = (ps, (length cands / 256) % 256 ∷ length cands % 256 ∷ entries c ps)

      accept :
          (ps : List (PakeSide c))
          → IsShaped ps
          → (if not (suc (suc (length (entries c ps))) == 2 + length ps * (point_len + mac_len))
              then err protocol_error
              else matched c side (scan_offer c side sid (length ps) (entries c ps) none))
            ≡ matched c side (last_key side sid ps none)
      accept ps shaped =
          let fit : (suc (suc (length (entries c ps))) == 2 + length ps * (point_len + mac_len))
              ≡ true =
            (==_iff _ _).1 (omega (arith, length-entries ps shaped)) in
          rw fit (ap (matched c side) (scan_offer-entries side sid ps none shaped))

      read :
          ltb max_candidates (length cands) ≡ false
          → (ps : List (PakeSide c)) × (build_sides c 0 cands ci sid peer draw ≡ ok ps)
            × (◌≡◌ {A = Result (List (PakeSide c) × List ℕ)} (ok (written ps)) (ok (sides, offer)))
          → match_offer c side sid offer ≡ matched c side (last_key side sid sides none)
      read fits (ps, built, e) =
          subst
            (λ (r : List (PakeSide c) × List ℕ).
              match_offer c side sid r.1 ≡ matched c side (last_key side sid r.0 none))
            (ok-injective e)
            (let (shaped, n) = build_sides-IsShaped 0 cands ci sid peer draw ps built in
              let size : (length cands / 256) % 256 * 256 + length cands % 256 ≡ length ps =
                ground (arith, n) in
              rw size (accept ps shaped))

  -- An offer that `buildOffer` returns has an entry for each candidate, at most 512, and the sides are
  -- those of the loop.
  pub build_offer_shape :
      (cands : List (List ℕ)) (ci sid peer : List ℕ) (draw : ℕ → c.Scalar)
      (sides : List (PakeSide c)) (offer : List ℕ)
      → build_offer c cands ci sid peer draw ≡ ok (sides, offer)
      → (length offer ≡ 2 + length cands * (point_len + mac_len))
        × (length cands ≤ max_candidates)
        × (build_sides c 0 cands ci sid peer draw ≡ ok sides)
  unfolding build_offer
  build_offer_shape cands ci sid peer draw sides offer e =
      elim (Bool-cases (ltb max_candidates (length cands))) [
        | inl many ↦ absurd (refused (rw many at e))
        | inr fits ↦
            shape fits (>>=-eq-ok (build_sides c 0 cands ci sid peer draw) _ (rw fits at e))
      ]
    where
      refused :
          ◌≡◌ {A = Result (List (PakeSide c) × List ℕ)} (err protocol_error) (ok (sides, offer)) → ⊥
      refused e = cc

      shape :
          ltb max_candidates (length cands) ≡ false
          → (ps : List (PakeSide c)) × (build_sides c 0 cands ci sid peer draw ≡ ok ps)
            × (◌≡◌ {A = Result (List (PakeSide c) × List ℕ)}
                (ok (ps, (length cands / 256) % 256 ∷ length cands % 256 ∷ entries c ps))
                (ok (sides, offer)))
          → (length offer ≡ 2 + length cands * (point_len + mac_len))
            × (length cands ≤ max_candidates)
            × (build_sides c 0 cands ci sid peer draw ≡ ok sides)
      shape fits (ps, built, e) =
          subst
            (λ (r : List (PakeSide c) × List ℕ).
              (length r.1 ≡ 2 + length cands * (point_len + mac_len))
              × (length cands ≤ max_candidates)
              × (build_sides c 0 cands ci sid peer draw ≡ ok r.0))
            (ok-injective e)
            (let (shaped, n) = build_sides-IsShaped 0 cands ci sid peer draw ps built in
              (
                omega
                    (arith, length-entries ps shaped, ap (λ (t : ℕ). t * (point_len + mac_len)) n),
                ground arith,
                built,
              ))

  -- The side at a candidate's place was made with that candidate's secret.
  pub build_sides-at :
      (i j : ℕ) (front back : List (List ℕ)) (prs ci sid peer : List ℕ) (draw : ℕ → c.Scalar)
      (pre post : List (PakeSide c)) (p : PakeSide c)
      → build_sides c i (front ++ (prs ∷ back)) ci sid peer draw ≡ ok (pre ++ (p ∷ post))
      → length pre ≡ length front
      → i + length front ≡ j
      → finish c (new_pake_side c prs ci sid (draw j)) peer sid ≡ ok p
  unfolding build_sides
  build_sides-at i j [] back prs ci sid peer draw [] post p e n at =
      let (q, done, more) =
        >>=-eq-ok (finish c (new_pake_side c prs ci sid (draw i)) peer sid) _ e in
      let (ps, all, last) = >>=-eq-ok (build_sides c (suc i) back ci sid peer draw) _ more in
      let same : q ∷ ps ≡ p ∷ post = ok-injective last in
      let head : q ≡ p = cc in
      ap (λ k. finish c (new_pake_side c prs ci sid (draw k)) peer sid) {x = j} {y = i}
        (omega arith)
      ∙ done
      ∙ ap ok head
  build_sides-at i j [] back prs ci sid peer draw (x ∷ pre) post p e n at = absurd (omega arith)
  build_sides-at i j (y ∷ front) back prs ci sid peer draw [] post p e n at = absurd (omega arith)
  build_sides-at i j (y ∷ front) back prs ci sid peer draw (x ∷ pre) post p e n at =
      let (q, done, more) = >>=-eq-ok (finish c (new_pake_side c y ci sid (draw i)) peer sid) _ e in
      let (ps, all, last) =
        >>=-eq-ok (build_sides c (suc i) (front ++ (prs ∷ back)) ci sid peer draw) _ more in
      let same : q ∷ ps ≡ x ∷ (pre ++ (p ∷ post)) = ok-injective last in
      let tails : ps ≡ pre ++ (p ∷ post) = cc in
      build_sides-at (suc i) j front back prs ci sid peer draw pre post p (all ∙ ap ok tails)
        (omega arith) (omega arith)
