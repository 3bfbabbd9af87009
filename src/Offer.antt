-- ===== src/Offer.antt =====
-- The offer: `buildOffer` and `matchConfirmation` of daemon.go and `matchOffer` of fetch.go.
use tp.Prelude.{
  ℕ, zero, suc, ◌+◌, ◌*◌, ◌/◌, ◌%◌, List, [], ◌∷◌, ◌++◌, Bool, true, false, not, Option, none, some,
  ltb, ◌==◌, if◌then◌else◌, length, take, drop,
}
use tp.Prelude.Text.{text_eq}
use tp.Errors.{Error, protocol_error, no_match, Result, ok, err, ◌>>=◌, ◌>>◌, require}
use tp.Store.{max_candidates}
use tp.Wire.{point_len, mac_len}
use tp.Pake.Crypto.{Crypto}
use tp.Pake.Side.{
  PakeSide, new_pake_side, finish, server_tag, client_tag, scalar_mult_vfy, session_key, confirm,
  mac_equal, server_label,
}
pub mod Layout
pub mod Matching
mod Runs

module _ (c : Crypto) where
  open c use {Scalar}

  -- The loop of `buildOffer`; `draw i` is the scalar that the candidate `i` got.
  unfoldable pub build_sides :
      ℕ → List (List ℕ) → List ℕ → List ℕ → List ℕ → (ℕ → Scalar) → Result (List (PakeSide c))
  build_sides i [] ci sid peer_share draw = ok []
  build_sides i (prs ∷ cands) ci sid peer_share draw =
      finish c (new_pake_side c prs ci sid (draw i)) peer_share sid >>= λ side.
      build_sides (suc i) cands ci sid peer_share draw >>= λ sides. ok (side ∷ sides)

  -- What the loop appends to the offer.
  unfoldable pub entries : List (PakeSide c) → List ℕ
  entries [] = []
  entries (side ∷ sides) = side.share ++ (server_tag c side ++ entries sides)

  -- The sides, and the offer with its count in two bytes.
  unfoldable pub build_offer :
      List (List ℕ) → List ℕ → List ℕ → List ℕ → (ℕ → Scalar) → Result (List (PakeSide c) × List ℕ)
  unfolding build_sides entries
  build_offer cands ci sid peer_share draw = do
    require (not (ltb max_candidates (length cands))) protocol_error
    sides ← build_sides 0 cands ci sid peer_share draw
    ok (sides, (length cands / 256) % 256 ∷ length cands % 256 ∷ entries sides)

  abbrev tested : List ℕ → List ℕ → Option (List ℕ)
  tested sk tag = if mac_equal tag (confirm c sk server_label) then some sk else none

  abbrev vfy_key : PakeSide c → List ℕ → List ℕ → List ℕ → Result (List ℕ) → Option (List ℕ)
  vfy_key side sid share tag (err e) = none
  vfy_key side sid share tag (ok k) = tested (session_key c sid k side.share share) tag

  -- The key that one entry of an offer confirms.
  unfoldable pub entry_key : PakeSide c → List ℕ → List ℕ → List ℕ → Option (List ℕ)
  entry_key side sid share tag = vfy_key side sid share tag (scalar_mult_vfy c side.scalar share)

  abbrev pub override : Option (List ℕ) → Option (List ℕ) → Option (List ℕ)
  override none sk = sk
  override (some k) sk = some k

  -- The scan of `matchOffer` over `n` entries: the last one that confirms a key is kept.
  unfoldable pub scan_offer : PakeSide c → List ℕ → ℕ → List ℕ → Option (List ℕ) → Option (List ℕ)
  unfolding entry_key
  scan_offer side sid zero offer sk = sk
  scan_offer side sid (suc n) offer sk =
      let share : List ℕ = take point_len offer in
      let tag : List ℕ = take mac_len (drop point_len offer) in
      scan_offer side sid n (drop (point_len + mac_len) offer)
        (override (entry_key side sid share tag) sk)

  abbrev pub matched : PakeSide c → Option (List ℕ) → Result (PakeSide c)
  matched side none = err no_match
  matched side (some k) = ok (record side { sk = some k })

  unfoldable pub match_offer : PakeSide c → List ℕ → List ℕ → Result (PakeSide c)
  unfolding scan_offer
  match_offer side sid [] = err protocol_error
  match_offer side sid (x ∷ []) = err protocol_error
  match_offer side sid (x ∷ y ∷ offer) =
      let n : ℕ = x * 256 + y in
      if not (suc (suc (length offer)) == 2 + n * (point_len + mac_len))
      then err protocol_error
      else matched side (scan_offer side sid n offer none)

  -- The loop of `matchConfirmation`: the last side with the tag, or `found`.
  unfoldable pub scan_tags : ℕ → List (PakeSide c) → List ℕ → Option ℕ → Option ℕ
  scan_tags i [] tag found = found
  scan_tags i (side ∷ sides) tag found =
      scan_tags (suc i) sides tag (if text_eq tag (client_tag c side) then some i else found)

  -- The index of the side with the client's tag; none is the code's -1.
  unfoldable pub match_confirmation : List (PakeSide c) → List ℕ → Option ℕ
  unfolding scan_tags
  match_confirmation sides tag =
      if not (length tag == mac_len) then none else scan_tags 0 sides tag none
