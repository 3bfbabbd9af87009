-- ===== src/Client.antt =====
-- `exchange` of fetch.go: the client's end. The bytes that arrive are an argument; the result holds
-- the opened payload and the bytes written. `works` is whether the writes and SetDeadline succeed.
use tp.Prelude.{ℕ, List, ◌∷◌, ◌++◌, Bool, Option, none, some}
use tp.Prelude.Text.{Text}
use tp.Errors.{io_error, Result, ok, err, ◌>>=◌, ◌>>◌, require}
use tp.Wire.{read_frame, write_frame, wire_version, max_offer_len, max_frame}
use tp.Pake.Crypto.{Crypto}
use tp.Pake.Side.{channel_id, new_pake_side, client_tag, open_payload}
use tp.Offer.{match_offer}

module _ (c : Crypto) where
  abbrev some_or {ℓ} : {A : Type ℓ} → Option A → Result A
  some_or none = err io_error
  some_or (some a) = ok a

  -- `exported` is the channel binding and `y` the random scalar.
  unfoldable pub exchange :
      List ℕ → Text → Option (List ℕ) → Bool → c.Scalar → List ℕ → Result (List ℕ × List ℕ)
  exchange prs server_id exported works y incoming = do
    sid ← some_or exported
    let side = new_pake_side c prs (channel_id server_id) sid y
    hello ← write_frame (wire_version ∷ side.share)
    require works io_error
    (offer, rest) ← read_frame max_offer_len incoming
    side' ← match_offer c side sid offer
    confirmation ← write_frame (client_tag c side')
    require works io_error
    (sealed, left) ← read_frame max_frame rest
    body ← open_payload c side' sealed
    ok (body, hello ++ confirmation)
