-- ===== src/Pake/Side.antt =====
-- One side of a CPace exchange: pake.go and `pakeSide` of wire.go.
use tp.Prelude.{
  ℕ, ◌-◌, List, [], ◌∷◌, ◌++◌, Bool, not, Option, none, some, ◌==◌, if◌then◌else◌, length,
  replicate,
}
use tp.Prelude.Text.{Text, codes, text_eq}
use tp.Errors.{bad_point, io_error, Result, ok, err, ◌>>=◌}
use tp.Pake.Encoding.{prepend_len, lv_cat, o_cat}
use tp.Pake.Crypto.{Crypto}

abbrev pub cpace_dsi : Text
cpace_dsi = codes "CPaceRistretto255"

abbrev pub cpace_dsi_isk : Text
cpace_dsi_isk = codes "CPaceRistretto255_ISK"

abbrev pub cpace_block : ℕ
cpace_block = 128

abbrev pub server_label : Text
server_label = codes "tp/confirm/server"

abbrev pub client_label : Text
client_label = codes "tp/confirm/client"

abbrev pub payload_label : Text
payload_label = codes "tp/payload/v1"

-- `channelID` of wire.go.
unfoldable pub channel_id : Text → List ℕ
channel_id server_host_id = lv_cat (codes "tp/v1" ∷ server_host_id ∷ [])

-- The bytes that `calculateGenerator` hashes; the padding is `max(0, …)`, as `-` on ℕ is.
unfoldable pub generator_string : List ℕ → List ℕ → List ℕ → List ℕ
generator_string prs ci sid =
    let zpad : ℕ = cpace_block - 1 - length (prepend_len prs) - length (prepend_len cpace_dsi) in
    lv_cat (cpace_dsi ∷ prs ∷ replicate zpad 0 ∷ ci ∷ sid ∷ [])

-- `macEqual`
abbrev pub mac_equal : List ℕ → List ℕ → Bool
mac_equal = text_eq

module _ (c : Crypto) where
  open c use {Scalar, Element, sha512, hmac, from_uniform, scalar_mult, is_identity, encode, decode}

  unfoldable pub calculate_generator : List ℕ → List ℕ → List ℕ → Element
  calculate_generator prs ci sid = from_uniform (sha512 (generator_string prs ci sid))

  abbrev pub shared : Element → Result (List ℕ)
  shared k = if is_identity k then err bad_point else ok (encode k)

  abbrev pub vfy_decoded : Scalar → Option Element → Result (List ℕ)
  vfy_decoded s none = err bad_point
  vfy_decoded s (some p) = shared (scalar_mult s p)

  unfoldable pub scalar_mult_vfy : Scalar → List ℕ → Result (List ℕ)
  scalar_mult_vfy s encoded =
      if not (length encoded == 32) then err bad_point else vfy_decoded s (decode encoded)

  unfoldable pub session_key : List ℕ → List ℕ → List ℕ → List ℕ → List ℕ
  session_key sid k ya yb =
      let transcript : List ℕ = o_cat (lv_cat (ya ∷ [] ∷ [])) (lv_cat (yb ∷ [] ∷ [])) in
      sha512 (lv_cat (cpace_dsi_isk ∷ sid ∷ k ∷ []) ++ transcript)

  unfoldable pub confirm : List ℕ → Text → List ℕ
  confirm sk label = hmac sk label

  -- `sk` is none while it is Go's nil.
  pub record PakeSide : Type 0 where
    pub scalar : Scalar
    pub share : List ℕ
    pub sk : Option (List ℕ)

  abbrev pub key_bytes : Option (List ℕ) → List ℕ
  key_bytes none = []
  key_bytes (some k) = k

  -- `y` is the random scalar.
  unfoldable pub new_pake_side : List ℕ → List ℕ → List ℕ → Scalar → PakeSide
  unfolding calculate_generator
  new_pake_side prs ci sid y = record {
    scalar = y;
    share = encode (scalar_mult y (calculate_generator prs ci sid));
    sk = none;
  }

  unfoldable pub finish : PakeSide → List ℕ → List ℕ → Result PakeSide
  unfolding scalar_mult_vfy session_key
  finish p peer_share sid = do
    k ← scalar_mult_vfy p.scalar peer_share
    ok (record p { sk = some (session_key sid k p.share peer_share) })

  unfoldable pub server_tag : PakeSide → List ℕ
  unfolding confirm
  server_tag p = confirm (key_bytes p.sk) server_label

  unfoldable pub client_tag : PakeSide → List ℕ
  unfolding confirm
  client_tag p = confirm (key_bytes p.sk) client_label

  unfoldable pub seal_payload : PakeSide → List ℕ → List ℕ
  unfolding confirm
  seal_payload p body = c.seal (confirm (key_bytes p.sk) payload_label) body

  abbrev pub opened : Option (List ℕ) → Result (List ℕ)
  opened none = err io_error
  opened (some b) = ok b

  unfoldable pub open_payload : PakeSide → List ℕ → Result (List ℕ)
  unfolding confirm
  open_payload p sealed = opened (c.unseal (confirm (key_bytes p.sk) payload_label) sealed)
