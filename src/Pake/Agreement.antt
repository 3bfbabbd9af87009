-- ===== src/Pake/Agreement.antt =====
-- Both sides of an exchange with one secret derive one key (pake.go, `finish` of wire.go).
use tp.Prelude.{ℕ, List, [], ◌∷◌, ◌++◌, Option, some, arith, ◌≡◌, ap, Bool-cases, inl, inr}
use tp.Errors.{Result, ok, ◌>>=◌}
use tp.Pake.Encoding.{lv_cat}
use tp.Pake.Encoding.Order.{o_cat_comm, item}
use tp.Pake.Crypto.{Crypto}
use tp.Pake.Side
use tp.Pake.Side.{
  PakeSide, calculate_generator, scalar_mult_vfy, session_key, new_pake_side, finish, client_tag,
  server_tag, seal_payload, open_payload, confirm, shared,
}

module _ (c : Crypto) where
  open c use {Scalar, Element, scalar_mult, encode, decode}

  -- A share that the peer encoded is decoded and multiplied.
  vfy_encoded :
      (s : Scalar) (e : Element) → scalar_mult_vfy c s (encode e) ≡ shared c (scalar_mult s e)
  unfolding scalar_mult_vfy
  vfy_encoded s e = ground (arith, c.length-encode e, c.decode-encode e)

  pub session_key_comm :
      (sid k ya yb : List ℕ) → session_key c sid k ya yb ≡ session_key c sid k yb ya
  unfolding session_key
  session_key_comm sid k ya yb =
      ap (λ t. c.sha512 (lv_cat (Side.cpace_dsi_isk ∷ sid ∷ k ∷ []) ++ t))
        (o_cat_comm (item ya) (item yb))

  -- The key that a side ends with, or its error.
  abbrev pub key_of : Result (PakeSide c) → Result (Option (List ℕ))
  key_of r = r >>= λ p. ok p.sk

  -- Two sides with the same secret, channel and session end with the same key, whatever scalars
  -- they drew, or both refuse because the shared point is the identity.
  pub finish-agrees :
      (prs ci sid : List ℕ) (y z : Scalar)
      → let a = new_pake_side c prs ci sid y in
        let b = new_pake_side c prs ci sid z in
        key_of (finish c a b.share sid) ≡ key_of (finish c b a.share sid)
  unfolding new_pake_side finish
  finish-agrees prs ci sid y z =
      rw
        (vfy_encoded y (scalar_mult z g), vfy_encoded z (scalar_mult y g), c.scalar_mult_comm z y g)
        (elim (Bool-cases (c.is_identity (scalar_mult y (scalar_mult z g)))) [
          | inl zero_point ↦ rw zero_point
          | inr good ↦ rw good (
              ap (λ k. ok (some k))
                (session_key_comm sid (encode (scalar_mult y (scalar_mult z g)))
                  (encode (scalar_mult y g)) (encode (scalar_mult z g))))
        ])
    where
      g : Element
      g = calculate_generator c prs ci sid

  -- What a side sealed, a side with the same key opens.
  pub open_payload-seal_payload :
      (a b : PakeSide c) (body : List ℕ)
      → a.sk ≡ b.sk
      → open_payload c a (seal_payload c b body) ≡ ok body
  unfolding open_payload seal_payload
  open_payload-seal_payload a b body e =
      rw (e, c.unseal-seal (confirm c (Side.key_bytes c b.sk) Side.payload_label) body)
