-- ===== src/Pake/Crypto.antt =====
-- The cryptography that pake.go and wire.go call: SHA-512, HMAC-SHA-256, ristretto255, scrypt and
-- ChaCha20-Poly1305. It is not part of the repository: the operations are parameters, and the laws
-- are the documented behaviour that the exchange relies on.
use tp.Prelude.{ℕ, ◌+◌, List, Bool, Option, some, ◌≡◌, length}

pub record Crypto : Type 1 where
  pub Scalar : Type 0
  pub Element : Type 0
  pub sha512 : List ℕ → List ℕ
  -- HMAC of a label under a key.
  pub hmac : List ℕ → List ℕ → List ℕ
  -- SetUniformBytes on the 64 bytes of a SHA-512 sum.
  pub from_uniform : List ℕ → Element
  pub scalar_mult : Scalar → Element → Element
  pub is_identity : Element → Bool
  -- Bytes and SetCanonicalBytes.
  pub encode : Element → List ℕ
  pub decode : List ℕ → Option Element
  pub seal : List ℕ → List ℕ → List ℕ
  pub unseal : List ℕ → List ℕ → Option (List ℕ)
  -- Scalars commute.
  pub scalar_mult_comm :
      (a b : Scalar) (g : Element)
      → scalar_mult a (scalar_mult b g) ≡ scalar_mult b (scalar_mult a g)
  pub decode-encode : (e : Element) → decode (encode e) ≡ some e
  pub length-encode : (e : Element) → length (encode e) ≡ 32
  pub length-hmac : (key label : List ℕ) → length (hmac key label) ≡ 32
  pub unseal-seal : (key body : List ℕ) → unseal key (seal key body) ≡ some body
  -- The tag of ChaCha20-Poly1305 is 16 bytes.
  pub length-seal : (key body : List ℕ) → length (seal key body) ≡ length body + 16
