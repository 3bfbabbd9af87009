-- ===== src/Errors.antt =====
-- The errors of the exchange (errProtocol and errNoMatch in wire.go, errBadPoint in pake.go), and Go's
-- (value, error) results. `io_error` stands for whatever error a connection returns.
use tp.Prelude.{Bool, ◌≡◌, refl, if◌then◌else◌}

pub data Error : Type 0 where
  protocol_error no_match bad_point io_error : Error

pub data Result {ℓ} (V : Type ℓ) : Type ℓ where
  err : Error → Result V
  ok : V → Result V

infixl 5 ◌>>=◌
abbrev pub ◌>>=◌ {ℓ κ} : {V : Type ℓ} {W : Type κ} → Result V → (V → Result W) → Result W
err why >>= next = err why
ok v >>= next = next v

-- An early return unless the test passes.
abbrev pub require : Bool → Error → Result (Unit {0})
require passes why = if passes then ok tt else err why

infixl 5 ◌>>◌
abbrev pub ◌>>◌ {ℓ} : {W : Type ℓ} → Result (Unit {0}) → Result W → Result W
checked >> rest = checked >>= λ done. rest

-- A successful chain has a successful first step.
pub >>=-eq-ok {ℓ κ} :
    {V : Type ℓ} {W : Type κ} (first : Result V) (next : V → Result W) {w : W}
    → (first >>= next) ≡ ok w
    → (v : V) × (first ≡ ok v) × (next v ≡ ok w)
>>=-eq-ok (err why) next done = cc
>>=-eq-ok (ok v) next done = (v, refl, done)

pub ok-injective {ℓ} : {V : Type ℓ} {v w : V} → ok v ≡ ok w → v ≡ w
ok-injective same = cc
