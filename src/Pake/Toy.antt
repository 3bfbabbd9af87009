-- ===== src/Pake/Toy.antt =====
-- A toy instance of the cryptography that pake.go calls, for tests: numbers under multiplication,
-- sums for hashes. It has the laws of `Crypto` and no security.
use tp.Prelude.{
  ℕ, ◌+◌, ◌*◌, List, [], ◌∷◌, ◌++◌, Option, none, some, ◌≡◌, refl, arith, length, replicate, drop,
  length-append, ◌==◌,
}
use tp.Pake.Crypto.{Crypto}

abbrev total : List ℕ → ℕ
total [] = 0
total (x ∷ xs) = x + total xs

abbrev block : ℕ → List ℕ
block n = n ∷ replicate 31 0

abbrev first : List ℕ → Option ℕ
first [] = none
first (x ∷ xs) = some x

pub commute : (a b g : ℕ) → a * (b * g) ≡ b * (a * g)
commute a b g = grind arith

pub sealed_length : (body : List ℕ) → length (replicate 16 0 ++ body) ≡ length body + 16
sealed_length body = omega (arith, length-append (replicate 16 0) body)

abbrev pub toy : Crypto
toy = record {
  Scalar = ℕ;
  Element = ℕ;
  sha512 = λ b. b;
  hmac = λ key label. block (1 + total key * 131 + total label);
  from_uniform = λ b. 1 + total b;
  scalar_mult = λ a g. a * g;
  is_identity = λ e. e == 0;
  encode = block;
  decode = first;
  seal = λ key body. replicate 16 0 ++ body;
  unseal = λ key sealed. some (drop 16 sealed);
  scalar_mult_comm = commute;
  decode-encode = λ e. refl;
  length-encode = λ e. refl;
  length-hmac = λ key label. refl;
  unseal-seal = λ key body. refl;
  length-seal = λ key body. sealed_length body;
}
