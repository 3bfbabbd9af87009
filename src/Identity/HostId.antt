-- ===== src/Identity/HostId.antt =====
-- The shape of a host ID (identity.go, `hostID`).
use tp.Prelude.{
  ℕ, zero, suc, ◌*◌, ◌≤◌, ◌<◌, ◌≡◌, refl, List, [], ◌∷◌, map, arith, length, length-take, take,
  get_or, All, All-append, false, ap, ◌⊎◌,
}
use tp.Prelude.Text.{Text}
use tp.Code.{Unicode, is_space}
use tp.Pins.Lines.{IsToken}
use tp.Identity.{crockford, bits, bits_of, digits, encode_crockford, host_id}

-- A digit or a capital letter.
abbrev pub IsDigitOrCapital : ℕ → Type 0
IsDigitOrCapital c = (b'0' ≤ c) × (c ≤ b'9') ⊎ (b'A' ≤ c) × (c ≤ b'Z')

IsBit : ℕ → Type 0
IsBit b = b < 2

bits-All : (bs : List ℕ) → All IsBit (bits bs)
unfolding bits IsBit
bits-All [] = tt
bits-All (b ∷ bs) =
    All-append (λ n. n < 2) (bits_of b) (bits bs)
      (
        omega arith,
        (
          omega arith,
          (
            omega arith,
            (omega arith, (omega arith, (omega arith, (omega arith, (omega arith, tt))))),
          ),
        ),
      )
      (bits-All bs)

length-bits : (bs : List ℕ) → length (bits bs) ≡ 8 * length bs
unfolding bits
length-bits [] = refl
length-bits (b ∷ bs) = omega (arith, length-bits bs)

digits-All : (bs : List ℕ) → All IsBit bs → All (λ n. n < 32) (digits bs)
unfolding digits IsBit
digits-All [] h = tt
digits-All (a ∷ []) h = (omega arith, tt)
digits-All (a ∷ b ∷ []) h = (omega arith, tt)
digits-All (a ∷ b ∷ c ∷ []) h = (omega arith, tt)
digits-All (a ∷ b ∷ c ∷ d ∷ []) h = (omega arith, tt)
digits-All (a ∷ b ∷ c ∷ d ∷ e ∷ rest) h = (omega arith, digits-All rest h.1.1.1.1.1)

length-digits : (bs : List ℕ) → length bs ≤ 5 * length (digits bs)
unfolding digits
length-digits [] = omega arith
length-digits (a ∷ []) = omega arith
length-digits (a ∷ b ∷ []) = omega arith
length-digits (a ∷ b ∷ c ∷ []) = omega arith
length-digits (a ∷ b ∷ c ∷ d ∷ []) = omega arith
length-digits (a ∷ b ∷ c ∷ d ∷ e ∷ rest) = omega (arith, length-digits rest)

get_or-All : (P : ℕ → Type 0) (xs : List ℕ) (n : ℕ) → All P xs → n < length xs → P (get_or xs n 0)
get_or-All P [] n h k = absurd (omega arith)
get_or-All P (x ∷ xs) zero h k = h.0
get_or-All P (x ∷ xs) (suc n) h k = get_or-All P xs n h.1 (omega arith)

crockford-All : All IsDigitOrCapital crockford
crockford-All = ground arith

letters :
    (ns : List ℕ) → All (λ n. n < 32) ns → All IsDigitOrCapital (map (λ n. get_or crockford n 0) ns)
letters [] h = tt
letters (n ∷ ns) h =
    (get_or-All IsDigitOrCapital crockford n crockford-All (omega arith), letters ns h.1)

All-take {ℓ} : {A : Type ℓ} (P : A → Type 0) (n : ℕ) (xs : List A) → All P xs → All P (take n xs)
All-take P zero xs h = tt
All-take P (suc n) [] h = tt
All-take P (suc n) (x ∷ xs) h = (h.0, All-take P n xs h.1)

length-letters : (f : ℕ → ℕ) (ns : List ℕ) → length (map f ns) ≡ length ns
length-letters f [] = refl
length-letters f (n ∷ ns) = ap suc (length-letters f ns)

-- A host ID has twelve characters, digits and capital letters, whatever the 32 bytes of the sum.
pub host_id_lem :
    (sha256 : List ℕ → List ℕ) (spki : List ℕ)
    → length (sha256 spki) ≡ 32
    → (length (host_id sha256 spki) ≡ 12) × All IsDigitOrCapital (host_id sha256 spki)
unfolding host_id encode_crockford
host_id_lem sha256 spki e = (
  omega (
    arith,
    length-take 12 (map (λ n. get_or crockford n 0) (digits (bits (sha256 spki)))),
    length-letters (λ n. get_or crockford n 0) (digits (bits (sha256 spki))),
    length-digits (bits (sha256 spki)),
    length-bits (sha256 spki),
  ),
  All-take IsDigitOrCapital 12 (map (λ n. get_or crockford n 0) (digits (bits (sha256 spki)))) (
      letters (digits (bits (sha256 spki)))
        (digits-All (bits (sha256 spki)) (bits-All (sha256 spki)))),
)

IsToken-of_letters : (u : Unicode) (s : Text) → length s ≡ 12 → All IsDigitOrCapital s → IsToken u s
unfolding is_space
IsToken-of_letters u [] e h = absurd (omega arith)
IsToken-of_letters u (c ∷ s) e h = no_spaces (c ∷ s) h
  where
    no_spaces : (t : Text) → All IsDigitOrCapital t → All (λ r. is_space u r ≡ false) t
    no_spaces [] k = tt
    no_spaces (r ∷ t) k = (ground arith, no_spaces t k.1)
