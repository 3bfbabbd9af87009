-- ===== src/Hex.antt =====
-- encoding/hex as store.go (`pasteKey`) and daemon.go (`handleDelete`) use it: EncodeToString
-- writes two lower case digits for each byte, DecodeString reads them in either case.
use tp.Prelude.{
  ℕ, ◌+◌, ◌-◌, ◌*◌, ◌/◌, ◌%◌, ◌<◌, ◌≡◌, refl, List, [], ◌∷◌, Option, none, some, arith, leb, ltb,
  if◌then◌else◌, ◌&&◌, All,
}
use tp.Prelude.Text.{Text, IsByte}

abbrev hex_digit : ℕ → ℕ
hex_digit n = if ltb n 10 then n + b'0' else n + 87

unfoldable pub hex_encode : List ℕ → Text
hex_encode [] = []
hex_encode (b ∷ bs) = hex_digit (b / 16) ∷ hex_digit (b % 16) ∷ hex_encode bs

abbrev hex_value : ℕ → Option ℕ
hex_value c =
    if leb b'0' c && leb c b'9'
    then some (c - b'0')
    else if leb b'a' c && leb c b'f'
    then some (c - 87)
    else if leb b'A' c && leb c b'F'
    then some (c - 55)
    else none

abbrev byte_of : Option ℕ → Option ℕ → Option (List ℕ) → Option (List ℕ)
byte_of none lo rest = none
byte_of (some h) none rest = none
byte_of (some h) (some l) none = none
byte_of (some h) (some l) (some bs) = some ((h * 16 + l) ∷ bs)

unfoldable pub hex_decode : Text → Option (List ℕ)
hex_decode [] = some []
hex_decode (h ∷ []) = none
hex_decode (h ∷ l ∷ s) = byte_of (hex_value h) (hex_value l) (hex_decode s)

hex_value-hex_digit : (n : ℕ) → n < 16 → hex_value (hex_digit n) ≡ some n
hex_value-hex_digit n h = ground arith

-- Decoding a key gives the bytes that it was made of.
pub hex_decode-hex_encode : (bs : List ℕ) → All IsByte bs → hex_decode (hex_encode bs) ≡ some bs
unfolding hex_encode hex_decode
hex_decode-hex_encode [] h = refl
hex_decode-hex_encode (b ∷ bs) h =
    rw
      (
        hex_value-hex_digit (b / 16) (omega arith),
        hex_value-hex_digit (b % 16) (omega arith),
        hex_decode-hex_encode bs h.1,
      )
      (ground arith)

-- So two byte strings with one key are equal.
pub hex_encode-injective :
    (a b : List ℕ) → All IsByte a → All IsByte b → hex_encode a ≡ hex_encode b → a ≡ b
hex_encode-injective a b ha hb e = cc (hex_decode-hex_encode a ha, hex_decode-hex_encode b hb)
