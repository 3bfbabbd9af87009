-- ===== src/Wire.antt =====
-- wire.go: the length prefixed frames of the data plane. A connection is the list of the bytes that
-- are still to be read; io.ReadFull fails where they run out.
use tp.Prelude.{
  ℕ, zero, suc, ◌+◌, ◌-◌, ◌*◌, ◌/◌, ◌%◌, ◌^◌, List, [], ◌∷◌, ◌++◌, Bool, true, false, not, Option,
  none, some, ltb, leb, if◌then◌else◌, length, take, drop,
}
use tp.Errors.{Error, protocol_error, io_error, Result, ok, err, ◌>>=◌, ◌>>◌, require}
use tp.Store.{max_paste_size, max_candidates}
pub mod Frames
mod Runs

abbrev pub wire_version : ℕ
wire_version = 1

abbrev pub point_len : ℕ
point_len = 32

abbrev pub mac_len : ℕ
mac_len = 32

abbrev pub hello_len : ℕ
hello_len = 1 + point_len

abbrev pub max_frame : ℕ
max_frame = max_paste_size + 64 * 1024

abbrev pub max_offer_len : ℕ
max_offer_len = 2 + max_candidates * (point_len + mac_len)

-- `binary.BigEndian.PutUint32` of `uint32(n)`.
abbrev pub put_uint32 : ℕ → List ℕ
put_uint32 n = (n / 2 ^ 24) % 256 ∷ (n / 2 ^ 16) % 256 ∷ (n / 2 ^ 8) % 256 ∷ n % 256 ∷ []

-- The bytes that `writeFrame` writes to a connection that takes them.
unfoldable pub write_frame : List ℕ → Result (List ℕ)
write_frame b =
    if ltb max_frame (length b) then err protocol_error else ok (put_uint32 (length b) ++ b)

-- `io.ReadFull` of `n` bytes: those bytes and the rest of the connection.
abbrev pub read_full : ℕ → List ℕ → Result (List ℕ × List ℕ)
read_full n s = if ltb (length s) n then err io_error else ok (take n s, drop n s)

-- `binary.BigEndian.Uint32`
abbrev pub get_uint32 : List ℕ → ℕ
get_uint32 (a ∷ b ∷ c ∷ d ∷ s) = a * 2 ^ 24 + b * 2 ^ 16 + c * 2 ^ 8 + d
get_uint32 s = 0

abbrev read_body : ℕ → ℕ → List ℕ → Result (List ℕ × List ℕ)
read_body limit n s = if ltb limit n then err protocol_error else read_full n s

unfoldable pub read_frame : ℕ → List ℕ → Result (List ℕ × List ℕ)
read_frame limit s = do (hdr, s') ← read_full 4 s; read_body limit (get_uint32 hdr) s'
