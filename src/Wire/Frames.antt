-- ===== src/Wire/Frames.antt =====
-- A frame comes back from the connection as it was written (wire.go).
use tp.Prelude.{
  ℕ, suc, ◌^◌, ◌≤◌, ◌<◌, ◌≡◌, refl, List, ◌++◌, false, arith, ltb, leb, if◌then◌else◌, length, take,
  drop, take-append-drop, take-append, drop-append, length-append, length-take, ap, ◌∙◌, ◌↔◌,
}
use tp.Errors.{protocol_error, ok, err, ◌>>=◌}
use tp.Wire.{write_frame, read_frame, read_full, read_body, put_uint32, get_uint32, max_frame}

get_uint32-put_uint32 : (n : ℕ) → n < 2 ^ 32 → get_uint32 (put_uint32 n) ≡ n
get_uint32-put_uint32 n h = omega arith

pub write_frame_iff :
    (b w : List ℕ)
    → (write_frame b ≡ ok w) ↔ ((length b ≤ max_frame) × (w ≡ put_uint32 (length b) ++ b))
unfolding write_frame
write_frame_iff b w = (λ e. ground arith, λ h. ground arith)

read_body-append :
    (b rest : List ℕ) (limit : ℕ)
    → read_body limit (length b) (b ++ rest)
      ≡ (if leb (length b) limit then ok (b, rest) else err protocol_error)
read_body-append b rest limit =
    rw (take-append b rest, drop-append b rest) (ground (arith, length-append b rest))

read_header : (n : ℕ) (s : List ℕ) → read_full 4 (put_uint32 n ++ s) ≡ ok (put_uint32 n, s)
read_header n s = rw (long') refl
  where
    long' : ltb (suc (suc (suc (suc (length s))))) 4 ≡ false
    long' = ground arith

-- Reading with any limit what `writeFrame` wrote, whatever follows it, gives the frame and what
-- follows if the frame is within the limit, and a protocol error if not.
pub read_frame-write_frame :
    (b w rest : List ℕ) (limit : ℕ)
    → write_frame b ≡ ok w
    → read_frame limit (w ++ rest)
      ≡ (if leb (length b) limit then ok (b, rest) else err protocol_error)
unfolding read_frame
read_frame-write_frame b w rest limit e =
    let (fits, eq) = (write_frame_iff b w).0 e in
    rw (eq) (
      ap (λ r. r >>= λ x. read_body limit (get_uint32 x.0) x.1) (read_header (length b) (b ++ rest))
      ∙ ap (λ n. read_body limit n (b ++ rest)) (get_uint32-put_uint32 (length b) (omega arith))
      ∙ read_body-append b rest limit)

-- A frame that `readFrame` returns is within the limit and is what the connection held behind four
-- bytes of header; what it leaves is the rest of the connection.
pub read_frame_sound :
    (limit : ℕ) (s b rest : List ℕ)
    → read_frame limit s ≡ ok (b, rest)
    → (length b ≤ limit) × (length b ≡ get_uint32 (take 4 s)) × (s ≡ take 4 s ++ (b ++ rest))
unfolding read_frame
read_frame_sound limit s b rest e = ground (
  arith,
  take-append-drop 4 s,
  take-append-drop (get_uint32 (take 4 s)) (drop 4 s),
  length-take (get_uint32 (take 4 s)) (drop 4 s),
)
