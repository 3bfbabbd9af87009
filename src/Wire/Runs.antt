-- ===== src/Wire/Runs.antt =====
-- Frames of wire.go on a short connection.
use tp.Prelude.{ℕ, ◌≡◌, refl, List, [], ◌∷◌, ◌++◌, length, leb, if◌then◌else◌}
use tp.Errors.{protocol_error, ok, err}
use tp.Wire.{write_frame, read_frame}
use tp.Wire.Frames.{read_frame-write_frame}

abbrev body : List ℕ
body = 5 ∷ 6 ∷ []

abbrev on_wire : List ℕ
on_wire = 0 ∷ 0 ∷ 0 ∷ 2 ∷ 5 ∷ 6 ∷ []

written : write_frame body ≡ ok on_wire
unfolding write_frame
written = refl

read_back : read_frame 10 (on_wire ++ (7 ∷ [])) ≡ ok (body, 7 ∷ [])
unfolding read_frame
read_back = refl

read_frame-write_frame_example :
    read_frame 10 (on_wire ++ (7 ∷ []))
    ≡ (if leb (length body) 10 then ok (body, 7 ∷ []) else err protocol_error)
read_frame-write_frame_example = read_frame-write_frame body on_wire (7 ∷ []) 10 written
