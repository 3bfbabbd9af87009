-- ===== src/Identity/Runs.antt =====
-- Host IDs (identity.go).
use tp.Prelude.{◌≡◌, refl}
use tp.Prelude.Text.{codes}
use tp.Identity.{encode_crockford, bits, digits}

-- The bytes of "foobar", whose base32 text is MZXW6YTBOI in the alphabet of RFC 4648.
six_bytes : encode_crockford (codes "foobar") ≡ codes "CSQPYRK1E8"
unfolding encode_crockford bits digits
six_bytes = refl
