-- ===== src/Pins/Runs.antt =====
-- A file of pins with one host, in pins.go's format.
use tp.Prelude.{◌≡◌, refl, [], ◌∷◌, true, false, Option, some, arith}
use tp.Prelude.Text.{Text, codes, text_eq}
use tp.Prelude.Maps.{lookup, insert}
use tp.Code.{Unicode, is_space}
use tp.Pins.{Pin, read_pins, write_pins, save_pin, read_lines, split_lines, fields}
use tp.Pins.Lines.{IsPinLine}
use tp.Pins.RoundTrip.{read_pins-write_pins, save_pin-IsSaved, IsSaved}
use tp.Pins.Injection.{save_pin_plants, two_lines, named}

abbrev ascii : Unicode
ascii = record { lower_rune = λ r. r; is_space_rune = λ r. false }

abbrev pin : Pin
pin = record { spki = codes "k1"; hostname = codes "box" }

abbrev forged : Pin
forged = record { spki = codes "k9"; hostname = codes "bank" }

abbrev file : Option Text
file = some (codes "id1 k1 box\n")

one_pin : read_pins ascii file ≡ ((codes "id1", pin) ∷ [], 1)
unfolding read_pins read_lines split_lines fields is_space insert text_eq
one_pin = refl

pin-IsPinLine : IsPinLine ascii (codes "id1") pin
unfolding is_space
pin-IsPinLine = ground arith

forged-IsPinLine : IsPinLine ascii (codes "id2") forged
unfolding is_space
forged-IsPinLine = ground arith

mallory-IsPinLine : IsPinLine ascii (codes "id3") (named (codes "k3") (codes "mal"))
unfolding is_space
mallory-IsPinLine = ground arith

save_pin-IsSaved_example :
    (file' : Option Text) × (save_pin ascii true (codes "id2") forged file ≡ some file')
    × IsSaved ascii (codes "id2") forged file file'
save_pin-IsSaved_example = save_pin-IsSaved ascii (codes "id2") forged file forged-IsPinLine refl

read_pins-write_pins_example :
    read_pins ascii (some (write_pins ((codes "id1", pin) ∷ []))) ≡ ((codes "id1", pin) ∷ [], 1)
unfolding lookup
read_pins-write_pins_example =
    read_pins-write_pins ascii ((codes "id1", pin) ∷ []) (pin-IsPinLine, tt) (refl, tt)

save_pin_plants_example :
    (file' : Option Text) × (save_pin ascii true
        (codes "id3")
        (named (codes "k3") (two_lines (codes "mal") (codes "id2") forged))
        file
      ≡ some file')
    × (lookup (codes "id2") (read_pins ascii file').0 ≡ some forged)
save_pin_plants_example =
    save_pin_plants ascii (codes "id3") (codes "k3") (codes "mal") (codes "id2") forged file
      mallory-IsPinLine forged-IsPinLine refl
      (unfold read_pins read_lines split_lines fields is_space insert text_eq lookup in refl)
      (unfold read_pins read_lines split_lines fields is_space insert text_eq lookup in refl)
