-- ===== src/Pins/Injection.antt =====
-- `savePin` of pins.go with a host name from the network: fetch.go passes on the name that a peer
-- announced, and a TXT record may hold any bytes.
use tp.Prelude.{ℕ, ◌*◌, ◌≡◌, ◌∷◌, ◌++◌, true, false, Option, some, leb, length, ap, ◌∙◌, sym}
use tp.Prelude.Text.{Text, text_eq_refl}
use tp.Prelude.Maps.{lookup, insert, lookup-insert}
use tp.Code.{Unicode}
use tp.Pins.{newline, blank, Pin, Pins, read_pins, pin_line, same_pin, contents, save_pin}
use tp.Pins.Lines.{IsEnded, IsPinLine, IsEnded-append, pin_line-IsEnded}
use tp.Pins.RoundTrip.{read_pins-append}
use mathlib.Core.List.{append_assoc}

-- A host name that holds the end of its own line and a second line.
abbrev pub two_lines : Text → Text → Pin → Text
two_lines name victim planted =
    name ++ (newline ∷ (victim ++ (blank ∷ (planted.spki ++ (blank ∷ planted.hostname)))))

abbrev pub named : Text → Text → Pin
named key name = record { spki = key; hostname = name }

pin_line-two_lines :
    (id key name victim : Text) (planted : Pin)
    → pin_line id (named key (two_lines name victim planted))
      ≡ pin_line id (named key name) ++ pin_line victim planted
unfolding pin_line
pin_line-two_lines id key name victim planted = simp append_assoc

-- A saved host name with a newline writes a pin for a host that was not authenticated: where the line
-- is appended, `readPins` afterwards returns the planted key for the other host.
pub save_pin_plants :
    (u : Unicode) (id key name victim : Text) (planted : Pin) (file : Option Text)
    → IsPinLine u id (named key name)
    → IsPinLine u victim planted
    → IsEnded (contents file)
    → same_pin (named key (two_lines name victim planted)) (lookup id (read_pins u file).0) ≡ false
    → leb
        (2 * length (insert id (named key (two_lines name victim planted)) (read_pins u file).0))
        (read_pins u file).1
      ≡ false
    → (file' : Option Text) × (save_pin u true id (named key (two_lines name victim planted)) file
        ≡ some file')
      × (lookup victim (read_pins u file').0 ≡ some planted)
unfolding save_pin
save_pin_plants u id key name victim planted file h k e new room = (
  some (contents file ++ pin_line id (named key (two_lines name victim planted))),
  rw (new, room),
  ap (λ t. lookup victim (read_pins u (some t)).0) split_line
      ∙ ap (λ (r : Pins × ℕ). lookup victim r.0)
          (read_pins-append u victim planted (some (contents file ++ pin_line id (named key name)))
            k
            (IsEnded-append (contents file) (pin_line id (named key name)) e
              (pin_line-IsEnded id (named key name))))
      ∙ lookup-insert victim victim planted
          (read_pins u (some (contents file ++ pin_line id (named key name)))).0
      ∙ rw (text_eq_refl victim),
)
  where
    split_line :
        contents file ++ pin_line id (named key (two_lines name victim planted))
        ≡ (contents file ++ pin_line id (named key name)) ++ pin_line victim planted
    split_line =
        ap (λ t. contents file ++ t) (pin_line-two_lines id key name victim planted)
        ∙ sym
            (append_assoc (contents file) (pin_line id (named key name)) (pin_line victim planted))
