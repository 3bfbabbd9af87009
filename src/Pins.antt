-- ===== src/Pins.antt =====
-- pins.go: the file known_hosts, which records the keys of hosts after a fetch. A file is its text,
-- a list of code points, or none if it cannot be read. Paths and file modes are left out.
use tp.Prelude.{
  ℕ, zero, suc, ◌+◌, ◌*◌, List, [], ◌∷◌, ◌++◌, Bool, true, false, not, ◌&&◌, Option, none, some,
  ltb, leb, ◌==◌, if◌then◌else◌, length,
}
use tp.Prelude.Text.{Text, text_eq}
use tp.Prelude.Maps.{lookup, insert}
use tp.Code.{Unicode, is_space}
pub mod Lines
pub mod RoundTrip
pub mod Injection
mod Runs

abbrev pub newline : ℕ
newline = 10

abbrev pub blank : ℕ
blank = 32

pub record Pin : Type 0 where
  pub spki : Text
  pub hostname : Text

abbrev pub Pins : Type 0
Pins = List (Text × Pin)

abbrev cons_line : ℕ → List Text → List Text
cons_line c [] = (c ∷ []) ∷ []
cons_line c (l ∷ ls) = (c ∷ l) ∷ ls

-- `strings.Lines`: each line with its newline.
unfoldable pub split_lines : Text → List Text
split_lines [] = []
split_lines (c ∷ s) =
    let rest = split_lines s in if c == newline then (c ∷ []) ∷ rest else cons_line c rest

abbrev glue : Unicode → ℕ → Text → List Text → List Text
glue u c [] fs = (c ∷ []) ∷ fs
glue u c (d ∷ s) fs = if is_space u d then (c ∷ []) ∷ fs else cons_line c fs

-- `strings.Fields`
unfoldable pub fields : Unicode → Text → List Text
fields u [] = []
fields u (c ∷ s) = let rest = fields u s in if is_space u c then rest else glue u c s rest

abbrev host_of : List Text → Text
host_of [] = []
host_of (h ∷ fs) = h

abbrev record_fields : List Text → Pins → Pins
record_fields [] pins = pins
record_fields (id ∷ []) pins = pins
record_fields (id ∷ key ∷ fs) pins = insert id (record { spki = key; hostname = host_of fs }) pins

-- The loop of `readPins` over the lines.
unfoldable pub read_lines : Unicode → List Text → Pins → Pins
unfolding fields
read_lines u [] pins = pins
read_lines u (l ∷ ls) pins = read_lines u ls (record_fields (fields u l) pins)

-- The pins and the number of physical lines.
unfoldable pub read_pins : Unicode → Option Text → Pins × ℕ
unfolding read_lines split_lines
read_pins u none = ([], 0)
read_pins u (some text) = (read_lines u (split_lines text) [], length (split_lines text))

-- `fmt.Fprintf(f, "%s %s %s\n", id, p.SPKI, p.Hostname)`
unfoldable pub pin_line : Text → Pin → Text
pin_line id p = id ++ (blank ∷ (p.spki ++ (blank ∷ (p.hostname ++ (newline ∷ [])))))

-- What `writePins` writes; Go ranges over the map in any order, here in that of the list.
unfoldable pub write_pins : Pins → Text
unfolding pin_line
write_pins [] = []
write_pins ((id, p) ∷ pins) = pin_line id p ++ write_pins pins

abbrev pin_eq : Pin → Pin → Bool
pin_eq p q = text_eq p.spki q.spki && text_eq p.hostname q.hostname

abbrev pub same_pin : Pin → Option Pin → Bool
same_pin p none = false
same_pin p (some old) = pin_eq old p

-- Opened for appending, a missing file is created.
abbrev pub contents : Option Text → Text
contents none = []
contents (some text) = text

-- The file after `savePin`, or none where the file system refuses a write.
unfoldable pub save_pin : Unicode → Bool → Text → Pin → Option Text → Option (Option Text)
unfolding read_pins write_pins
save_pin u writable host_id p file =
    let (pins, lines) = read_pins u file in
    let pins' : Pins = insert host_id p pins in
    if same_pin p (lookup host_id pins)
    then some file
    else if not writable
    then none
    else if leb (2 * length pins') lines
    then some (some (write_pins pins'))
    else some (some (contents file ++ pin_line host_id p))
