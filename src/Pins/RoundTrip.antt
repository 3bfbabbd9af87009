-- ===== src/Pins/RoundTrip.antt =====
-- `savePin` of pins.go against `readPins`.
use tp.Prelude.{
  ℕ, suc, ◌+◌, ◌*◌, ◌≤◌, ◌≡◌, refl, List, [], ◌∷◌, ◌++◌, true, false, Option, none, some, arith,
  if◌then◌else◌, length, Bool-cases, inl, inr, ap, ◌∙◌, sym, All, leb, subst, length-append, ◌⊎◌,
}
use tp.Prelude.Text.{Text, text_eq, text_eq_iff}
use tp.Prelude.Maps.{
  lookup, insert, Distinct, Entries, insert-Distinct, insert-Entries, lookup-insert,
}
use tp.Code.{Unicode, is_space}
use tp.Pins.{
  Pin, Pins, cons_line, split_lines, glue, fields, record_fields, read_lines, read_pins, pin_line,
  write_pins, same_pin, contents, save_pin,
}
use tp.Pins.Lines.{
  IsEnded, split_lines-append, IsToken, NoSpace, IsPinLine, record_pin_line, read_lines-append,
  split_lines-pin_line, IsEnded-append, pin_line-IsEnded,
}
use mathlib.Core.List.{append_assoc, append-nil}

-- Whatever the text, its fields have no spaces and are not empty.
glue-tokens :
    (u : Unicode) (c : ℕ) (s : Text) (fs : List Text)
    → is_space u c ≡ false
    → All (IsToken u) fs
    → All (IsToken u) (glue u c s fs)
glue-tokens u c [] fs h k = ((h, tt), k)
glue-tokens u c (d ∷ s) fs h k = elim (Bool-cases (is_space u d)) [
  | inl e ↦ rw e ((h, tt), k)
  | inr e ↦ rw e (joined fs k)
]
  where
    joined : (fs : List Text) → All (IsToken u) fs → All (IsToken u) (cons_line c fs)
    joined [] k = ((h, tt), tt)
    joined ([] ∷ fs) k = absurd k.0
    joined ((x ∷ f) ∷ fs) k = ((h, k.0), k.1)

fields-tokens : (u : Unicode) (s : Text) → All (IsToken u) (fields u s)
unfolding fields
fields-tokens u [] = tt
fields-tokens u (c ∷ s) = elim (Bool-cases (is_space u c)) [
  | inl e ↦ rw e (fields-tokens u s)
  | inr e ↦ rw e (glue-tokens u c s (fields u s) e (fields-tokens u s))
]

IsToken-NoSpace : (u : Unicode) (t : Text) → IsToken u t → NoSpace u t
IsToken-NoSpace u [] h = absurd h
IsToken-NoSpace u (c ∷ t) h = h

record-Entries :
    (u : Unicode) (fs : List Text) (pins : Pins)
    → All (IsToken u) fs
    → Entries (IsPinLine u) pins × Distinct pins
    → Entries (IsPinLine u) (record_fields fs pins) × Distinct (record_fields fs pins)
record-Entries u [] pins k h = h
record-Entries u (id ∷ []) pins k h = h
record-Entries u (id ∷ key ∷ []) pins k h =
    (insert-Entries (IsPinLine u) id _ pins h.0 (k.0, k.1.0, tt), insert-Distinct id _ pins h.1)
record-Entries u (id ∷ key ∷ n ∷ fs) pins k h = (
  insert-Entries (IsPinLine u) id _ pins h.0 (k.0, k.1.0, IsToken-NoSpace u n k.1.1.0),
  insert-Distinct id _ pins h.1,
)

read_lines-Entries :
    (u : Unicode) (ls : List Text) (pins : Pins)
    → Entries (IsPinLine u) pins × Distinct pins
    → Entries (IsPinLine u) (read_lines u ls pins) × Distinct (read_lines u ls pins)
unfolding read_lines
read_lines-Entries u [] pins h = h
read_lines-Entries u (l ∷ ls) pins h =
    read_lines-Entries u ls (record_fields (fields u l) pins)
      (record-Entries u (fields u l) pins (fields-tokens u l) h)

-- Whatever the file holds, the pins read from it have distinct hosts and can be written back as lines.
pub read_pins-Entries :
    (u : Unicode) (file : Option Text)
    → Entries (IsPinLine u) (read_pins u file).0 × Distinct (read_pins u file).0
unfolding read_pins
read_pins-Entries u none = (tt, tt)
read_pins-Entries u (some text) = read_lines-Entries u (split_lines text) [] (tt, tt)

-- None of the keys is in the map.
abbrev Fresh : Pins → Pins → Type 0
Fresh base = Entries (λ k p. lookup k base ≡ none)

insert_fresh :
    (k : Text) (p : Pin) (base : Pins)
    → lookup k base ≡ none
    → insert k p base ≡ base ++ ((k, p) ∷ [])
unfolding insert lookup
insert_fresh k p [] h = refl
insert_fresh k p ((j, q) ∷ base) h = ground (arith, insert_fresh k p base)

lookup-snoc :
    (k j : Text) (p : Pin) (base : Pins)
    → lookup k base ≡ none
    → text_eq j k ≡ false
    → lookup k (base ++ ((j, p) ∷ [])) ≡ none
unfolding lookup
lookup-snoc k j p [] h e = rw e
lookup-snoc k j p ((i, q) ∷ base) h e = ground (arith, lookup-snoc k j p base)

Fresh-snoc :
    (id : Text) (p : Pin) (base pins : Pins)
    → Fresh base pins
    → lookup id pins ≡ none
    → Fresh (base ++ ((id, p) ∷ [])) pins
unfolding lookup
Fresh-snoc id p base [] h e = tt
Fresh-snoc id p base ((k, q) ∷ pins) h e = (
  lookup-snoc k id p base h.0 (ground (arith, text_eq_iff id k, text_eq_iff k id)),
  Fresh-snoc id p base pins h.1 (ground arith),
)

read_write :
    (u : Unicode) (pins base : Pins)
    → Entries (IsPinLine u) pins
    → Distinct pins
    → Fresh base pins
    → (read_lines u (split_lines (write_pins pins)) base ≡ base ++ pins)
      × (length (split_lines (write_pins pins)) ≡ length pins)
unfolding write_pins read_lines
read_write u [] base h d f =
    (unfold split_lines in sym (append-nil base), unfold split_lines in refl)
read_write u ((id, p) ∷ pins) base h d f =
    let one = split_lines-pin_line u id p (write_pins pins) h.0 in
    let (ih, n) =
      read_write u pins (base ++ ((id, p) ∷ [])) h.1 d.1 (Fresh-snoc id p base pins f.1 d.0) in
    (
      ap (λ ls. read_lines u ls base) one
          ∙ ap (λ b. read_lines u (split_lines (write_pins pins)) b)
              (record_pin_line u id p base h.0 ∙ insert_fresh id p base f.0)
          ∙ ih
          ∙ append_assoc base ((id, p) ∷ []) pins,
      ap length one ∙ ap suc n,
    )

Fresh-nil : (pins : Pins) → Fresh [] pins
unfolding lookup
Fresh-nil [] = tt
Fresh-nil ((k, p) ∷ pins) = (refl, Fresh-nil pins)

-- Compaction loses nothing: `readPins` gives back the pins that `writePins` wrote, one a line.
pub read_pins-write_pins :
    (u : Unicode) (pins : Pins)
    → Entries (IsPinLine u) pins
    → Distinct pins
    → read_pins u (some (write_pins pins)) ≡ (pins, length pins)
unfolding read_pins
read_pins-write_pins u pins h d =
    let (a, b) = read_write u pins [] h d (Fresh-nil pins) in λ i. (a i, b i)

one_line :
    (u : Unicode) (id : Text) (p : Pin)
    → IsPinLine u id p
    → split_lines (pin_line id p) ≡ pin_line id p ∷ []
one_line u id p h =
    ap split_lines (sym (append-nil (pin_line id p)))
    ∙ split_lines-pin_line u id p [] h
    ∙ ap (λ ls. pin_line id p ∷ ls) (unfold split_lines in refl)

read_line-append :
    (u : Unicode) (id : Text) (p : Pin) (text : Text)
    → IsPinLine u id p
    → IsEnded text
    → (read_lines u (split_lines (text ++ pin_line id p)) []
        ≡ insert id p (read_lines u (split_lines text) []))
      × (length (split_lines (text ++ pin_line id p)) ≡ length (split_lines text) + 1)
unfolding read_lines
read_line-append u id p text h e = (
  ap (λ ls. read_lines u ls []) lines
      ∙ read_lines-append u (split_lines text) (pin_line id p ∷ []) []
      ∙ record_pin_line u id p (read_lines u (split_lines text) []) h,
  ap length lines ∙ length-append (split_lines text) (pin_line id p ∷ []) ∙ omega arith,
)
  where
    lines : split_lines (text ++ pin_line id p) ≡ split_lines text ++ (pin_line id p ∷ [])
    lines =
        split_lines-append text (pin_line id p) e
        ∙ ap (λ ls. split_lines text ++ ls) (one_line u id p h)

-- Appending a line to a text that is empty or ends in a newline inserts its pin.
pub read_pins-append :
    (u : Unicode) (id : Text) (p : Pin) (file : Option Text)
    → IsPinLine u id p
    → IsEnded (contents file)
    → read_pins u (some (contents file ++ pin_line id p))
      ≡ (insert id p (read_pins u file).0, (read_pins u file).1 + 1)
unfolding read_pins
read_pins-append u id p none h e =
    let (a, b) = read_line-append u id p [] h tt in λ i. ((a ∙ nothing) i, (b ∙ zero_lines) i)
  where
    nothing : insert id p (read_lines u (split_lines []) []) ≡ insert id p []
    nothing = unfold read_lines split_lines in refl

    zero_lines : length (split_lines []) + 1 ≡ 0 + 1
    zero_lines = unfold split_lines in refl
read_pins-append u id p (some text) h e =
    let (a, b) = read_line-append u id p text h e in λ i. (a i, b i)

write_pins-IsEnded : (pins : Pins) → IsEnded (write_pins pins)
unfolding write_pins
write_pins-IsEnded [] = tt
write_pins-IsEnded ((id, p) ∷ pins) =
    IsEnded-append (pin_line id p) (write_pins pins) (pin_line-IsEnded id p)
      (write_pins-IsEnded pins)

-- What `savePin` leaves: a file that ends its last line, holds the saved pin and every other pin
-- as before, and is unchanged or has at most twice as many lines as pins.
pub record IsSaved (u : Unicode) (id : Text) (p : Pin) (file file' : Option Text) : Type 0 where
  pub ended : IsEnded (contents file')
  pub pins :
      (k : Text)
      → lookup k (read_pins u file').0
        ≡ (if text_eq id k then some p else lookup k (read_pins u file).0)
  pub bounded : (file' ≡ file) ⊎ ((read_pins u file').1 ≤ 2 * length (read_pins u file').0)

same_pin_sound : (p : Pin) (o : Option Pin) → same_pin p o ≡ true → o ≡ some p
same_pin_sound p none e = cc
same_pin_sound p (some q) e =
    ground (arith, text_eq_iff q.spki p.spki, text_eq_iff q.hostname p.hostname)

-- On a file that is missing, empty or ends in a newline and may be written, saving a pin in field
-- characters succeeds, and afterwards `readPins` returns that pin for its host and for every other
-- host what it returned before, whether the pin was there already, the file was compacted or a line
-- was appended; unless it was left alone, the file has at most twice as many lines as pins.
pub save_pin-IsSaved :
    (u : Unicode) (id : Text) (p : Pin) (file : Option Text)
    → IsPinLine u id p
    → IsEnded (contents file)
    → (file' : Option Text) × (save_pin u true id p file ≡ some file') × IsSaved u id p file file'
unfolding save_pin
save_pin-IsSaved u id p file h e = elim (Bool-cases (same_pin p (lookup id old))) [
  | inl known ↦ (
    file,
    rw known,
    record {
      ended = e;
      pins = λ k. elim (Bool-cases (text_eq id k)) [
        | inl same ↦ rw same (
            ap (λ j. lookup j old) (sym ((text_eq_iff id k).0 same))
            ∙ same_pin_sound p (lookup id old) known)
        | inr other ↦ rw other
      ];
      bounded = inl refl;
    },
  )
  | inr new ↦ elim (Bool-cases (leb (2 * length pins') (read_pins u file).1)) [
    | inl stale ↦ (
      some (write_pins pins'),
      rw (new, stale),
      record {
        ended = write_pins-IsEnded pins';
        pins = λ k. ap (λ (r : Pins × ℕ). lookup k r.0) compacted ∙ lookup-insert id k p old;
        bounded =
            inr (subst (λ (r : Pins × ℕ). r.1 ≤ 2 * length r.0) (sym compacted) (omega arith));
      },
    )
    | inr room ↦ (
      some (contents file ++ pin_line id p),
      rw (new, room),
      record {
        ended = IsEnded-append (contents file) (pin_line id p) e (pin_line-IsEnded id p);
        pins = λ k. ap (λ (r : Pins × ℕ). lookup k r.0) appended ∙ lookup-insert id k p old;
        bounded =
            inr (
              subst (λ (r : Pins × ℕ). r.1 ≤ 2 * length r.0) (sym appended) (ground (arith, room)));
      },
    )
  ]
]
  where
    old : Pins
    old = (read_pins u file).0

    pins' : Pins
    pins' = insert id p old

    compacted : read_pins u (some (write_pins pins')) ≡ (pins', length pins')
    compacted =
        read_pins-write_pins u pins'
          (insert-Entries (IsPinLine u) id p old (read_pins-Entries u file).0 h)
          (insert-Distinct id p old (read_pins-Entries u file).1)

    appended :
        read_pins u (some (contents file ++ pin_line id p)) ≡ (pins', (read_pins u file).1 + 1)
    appended = read_pins-append u id p file h e
