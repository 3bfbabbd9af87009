-- ===== src/Pins/Lines.antt =====
-- The lines and fields of a pin file (pins.go).
use tp.Prelude.{
  ℕ, ◌≡◌, refl, ◌≢◌, List, [], ◌∷◌, ◌++◌, true, false, arith, ◌==◌, Bool-cases, inl, inr, ap, ◌∙◌,
  sym, subst, All, All-append,
}
use tp.Prelude.Text.{Text}
use tp.Prelude.Maps.{insert}
use tp.Code.{Unicode, is_space}
use tp.Pins.{
  newline, blank, Pin, Pins, cons_line, split_lines, fields, record_fields, read_lines, pin_line,
}
use mathlib.Core.List.{append_assoc}

-- The text is empty or ends in a newline.
abbrev pub IsEnded : Text → Type 0
IsEnded [] = Unit {0}
IsEnded (c ∷ []) = c ≡ newline
IsEnded (c ∷ d ∷ s) = IsEnded (d ∷ s)

cons_line-ne-nil :
    (c : ℕ) (ls : List Text) → (l : Text) × (ls' : List Text) × (cons_line c ls ≡ l ∷ ls')
cons_line-ne-nil c [] = (c ∷ [], [], refl)
cons_line-ne-nil c (l ∷ ls) = (c ∷ l, ls, refl)

split_lines-ne-nil :
    (c : ℕ) (s : Text) → (l : Text) × (ls : List Text) × (split_lines (c ∷ s) ≡ l ∷ ls)
unfolding split_lines
split_lines-ne-nil c s = elim (Bool-cases (c == newline)) [
  | inl e ↦ (c ∷ [], split_lines s, rw e)
  | inr e ↦ let (l, ls, eq) = cons_line-ne-nil c (split_lines s) in (l, ls, rw e eq)
]

pub split_lines-append :
    (s t : Text) → IsEnded s → split_lines (s ++ t) ≡ split_lines s ++ split_lines t
unfolding split_lines
split_lines-append [] t h = refl
split_lines-append (c ∷ []) t h = ground arith
split_lines-append (c ∷ d ∷ s) t h =
    let ih = split_lines-append (d ∷ s) t h in
    let (l, ls, e) = split_lines-ne-nil d s in ground (arith, ih, e)

-- A word without a newline.
abbrev pub NoNewline : Text → Type 0
NoNewline = All (λ c. c ≢ newline)

pub split_lines-line :
    (l s : Text)
    → NoNewline l
    → split_lines (l ++ (newline ∷ s)) ≡ (l ++ (newline ∷ [])) ∷ split_lines s
unfolding split_lines
split_lines-line [] s h = refl
split_lines-line (c ∷ l) s h = ground (arith, split_lines-line l s h.1)

-- A field: not empty and without spaces.
abbrev pub NoSpace : Unicode → Text → Type 0
NoSpace u = All (λ c. is_space u c ≡ false)

abbrev pub IsToken : Unicode → Text → Type 0
IsToken u [] = ⊥
IsToken u (c ∷ t) = NoSpace u (c ∷ t)

fields_token :
    (u : Unicode) (t s : Text) (d : ℕ)
    → IsToken u t
    → is_space u d ≡ true
    → fields u (t ++ (d ∷ s)) ≡ t ∷ fields u s
unfolding fields
fields_token u [] s d h e = absurd h
fields_token u (c ∷ []) s d h e = ground (arith, h.0)
fields_token u (c ∷ b ∷ t) s d h e =
    let ih : fields u ((b ∷ t) ++ (d ∷ s)) ≡ (b ∷ t) ∷ fields u s =
      fields_token u (b ∷ t) s d h.1 e in
    ground (arith, h.0, h.1.0, ih)

space_blank : (u : Unicode) → is_space u blank ≡ true
unfolding is_space
space_blank u = refl

space_newline : (u : Unicode) → is_space u newline ≡ true
unfolding is_space
space_newline u = refl

-- The fields of a line that `savePin` writes; an empty host name leaves no field.
abbrev pub IsPinLine : Unicode → Text → Pin → Type 0
IsPinLine u id p = IsToken u id × IsToken u p.spki × NoSpace u p.hostname

abbrev name_fields : Text → List Text
name_fields [] = []
name_fields (c ∷ s) = (c ∷ s) ∷ []

fields_name :
    (u : Unicode) (h : Text) → NoSpace u h → fields u (h ++ (newline ∷ [])) ≡ name_fields h
unfolding fields
fields_name u [] n = rw (space_newline u)
fields_name u (c ∷ h) n = fields_token u (c ∷ h) [] newline n (space_newline u)

fields-blank : (u : Unicode) (s : Text) → fields u (blank ∷ s) ≡ fields u s
unfolding fields
fields-blank u s = rw (space_blank u)

pub record_pin_line :
    (u : Unicode) (id : Text) (p : Pin) (pins : Pins)
    → IsPinLine u id p
    → record_fields (fields u (pin_line id p)) pins ≡ insert id p pins
unfolding pin_line
record_pin_line u id p pins h =
    ap (λ fs. record_fields fs pins)
      (fields_token u id (p.spki ++ (blank ∷ (p.hostname ++ (newline ∷ [])))) blank h.0
          (space_blank u)
        ∙ ap (λ fs. id ∷ fs)
            (fields_token u p.spki (p.hostname ++ (newline ∷ [])) blank h.1 (space_blank u)
              ∙ ap (λ fs. p.spki ∷ fs) (fields_name u p.hostname h.2)))
    ∙ recorded p.hostname
  where
    recorded :
        (n : Text)
        → record_fields (id ∷ p.spki ∷ name_fields n) pins
          ≡ insert id (record { spki = p.spki; hostname = n }) pins
    recorded [] = refl
    recorded (c ∷ n) = refl

pub read_lines-append :
    (u : Unicode) (ls ms : List Text) (pins : Pins)
    → read_lines u (ls ++ ms) pins ≡ read_lines u ms (read_lines u ls pins)
unfolding read_lines
read_lines-append u [] ms pins = refl
read_lines-append u (l ∷ ls) ms pins = read_lines-append u ls ms (record_fields (fields u l) pins)

NoSpace-NoNewline : (u : Unicode) (t : Text) → NoSpace u t → NoNewline t
NoSpace-NoNewline u [] h = tt
NoSpace-NoNewline u (c ∷ t) h =
    (λ e. cc (ap (is_space u) e, space_newline u, h.0), NoSpace-NoNewline u t h.1)

IsToken-NoSpace : (u : Unicode) (t : Text) → IsToken u t → NoSpace u t
IsToken-NoSpace u [] h = absurd h
IsToken-NoSpace u (c ∷ t) h = h

-- The line before its newline.
line_body : Text → Pin → Text
line_body id p = id ++ (blank ∷ (p.spki ++ (blank ∷ p.hostname)))

pin_line-body : (id : Text) (p : Pin) → pin_line id p ≡ line_body id p ++ (newline ∷ [])
unfolding pin_line line_body
pin_line-body id p = simp append_assoc

line_body-NoNewline :
    (u : Unicode) (id : Text) (p : Pin) → IsPinLine u id p → NoNewline (line_body id p)
unfolding line_body
line_body-NoNewline u id p h =
    All-append (λ c. c ≢ newline) id _ (NoSpace-NoNewline u id (IsToken-NoSpace u id h.0))
      (
        omega arith,
        All-append (λ c. c ≢ newline) p.spki _
            (NoSpace-NoNewline u p.spki (IsToken-NoSpace u p.spki h.1))
            (omega arith, NoSpace-NoNewline u p.hostname h.2),
      )

-- A line that `savePin` writes is read as one line.
pub split_lines-pin_line :
    (u : Unicode) (id : Text) (p : Pin) (s : Text)
    → IsPinLine u id p
    → split_lines (pin_line id p ++ s) ≡ pin_line id p ∷ split_lines s
split_lines-pin_line u id p s h =
    ap (λ t. split_lines (t ++ s)) (pin_line-body id p)
    ∙ ap split_lines (append_assoc (line_body id p) (newline ∷ []) s)
    ∙ split_lines-line (line_body id p) s (line_body-NoNewline u id p h)
    ∙ ap (λ l. l ∷ split_lines s) (sym (pin_line-body id p))

IsEnded-newline : (l : Text) → IsEnded (l ++ (newline ∷ []))
IsEnded-newline [] = refl
IsEnded-newline (c ∷ []) = refl
IsEnded-newline (c ∷ d ∷ l) = IsEnded-newline (d ∷ l)

pub IsEnded-append : (s t : Text) → IsEnded s → IsEnded t → IsEnded (s ++ t)
IsEnded-append [] t h k = k
IsEnded-append (c ∷ []) [] h k = h
IsEnded-append (c ∷ []) (d ∷ t) h k = k
IsEnded-append (c ∷ d ∷ s) t h k = IsEnded-append (d ∷ s) t h k

pub pin_line-IsEnded : (id : Text) (p : Pin) → IsEnded (pin_line id p)
pin_line-IsEnded id p = subst IsEnded (sym (pin_line-body id p)) (IsEnded-newline (line_body id p))
