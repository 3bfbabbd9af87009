-- ===== src/Commands/Flags.antt =====
-- The flags of `tp post` (commands.go) as the daemon reads them back (daemon.go, parsePostOptions).
use tp.Prelude.{
  ℕ, zero, suc, ◌≡◌, refl, ◌≢◌, [], ◌∷◌, true, false, ◌||◌, Bool, Option, none, some, arith, leb,
  ap, ◌∙◌, subst, inl, inr, Bool-cases, if◌then◌else◌,
}
use tp.Prelude.Int.{ℤ, pos, negsuc}
use tp.Prelude.Text.{Text, codes, text_eq}
use tp.Store.{default_ttl, max_ttl}
use tp.Control.{
  Parsers, Query, options_of, ttl_of, gets_of, ttl_value, gets_value, parse_post_options,
}
use tp.Commands.{Printers, PostFlags, query_of, post_query, unless_zero}

-- What is printed is not empty, and is read back as it was.
pub record Reads (pr : Printers) (ps : Parsers) : Type 0 where
  pub duration_shown : (t : ℤ) → pr.duration_string t ≢ []
  pub duration_read : (t : ℤ) → ps.parse_duration (pr.duration_string t) ≡ some t
  pub number_shown : (n : ℤ) → pr.itoa n ≢ []
  pub number_read : (n : ℤ) → ps.atoi (pr.itoa n) ≡ some n

-- The lifetime that the flags ask for; none where they are refused.
abbrev pub asked_ttl : ℤ → Option ℕ
asked_ttl (pos zero) = some default_ttl
asked_ttl (pos (suc n)) = if leb (suc n) max_ttl then some (suc n) else none
asked_ttl (negsuc n) = none

abbrev pub asked_gets : Bool → ℤ → Option ℕ
asked_gets burn (pos n) = if burn then some 1 else some n
asked_gets burn (negsuc n) = if burn then some 1 else none

ttl_read :
    (ps : Parsers) (v : Text) (t : ℤ)
    → v ≢ []
    → ps.parse_duration v ≡ some t
    → ttl_of ps v ≡ ttl_value (some t)
ttl_read ps [] t shown read = absurd (shown refl)
ttl_read ps (c ∷ v) t shown read = ap ttl_value read

gets_read :
    (ps : Parsers) (v : Text) (n : ℤ)
    → v ≢ []
    → ps.atoi v ≡ some n
    → gets_of ps v ≡ gets_value (some n)
gets_read ps [] n shown read = absurd (shown refl)
gets_read ps (c ∷ v) n shown read = ap gets_value read

sent_ttl :
    (pr : Printers) (ps : Parsers) (t : ℤ)
    → Reads pr ps
    → ttl_of ps (unless_zero pr.duration_string t) ≡ asked_ttl t
sent_ttl pr ps (pos zero) r = refl
sent_ttl pr ps (pos (suc n)) r =
    ttl_read ps (pr.duration_string (pos (suc n))) (pos (suc n)) (r.duration_shown (pos (suc n)))
      (r.duration_read (pos (suc n)))
    ∙ ground arith
sent_ttl pr ps (negsuc n) r =
    ttl_read ps (pr.duration_string (negsuc n)) (negsuc n) (r.duration_shown (negsuc n))
      (r.duration_read (negsuc n))

sent_number :
    (pr : Printers) (ps : Parsers) (n : ℤ)
    → Reads pr ps
    → gets_of ps (unless_zero pr.itoa n) ≡ gets_value (some n)
sent_number pr ps (pos zero) r = refl
sent_number pr ps (pos (suc n)) r =
    gets_read ps (pr.itoa (pos (suc n))) (pos (suc n)) (r.number_shown (pos (suc n)))
      (r.number_read (pos (suc n)))
sent_number pr ps (negsuc n) r =
    gets_read ps (pr.itoa (negsuc n)) (negsuc n) (r.number_shown (negsuc n))
      (r.number_read (negsuc n))

sent_gets :
    (pr : Printers) (ps : Parsers) (burn : Bool) (n : ℤ)
    → Reads pr ps
    → gets_of ps (unless_zero pr.itoa (if burn then pos 1 else n)) ≡ asked_gets burn n
sent_gets pr ps true (pos n) r = sent_number pr ps (pos 1) r
sent_gets pr ps true (negsuc n) r = sent_number pr ps (pos 1) r
sent_gets pr ps false (pos n) r = sent_number pr ps (pos n) r
sent_gets pr ps false (negsuc n) r = sent_number pr ps (negsuc n) r

-- The daemon reads from the query of `tp post` the lifetime and the number of fetches that the flags ask
-- for, and refuses what it has to: no lifetime is an hour, any other lifetime has to be positive and at
-- most a day, a number of fetches must not be negative, and --burn is one fetch whatever that number is;
-- where what package time and strconv print is read back as it was, and is not empty.
pub parse_post_options-post_query :
    (pr : Printers) (ps : Parsers) (f : PostFlags) (q : Query)
    → Reads pr ps
    → post_query pr f ≡ some q
    → parse_post_options ps q ≡ options_of (asked_ttl f.ttl) (asked_gets f.burn f.max_gets)
unfolding post_query parse_post_options
parse_post_options-post_query pr ps f q r e =
    elim (Bool-cases (text_eq f.style (codes "words") || text_eq f.style (codes "digits"))) [
      | inl known ↦
          let same : query_of pr f ≡ q = cc (rw known at e) in
          subst
            (λ (x : Query).
              options_of (ttl_of ps x.ttl) (gets_of ps x.max_gets)
              ≡ options_of (asked_ttl f.ttl) (asked_gets f.burn f.max_gets))
            same
            (ap
                (λ t.
                  options_of t
                    (gets_of ps (unless_zero pr.itoa (if f.burn then pos 1 else f.max_gets))))
                (sent_ttl pr ps f.ttl r)
              ∙ ap (options_of (asked_ttl f.ttl)) (sent_gets pr ps f.burn f.max_gets r))
      | inr unknown ↦ cc (rw unknown at e)
    ]
