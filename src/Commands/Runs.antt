-- ===== src/Commands/Runs.antt =====
-- `tp post`, `tp get` and `tp del` on one digit code (commands.go).
use tp.Prelude.{
  ℕ, ◌≡◌, refl, ◌≢◌, List, [], ◌∷◌, Bool, true, false, Option, none, some, arith, All,
  if◌then◌else◌, length, zero, suc, ◌+◌,
}
use tp.Prelude.Int.{ℤ, pos, negsuc}
use tp.Prelude.Text.{Text, codes, text_eq, IsByte}
use tp.Prelude.Maps.{lookup, insert}
use tp.Code.{
  Unicode, canonical, trim_space, trim_left, trim_right, lower, is_space, digit_code, scan_digits,
  group_digits, ok,
}
use tp.Hex.{hex_encode}
use tp.Store.{add, take, paste_key, second, default_ttl}
use tp.Store.History.{new_paste}
use tp.Control.{
  Parsers, Query, Daemon, Draw, created, touch, parse_post_options, options_of, post_loop,
  handle_post,
}
use tp.Commands.{Printers, PostFlags, query_of, post_query, secret_of, cmd_del, done, del_one}
use tp.Commands.Flags.{Reads, parse_post_options-post_query}
use tp.Commands.Spelling.{
  Derives, IsDeleted, handle_post-secret_of-take, handle_post-cmd_del-handle_delete,
}

-- Numbers are printed in unary.
abbrev ones : ℕ → Text
ones zero = []
ones (suc n) = b'1' ∷ ones n

abbrev shown : ℤ → Text
shown (pos n) = b'+' ∷ ones n
shown (negsuc n) = b'-' ∷ ones n

abbrev read : Text → Option ℤ
read [] = none
read (c ∷ v) =
    if text_eq (c ∷ []) (codes "+") then some (pos (length v)) else some (negsuc (length v))

length-ones : (n : ℕ) → length (ones n) ≡ n
length-ones zero = refl
length-ones (suc n) = ground (arith, length-ones n)

not_empty : (n : ℤ) → shown n ≢ []
not_empty (pos n) same = cc
not_empty (negsuc n) same = cc

read_back : (n : ℤ) → read (shown n) ≡ some n
unfolding text_eq
read_back (pos n) = rw (length-ones n) refl
read_back (negsuc n) = rw (length-ones n) refl

abbrev printers : Printers
printers = record { duration_string = shown; itoa = shown }

abbrev parsers : Parsers
parsers = record { parse_duration = read; atoi = read }

reads : Reads printers parsers
reads = record {
  duration_shown = not_empty;
  duration_read = read_back;
  number_shown = not_empty;
  number_read = read_back;
}

abbrev flags : PostFlags
flags = record { label = []; ttl = pos 0; max_gets = negsuc 4; burn = true; style = codes "digits" }

known_style : post_query printers flags ≡ some (query_of printers flags)
unfolding post_query text_eq
known_style = refl

parse_post_options-post_query_example :
    parse_post_options parsers (query_of printers flags) ≡ options_of (some default_ttl) (some 1)
parse_post_options-post_query_example =
    parse_post_options-post_query printers parsers flags (query_of printers flags) reads known_style

abbrev ascii : Unicode
ascii = record { lower_rune = λ r. r; is_space_rune = λ r. false }

abbrev derive : Text → Option (List ℕ)
derive code = some (1 ∷ 2 ∷ [])

abbrev idle : Daemon
idle = record { store = record { m = []; decoy = 9 ∷ [] }; last_used = 10 }

abbrev query : Query
query = record { label = []; ttl = []; max_gets = []; code_style = [] }

abbrev drawn : Bool → List Draw
drawn digits = record { code = codes "123-456-789"; prs = some (1 ∷ 2 ∷ []) } ∷ []

derived : (b : Bool) → All (Derives derive) (drawn b)
derived b = (refl, tt)

two_bytes : (c : Text) (prs : List ℕ) → derive c ≡ some prs → All IsByte prs
two_bytes c prs e = ground arith

answered :
    (handle_post parsers idle query second second drawn (some (7 ∷ []))).1
    ≡ created (codes "123-456-789") (second + default_ttl)
unfolding handle_post touch parse_post_options post_loop add new_paste paste_key hex_encode lookup
    insert text_eq
answered = refl

spelled : canonical ascii [] (codes " 123456789") ≡ ok (codes "123-456-789")
unfolding canonical trim_space trim_left trim_right lower is_space digit_code scan_digits
    group_digits
spelled = refl

handle_post-secret_of-take_example :
    (prs : List ℕ) × (secret_of ascii [] derive (codes " 123456789") ≡ done prs)
    × ((take
          (handle_post parsers idle query second second drawn (some (7 ∷ []))).0.store
          prs
          second).1
        ≡ some (7 ∷ []))
handle_post-secret_of-take_example =
    handle_post-secret_of-take ascii [] derive parsers idle query second second drawn (7 ∷ [])
      (codes "123-456-789") (codes " 123456789") (second + default_ttl) second derived answered
      spelled (omega arith)

handle_post-cmd_del-handle_delete_example :
    (path : Text) × (cmd_del ascii [] derive false (codes " 123456789") ≡ done (del_one path))
    × IsDeleted (handle_post parsers idle query second second drawn (some (7 ∷ []))).0 second path
handle_post-cmd_del-handle_delete_example =
    handle_post-cmd_del-handle_delete ascii [] derive parsers idle query second second drawn
      (7 ∷ []) (codes "123-456-789") (codes " 123456789") (second + default_ttl) second derived
      two_bytes answered spelled
